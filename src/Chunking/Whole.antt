-- ===== src/Chunking/Whole.antt =====
-- The chunks of a whole text.
use prv_application.Prelude.{
  All, Bool, Bool-cases, List, String, [], any_of, arith, err, false, inl, inr, leb, length, ltb,
  ok, some, true, ℕ, ◌&&◌, ◌++◌, ◌<◌, ◌∷◌, ◌≡◌, ◌≤◌,
}
use prv_application.Chunking.{Span, TextChunk, space_at}
use prv_application.Chunking.Units.{Chain, contains}
use prv_application.Chunking.Partition.{Boundaries, semantic_units-Cut}
use prv_application.Chunking.Emission.{
  ChunkState, add_unit, add_units, finish, semantic_chunks, start_state, target_exceeds_maximum,
}
use prv_application.Chunking.Chunks.{ChunkFits, Numbered, StateFits, nothing-Fits}
use prv_application.Chunking.Packing.{Chain-le, add_unit-Fits, add_units-Fits, finish-Fits}
use prv_application.Chunking.Coverage.{add_unit-Kept_self, add_units-Kept, finish-holds, is_held}

module _ (match_ends : List ℕ → List ℕ) (identify : ℕ → ℕ → ℕ → String) (text : List ℕ)
    (target max_characters overlap : ℕ) where
  start-Fits : StateFits text max_characters 0 start_state
  start-Fits = record { current = nothing-Fits text max_characters 0; chunks = tt; numbered = tt }

  abbrev packed : List Span → List TextChunk
  packed units =
      (finish identify text max_characters overlap
        (add_units identify text max_characters overlap target start_state units)).chunks

  -- Each unit is in a chunk.
  units-held :
      (lo hi : ℕ) (s : ChunkState) (units : List Span)
      → hi ≤ length text
      → Chain text max_characters lo hi units
      → StateFits text max_characters lo s
      → All
          (λ u.
            is_held u
              (finish identify text max_characters overlap
                (add_units identify text max_characters overlap target s units)).chunks
            ≡ true)
          units
  unfolding add_units
  units-held lo hi s [] within c f = tt
  units-held lo hi s (u ∷ us) within (n, c) f =
      let before = Chain-le text max_characters identify overlap u.end hi us c in
      let start_in : lo ≤ length text = omega (arith, n.after, n.nonempty, before) in
      let end_in : u.end ≤ length text = omega (arith, before) in
      let t = add_unit identify text max_characters overlap target s u in
      let g =
        add_unit-Fits text max_characters identify overlap target lo s u start_in end_in f n in
      let kept =
        add_unit-Kept_self text max_characters identify overlap u target lo s start_in end_in f n in
      (
        finish-holds text max_characters identify overlap u hi
            (add_units identify text max_characters overlap target t us) within
            (add_units-Fits text max_characters identify overlap target u.end hi t us within c g)
            (add_units-Kept text max_characters identify overlap u target u.end hi t us within c g
              kept),
        units-held u.end hi t us within c g,
      )

  -- A position in a unit that is in a chunk is in that chunk.
  abbrev pub position_in : ℕ → TextChunk → Bool
  position_in i c = leb c.char_start i && ltb i c.char_end

  position_of_held :
      (i : ℕ) (u : Span) (cs : List TextChunk)
      → contains i u ≡ true
      → is_held u cs ≡ true
      → any_of (position_in i) cs ≡ true
  position_of_held i u [] h k = cc
  position_of_held i u (c ∷ cs) h k = ground (arith, position_of_held i u cs h)

  position_of_units :
      (i : ℕ) (units : List Span) (cs : List TextChunk)
      → any_of (contains i) units ≡ true
      → All (λ u. is_held u cs ≡ true) units
      → any_of (position_in i) cs ≡ true
  position_of_units i [] cs h a = cc
  position_of_units i (u ∷ us) cs h (held, a) = elim (Bool-cases (contains i u)) [
    | inl inside ↦ position_of_held i u cs inside held
    | inr outside ↦ position_of_units i us cs (rw outside at h) a
  ]

  -- What `semantic_chunks` gives.
  pub record ChunksFit (chunks : List TextChunk) : Type 0 where
    pub fits : All (ChunkFits text max_characters) chunks
    pub numbered : Numbered 0 chunks
    pub complete :
        (i : ℕ) → i < length text → space_at text i ≡ false → any_of (position_in i) chunks ≡ true

  -- With a positive maximum that the target does not exceed, and matches that end in order within
  -- the text, the loops end. Each chunk is a
  -- stripped slice of the text that is not empty and not longer than the maximum, the ordinals
  -- count from 0, and every character that is not a space lies in a chunk.
  pub semantic_chunks-ChunksFit :
      1 ≤ max_characters
      → target ≤ max_characters
      → Boundaries 0 (length text) (match_ends text ++ length text ∷ [])
      → (chunks : List TextChunk) × (semantic_chunks match_ends identify text target max_characters
            overlap
          ≡ ok (some chunks))
        × ChunksFit chunks
  unfolding semantic_chunks
  semantic_chunks-ChunksFit positive small b =
      let (units, found, (chain, covers)) =
        semantic_units-Cut text max_characters positive match_ends b in
      let whole : length text ≤ length text = omega arith in
      let held = units-held 0 (length text) start_state units whole chain start-Fits in
      let fits =
        finish-Fits text max_characters identify overlap (length text)
          (add_units identify text max_characters overlap target start_state units) whole
          (add_units-Fits text max_characters identify overlap target 0 (length text) start_state
            units whole chain start-Fits) in
      (
        packed units,
        unfold semantic_chunks in rw (not_exceeding, found),
        record {
          fits = fits.chunks;
          numbered = fits.numbered;
          complete =
              λ i h s. position_of_units i units (packed units) (covers i (omega arith) h s) held;
        },
      )
    where
      not_exceeding : ltb max_characters target ≡ false
      not_exceeding = ground (arith, small)

  -- A target above the maximum is refused.
  pub semantic_chunks-refuses :
      max_characters < target
      → semantic_chunks match_ends identify text target max_characters overlap
        ≡ err target_exceeds_maximum
  unfolding semantic_chunks
  semantic_chunks-refuses h = ground arith
