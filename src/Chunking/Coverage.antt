-- ===== src/Chunking/Coverage.antt =====
-- No unit is lost: each lies in a chunk once the packing is finished.
use prv_application.Prelude.{
  All, Bool, Bool-cases, List, String, [], any_of, any_of-append, arith, false, if_holds, inl, inr,
  is_empty, leb, length, refl, subst, sym, true, true≢false, ℕ, ◌&&◌, ◌++◌, ◌∙◌, ◌∷◌, ◌≡◌, ◌≤◌, ◌⊎◌,
}
use prv_application.Chunking.{Span, TextChunk}
use prv_application.Chunking.Units.{Chain, UnitFits}
use prv_application.Chunking.Emission.{
  ChunkState, add_unit, add_units, appended, emit, finish, is_last_span, make_room, span_end,
  span_start,
}
use prv_application.Chunking.Chunks.{
  Placed, StateFits, emit-empty, emit-full, emitted, emitted-has_text,
}
use prv_application.Chunking.Packing.{
  Chain-le, add_unit-Fits, appended-Fits, room-Fits, span_end-append, span_start-append,
}

-- The unit lies in the span of the chunk.
abbrev pub holds_unit : Span → TextChunk → Bool
holds_unit u c = leb c.char_start u.start && leb u.end c.char_end

abbrev pub is_held : Span → List TextChunk → Bool
is_held u cs = any_of (holds_unit u) cs

-- The unit waits in `current` for the next chunk.
pub record Waits (u : Span) (s : ChunkState) : Type 0 where
  pub full : is_empty s.current ≡ false
  pub added : s.added_since_emit ≡ true
  pub lower : span_start s.current ≤ u.start
  pub upper : u.end ≤ span_end s.current

abbrev pub Kept : Span → ChunkState → Type 0
Kept u s = (is_held u s.chunks ≡ true) ⊎ Waits u s

module _ (text : List ℕ) (max_characters : ℕ) (identify : ℕ → ℕ → ℕ → String) (overlap : ℕ)
    (u : Span) where
  abbrev emission : ChunkState → ChunkState
  emission = emit identify text max_characters overlap

  -- After `emit` every unit so far is in a chunk.
  emit-holds :
      (hi : ℕ) (s : ChunkState)
      → hi ≤ length text
      → StateFits text max_characters hi s
      → Kept u s
      → is_held u (emission s).chunks ≡ true
  emit-holds hi s within f k = elim (Bool-cases (is_empty s.current)) [
    | inl empty ↦
        subst (λ t. is_held u t.chunks ≡ true)
          (sym (emit-empty text max_characters identify overlap s empty))
          (elim k [ inl held ↦ held | inr w ↦ absurd (true≢false (sym empty ∙ w.full)) ])
    | inr full ↦
        let c = emitted text max_characters identify overlap s in
        subst (λ t. is_held u t.chunks ≡ true)
          (sym (
            emit-full text max_characters identify overlap s full
              (emitted-has_text text max_characters identify overlap hi s within full f.current)))
          (any_of-append (holds_unit u) s.chunks (c ∷ [])
            ∙ elim k [ inl held ↦ ground arith | inr w ↦ ground (arith, w.lower, w.upper) ])
  ]

  room-Kept :
      (hi : ℕ) (s : ChunkState) (v : Span)
      → hi ≤ length text
      → StateFits text max_characters hi s
      → Kept u s
      → Kept u (make_room identify text max_characters overlap s v)
  unfolding make_room
  room-Kept hi s v within f k =
      let held = emit-holds hi s within f k in
      if_holds (Kept u) _ _ s (if_holds (Kept u) _ _ (emission s) (inl held) (inl held)) k

  -- Appending a later unit keeps the unit waiting.
  appended-Kept :
      (s : ChunkState) (v : Span)
      → span_end s.current ≤ v.end
      → Kept u s
      → Kept u (appended identify text max_characters overlap s v)
  appended-Kept s v later (inl held) = inl held
  appended-Kept s v later (inr w) = inr (record {
    full = nonempty s.current v;
    added = refl;
    lower = omega (arith, w.lower, span_start-append s.current v w.full);
    upper = omega (arith, w.upper, span_end-append s.current v);
  })
    where
      nonempty : (us : List Span) (x : Span) → is_empty (us ++ x ∷ []) ≡ false
      nonempty [] x = refl
      nonempty (y ∷ us) x = refl

  add_unit-Kept :
      (target hi : ℕ) (s : ChunkState) (v : Span)
      → hi ≤ length text
      → v.end ≤ length text
      → StateFits text max_characters hi s
      → UnitFits text max_characters hi v
      → Kept u s
      → Kept u (add_unit identify text max_characters overlap target s v)
  add_unit-Kept target hi s v within within' f n k =
      let (g, _) = room-Fits text max_characters identify overlap hi s v within f in
      let room = make_room identify text max_characters overlap s v in
      let kept =
        appended-Kept room v (omega (arith, g.current.ends, n.after, n.nonempty))
          (room-Kept hi s v within f k) in
      let fits = appended-Fits text max_characters identify overlap hi s v within f n in
      let t = appended identify text max_characters overlap room v in
      unfold add_unit in
      if_holds (Kept u) _ (emission t) t (inl (emit-holds v.end t within' fits kept)) kept

  -- The unit that is added is kept.
  pub add_unit-Kept_self :
      (target hi : ℕ) (s : ChunkState)
      → hi ≤ length text
      → u.end ≤ length text
      → StateFits text max_characters hi s
      → UnitFits text max_characters hi u
      → Kept u (add_unit identify text max_characters overlap target s u)
  add_unit-Kept_self target hi s within within' f n =
      let room = make_room identify text max_characters overlap s u in
      let fits = appended-Fits text max_characters identify overlap hi s u within f n in
      let t = appended identify text max_characters overlap room u in
      let waits = waits_last room.current {cs = room.chunks} fits.current.placed in
      unfold add_unit in
      if_holds (Kept u) _ (emission t) t (inl (emit-holds u.end t within' fits (inr waits)))
        (inr waits)
    where
      start_before :
          (us : List Span) (a b : ℕ)
          → All (Placed text max_characters a b) (us ++ u ∷ [])
          → a ≤ u.start
      start_before [] a b (p, _) = p.0
      start_before (v ∷ us) a b (_, ps) = start_before us a b ps

      nonempty : (us : List Span) → is_empty (us ++ u ∷ []) ≡ false
      nonempty [] = refl
      nonempty (y ∷ us) = refl

      waits_last :
          (us : List Span) {cs : List TextChunk}
          → All
              (Placed text max_characters (span_start (us ++ u ∷ [])) (span_end (us ++ u ∷ [])))
              (us ++ u ∷ [])
          → Waits u (record { chunks = cs; current = us ++ u ∷ []; added_since_emit = true })
      waits_last us p = record {
        full = nonempty us;
        added = refl;
        lower = start_before us (span_start (us ++ u ∷ [])) (span_end (us ++ u ∷ [])) p;
        upper = omega (arith, span_end-append us u);
      }

  pub add_units-Kept :
      (target lo hi : ℕ) (s : ChunkState) (us : List Span)
      → hi ≤ length text
      → Chain text max_characters lo hi us
      → StateFits text max_characters lo s
      → Kept u s
      → Kept u (add_units identify text max_characters overlap target s us)
  unfolding add_units
  add_units-Kept target lo hi s [] within c f k = k
  add_units-Kept target lo hi s (v ∷ us) within (n, c) f k =
      let before = Chain-le text max_characters identify overlap v.end hi us c in
      let start_in : lo ≤ length text = omega (arith, n.after, n.nonempty, before) in
      let end_in : v.end ≤ length text = omega (arith, before) in
      add_units-Kept target v.end hi (add_unit identify text max_characters overlap target s v) us
        within c
        (add_unit-Fits text max_characters identify overlap target lo s v start_in end_in f n)
        (add_unit-Kept target lo s v start_in end_in f n k)

  -- What stands after the loop puts the last units into a chunk.
  is_last-holds :
      (cs : List TextChunk) (a b : ℕ)
      → is_last_span identify text max_characters overlap cs a b ≡ true
      → a ≤ u.start
      → u.end ≤ b
      → is_held u cs ≡ true
  is_last-holds [] a b h p q = cc
  is_last-holds (c ∷ []) a b h p q = ground arith
  is_last-holds (c ∷ d ∷ cs) a b h p q = ground (arith, is_last-holds (d ∷ cs) a b)

  finish-emits :
      (s : ChunkState)
      → is_empty s.current ≡ false
      → s.added_since_emit ≡ true
      → is_last_span identify text max_characters overlap s.chunks
          (span_start s.current)
          (span_end s.current)
        ≡ false
      → finish identify text max_characters overlap s ≡ emission s
  unfolding finish
  finish-emits s full added other_span = rw (full, added, other_span)

  pub finish-holds :
      (hi : ℕ) (s : ChunkState)
      → hi ≤ length text
      → StateFits text max_characters hi s
      → Kept u s
      → is_held u (finish identify text max_characters overlap s).chunks ≡ true
  finish-holds hi s within f k =
      let held = emit-holds hi s within f k in
      elim k [
        | inl already ↦
            unfold finish in if_holds (λ t. is_held u t.chunks ≡ true) _ (emission s) s held already
        | inr w ↦
            elim (Bool-cases (
              is_last_span identify text max_characters overlap s.chunks (span_start s.current)
                (span_end s.current))) [
                  | inl same ↦
                      unfold finish in
                      if_holds (λ t. is_held u t.chunks ≡ true) _ (emission s) s held
                        (is_last-holds s.chunks (span_start s.current) (span_end s.current) same
                          w.lower w.upper)
                  | inr other_span ↦
                      subst (λ t. is_held u t.chunks ≡ true)
                        (sym (finish-emits s w.full w.added other_span)) held
                ]
      ]
