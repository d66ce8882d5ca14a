-- ===== src/Chunking/Chunks.antt =====
-- Every chunk lies within the text and the maximum, and has text.
use prv_application.Prelude.{
  All, All-append, All-mono, Bool-cases, List, String, [], arith, false, inl, inr, is_empty, length,
  refl, subst, suc, sym, true, true≢false, ℕ, ◌++◌, ◌+◌, ◌<◌, ◌∷◌, ◌≡◌, ◌≤◌,
}
use prv_application.Chunking.{Span, TextChunk, space_at}
use prv_application.Chunking.Emission.{ChunkState, emit, slice, span_end, span_start, strip}
use prv_application.Chunking.Texts.{strip-slice}
use prv_application.Chunking.Retaining.{
  InOrder, retained, retained-All, retained-InOrder, retained-end,
}

-- A chunk of a text: not empty, within the maximum and the text.
pub record ChunkFits (text : List ℕ) (max_characters : ℕ) (c : TextChunk) : Type 0 where
  pub nonempty : c.char_start < c.char_end
  pub short : c.char_end ≤ c.char_start + max_characters
  pub within : c.char_end ≤ length text
  pub value : c.text ≡ strip (slice text c.char_start c.char_end)
  pub has_text : is_empty c.text ≡ false

-- The chunks are numbered from `n`.
abbrev pub Numbered : ℕ → List TextChunk → Type 0
Numbered n [] = Unit
Numbered n (c ∷ cs) = (c.ordinal ≡ n) × Numbered (suc n) cs

Numbered-append :
    (n : ℕ) (cs : List TextChunk) (c : TextChunk)
    → Numbered n cs
    → c.ordinal ≡ n + length cs
    → Numbered n (cs ++ c ∷ [])
Numbered-append n [] c h e = (omega arith, tt)
Numbered-append n (d ∷ cs) c (hd, h) e = (hd, Numbered-append (suc n) cs c h (omega arith))

module _ (text : List ℕ) (max_characters : ℕ) where
  -- A span of `current`: it starts between the start and the end, and not with a space.
  abbrev pub Placed : ℕ → ℕ → Span → Type 0
  Placed a b u = (a ≤ u.start) × (u.start < b) × (space_at text u.start ≡ false)

  -- `current` when the units up to `hi` have been taken.
  pub record CurrentFits (hi : ℕ) (current : List Span) : Type 0 where
    pub ends : span_end current ≤ hi
    pub short : span_end current ≤ span_start current + max_characters
    pub in_order : InOrder current
    pub placed : All (Placed (span_start current) (span_end current)) current

  pub record StateFits (hi : ℕ) (s : ChunkState) : Type 0 where
    pub current : CurrentFits hi s.current
    pub chunks : All (ChunkFits text max_characters) s.chunks
    pub numbered : Numbered 0 s.chunks

  pub nothing-Fits : (hi : ℕ) → CurrentFits hi []
  nothing-Fits hi = record { ends = omega arith; short = omega arith; in_order = tt; placed = tt }

  -- A tail of `current` fits as `current` did.
  tail-Fits :
      (hi a b : ℕ) (us : List Span)
      → b ≤ hi
      → b ≤ a + max_characters
      → span_end us ≡ b
      → InOrder us
      → All (Placed a b) us
      → CurrentFits hi us
  tail-Fits hi a b [] h m e o p = nothing-Fits hi
  tail-Fits hi a b (u ∷ us) h m e (row, o) (pu, p) = record {
    ends = omega arith;
    short = omega (arith, pu.0);
    in_order = (row, o);
    placed = (
      placed_at u (pu, omega arith),
      All-mono (λ v. Placed a b v × (u.start ≤ v.start)) (Placed u.start (span_end (u ∷ us))) us
          placed_at (both us p row),
    );
  }
    where
      placed_at :
          (v : Span) → Placed a b v × (u.start ≤ v.start) → Placed u.start (span_end (u ∷ us)) v
      placed_at v (pv, after) = (after, omega (arith, pv.1), pv.2)

      both :
          (vs : List Span)
          → All (Placed a b) vs
          → All (λ (v : Span). u.start ≤ v.start) vs
          → All (λ v. Placed a b v × (u.start ≤ v.start)) vs
      both [] x y = tt
      both (v ∷ vs) (x, xs) (y, ys) = ((x, y), both vs xs ys)

  module _ (identify : ℕ → ℕ → ℕ → String) (overlap : ℕ) where
    -- The chunk that `emit` adds to a state with spans.
    abbrev pub emitted : ChunkState → TextChunk
    emitted s = record {
      chunk_id = identify (length s.chunks) (span_start s.current) (span_end s.current);
      ordinal = length s.chunks;
      char_start = span_start s.current;
      char_end = span_end s.current;
      text = strip (slice text (span_start s.current) (span_end s.current));
    }

    retained-Fits :
        (hi : ℕ) (us : List Span)
        → CurrentFits hi us
        → CurrentFits hi (retained overlap (span_end us) us)
    retained-Fits hi us f = elim (retained-end overlap (span_end us) us) [
      | inl none_left ↦ subst (CurrentFits hi) (sym none_left) (nothing-Fits hi)
      | inr e ↦
          tail-Fits hi (span_start us) (span_end us) (retained overlap (span_end us) us) f.ends
            f.short e (retained-InOrder overlap (span_end us) us f.in_order)
            (retained-All overlap (span_end us) (Placed (span_start us) (span_end us)) us f.placed)
    ]

    emitted-Fits :
        (hi : ℕ) (s : ChunkState)
        → hi ≤ length text
        → is_empty s.current ≡ false
        → CurrentFits hi s.current
        → ChunkFits text max_characters (emitted s)
    emitted-Fits hi s within full f =
        let (_, inhabited, at_start) = first_placed s.current full f.placed in
        record {
          nonempty = inhabited;
          short = f.short;
          within = omega (arith, f.ends);
          value = refl;
          has_text =
              strip-slice text (span_start s.current) (span_end s.current) inhabited
                (omega (arith, f.ends)) at_start;
        }
      where
        first_placed :
            (us : List Span)
            → is_empty us ≡ false
            → All (Placed (span_start us) (span_end us)) us
            → Placed (span_start us) (span_end us) (record { start = span_start us; end = 0 })
        first_placed [] e p = absurd (true≢false e)
        first_placed (u ∷ us) e (pu, p) = pu

    pub emit-empty :
        (s : ChunkState)
        → is_empty s.current ≡ true
        → emit identify text max_characters overlap s ≡ s
    unfolding emit
    emit-empty s e = rw e

    -- What `emit` does to a state with spans.
    pub emit-full :
        (s : ChunkState)
        → is_empty s.current ≡ false
        → is_empty (emitted s).text ≡ false
        → emit identify text max_characters overlap s ≡ record {
          chunks = s.chunks ++ emitted s ∷ [];
          current = retained overlap (span_end s.current) s.current;
          added_since_emit = false;
        }
    unfolding emit
    emit-full s full t = rw (full, t)

    pub emit-Fits :
        (hi : ℕ) (s : ChunkState)
        → hi ≤ length text
        → StateFits hi s
        → StateFits hi (emit identify text max_characters overlap s)
    emit-Fits hi s within f = elim (Bool-cases (is_empty s.current)) [
      | inl empty ↦ subst (StateFits hi) (sym (emit-empty s empty)) f
      | inr full ↦
          let fits = emitted-Fits hi s within full f.current in
          subst (StateFits hi) (sym (emit-full s full fits.has_text)) (record {
            current = retained-Fits hi s.current f.current;
            chunks =
                All-append (ChunkFits text max_characters) s.chunks (emitted s ∷ []) f.chunks
                  (fits, tt);
            numbered = Numbered-append 0 s.chunks (emitted s) f.numbered (omega arith);
          })
    ]

    pub emitted-has_text :
        (hi : ℕ) (s : ChunkState)
        → hi ≤ length text
        → is_empty s.current ≡ false
        → CurrentFits hi s.current
        → is_empty (emitted s).text ≡ false
    emitted-has_text hi s within full f = (emitted-Fits hi s within full f).has_text
