-- ===== src/Chunking/Partition.antt =====
-- The semantic units of a whole text.
use prv_application.Prelude.{
  Bool-cases, List, Option, [], arith, inl, inr, length, ltb, ltb→ge, none, refl, some, suc, ℕ,
  ◌++◌, ◌+◌, ◌-◌, ◌<◌, ◌∷◌, ◌≡◌, ◌≤◌,
}
use prv_application.Chunking.{
  Span, nonempty_span, semantic_units, split_long_span, unit_spans, units_from,
}
use prv_application.Chunking.Spans.{TrimsTo, nonempty_span-Trims}
use prv_application.Chunking.Units.{Chain, Cut, Cut-append, lower_start, split_from-Cut}

-- Boundaries from `lo` on, in order, the last of them at `hi`.
abbrev pub Boundaries : ℕ → ℕ → List ℕ → Type 0
Boundaries lo hi [] = lo ≡ hi
Boundaries lo hi (e ∷ es) = (lo ≤ e) × Boundaries e hi es

module _ (text : List ℕ) (max_characters : ℕ) (positive : 1 ≤ max_characters) where
  Chain-widen :
      (lo lo' hi hi' : ℕ) (us : List Span)
      → lo' ≤ lo
      → hi ≤ hi'
      → Chain text max_characters lo hi us
      → Chain text max_characters lo' hi' us
  Chain-widen lo lo' hi hi' [] a b c = omega arith
  Chain-widen lo lo' hi hi' (u ∷ us) a b (f, c) = (
    lower_start text max_characters lo lo' u a f,
    Chain-widen u.end u.end hi hi' us (omega arith) b c,
  )

  split_long_span-Cut :
      (u : Span)
      → u.start < u.end
      → (us : List Span) × (split_long_span text u.start u.end max_characters ≡ some us)
        × Cut text max_characters u.start u.end us
  unfolding split_long_span
  split_long_span-Cut u h =
      split_from-Cut text max_characters u.end (suc (u.end - u.start)) u.start positive
        (omega arith) (omega arith)

  -- The spans of one pair of neighbouring boundaries.
  unit_spans-Cut :
      (lo hi : ℕ) (o : Option Span)
      → lo ≤ hi
      → TrimsTo text lo hi o
      → (us : List Span) × (unit_spans text max_characters o ≡ some us)
        × Cut text max_characters lo hi us
  unit_spans-Cut lo hi none h t = ([], refl, (h, (λ i a b s. absurd (t i a b s))))
  unit_spans-Cut lo hi (some u) h t = elim (Bool-cases (ltb (u.start + max_characters) u.end)) [
    | inl long ↦
        let (us, e, (chain, covers)) = split_long_span-Cut u t.nonempty in
        (
          us,
          rw long e,
          (
            Chain-widen u.start lo u.end hi us t.lower t.upper chain,
            (λ i a b s. let (x, y) = t.complete i a b s in covers i x y s),
          ),
        )
    | inr fits ↦ (
      u ∷ [],
      rw fits,
      (
        (
          record {
            after = t.lower;
            nonempty = t.nonempty;
            short = ltb→ge (u.start + max_characters) u.end fits;
            first = t.first;
            last = t.last;
          },
          t.upper,
        ),
        (λ i a b s. let (x, y) = t.complete i a b s in ground (arith, x, y)),
      ),
    )
  ]

  units_from-Cut :
      (lo hi : ℕ) (es : List ℕ)
      → Boundaries lo hi es
      → (us : List Span) × (units_from text max_characters lo es ≡ some us)
        × Cut text max_characters lo hi us
  unfolding units_from
  units_from-Cut lo hi [] b = ([], refl, (omega arith, (λ i x y s. absurd (omega arith))))
  units_from-Cut lo hi (e ∷ es) (h, b) =
      let (spans, found, cut) =
        unit_spans-Cut lo e (nonempty_span text lo e) h (nonempty_span-Trims text lo e h) in
      let (rest, found', cut') = units_from-Cut e hi es b in
      (
        spans ++ rest,
        rw (found, found'),
        Cut-append text max_characters lo e hi spans rest cut cut',
      )

  -- With a positive maximum, and matches that end in order within the text, the loops end. The units follow one another within the text, none is
  -- empty or longer than the maximum, none has a space at an end, and every character that is not
  -- a space lies in one.
  pub semantic_units-Cut :
      (match_ends : List ℕ → List ℕ)
      → Boundaries 0 (length text) (match_ends text ++ length text ∷ [])
      → (us : List Span) × (semantic_units match_ends text max_characters ≡ some us)
        × Cut text max_characters 0 (length text) us
  unfolding semantic_units
  semantic_units-Cut match_ends b =
      units_from-Cut 0 (length text) (match_ends text ++ length text ∷ []) b
