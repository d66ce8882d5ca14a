-- ===== src/Chunking/Spans.antt =====
-- `_nonempty_span` trims a span to its outermost characters that are not spaces.
use prv_application.Prelude.{
  ==→≡, Bool-cases, List, Option, arith, false, inl, inr, ltb, ltb→ge, ltb→lt, none, some, subst,
  suc, sym, true, true≢false, zero, ℕ, ◌+◌, ◌-◌, ◌<◌, ◌==◌, ◌∙◌, ◌≡◌, ◌≤◌,
}
use prv_application.Chunking.{Span, nonempty_span, skip_left, skip_right, space_at}

-- The position of a character that is not a space lies in the span.
abbrev pub Inside : ℕ → Span → Type 0
Inside i u = (u.start ≤ i) × (i < u.end)

record SkipsLeft (text : List ℕ) (k s r : ℕ) : Type 0 where
  lower : s ≤ r
  upper : r ≤ s + k
  skipped : (i : ℕ) → s ≤ i → i < r → space_at text i ≡ true
  stops : r < s + k → space_at text r ≡ false

skip_left-Skips : (text : List ℕ) (k s : ℕ) → SkipsLeft text k s (skip_left text k s)
unfolding skip_left
skip_left-Skips text zero s = record {
  lower = omega arith;
  upper = omega arith;
  skipped = λ i a b. absurd (omega arith);
  stops = λ h. absurd (omega arith);
}
skip_left-Skips text (suc k) s = elim (Bool-cases (space_at text s)) [
  | inr done ↦ rw done (record {
    lower = omega arith;
    upper = omega arith;
    skipped = λ i a b. absurd (omega arith);
    stops = λ h. done;
  })
  | inl more ↦
      let ih = skip_left-Skips text k (s + 1) in
      rw more (record {
        lower = omega (arith, ih.lower);
        upper = omega (arith, ih.upper);
        skipped = λ i a b. elim (Bool-cases (i == s)) [
          | inl here ↦ subst (λ j. space_at text j ≡ true) (sym (==→≡ i s here)) more
          | inr later ↦ ih.skipped i (ground arith) b
        ];
        stops = λ h. ih.stops (omega arith);
      })
]

record SkipsRight (text : List ℕ) (k e r : ℕ) : Type 0 where
  lower : e ≤ r + k
  upper : r ≤ e
  skipped : (i : ℕ) → r ≤ i → i < e → space_at text i ≡ true
  stops : e < r + k → space_at text (r - 1) ≡ false

skip_right-Skips : (text : List ℕ) (k e : ℕ) → k ≤ e → SkipsRight text k e (skip_right text k e)
unfolding skip_right
skip_right-Skips text zero e h = record {
  lower = omega arith;
  upper = omega arith;
  skipped = λ i a b. absurd (omega arith);
  stops = λ x. absurd (omega arith);
}
skip_right-Skips text (suc k) e h = elim (Bool-cases (space_at text (e - 1))) [
  | inr done ↦ rw done (record {
    lower = omega arith;
    upper = omega arith;
    skipped = λ i a b. absurd (omega arith);
    stops = λ x. done;
  })
  | inl more ↦
      let ih = skip_right-Skips text k (e - 1) (omega arith) in
      rw more (record {
        lower = omega (arith, ih.lower);
        upper = omega (arith, ih.upper);
        skipped = λ i a b. elim (Bool-cases (i == e - 1)) [
          | inl here ↦ subst (λ j. space_at text j ≡ true) (sym (==→≡ i (e - 1) here)) more
          | inr later ↦ ih.skipped i a (ground arith)
        ];
        stops = λ x. ih.stops (omega arith);
      })
]

-- The outcome of `_nonempty_span`: within the bounds, not empty, with characters that are not
-- spaces at both ends, and with every such character of the bounds inside.
pub record Trims (text : List ℕ) (start end : ℕ) (u : Span) : Type 0 where
  pub lower : start ≤ u.start
  pub nonempty : u.start < u.end
  pub upper : u.end ≤ end
  pub first : space_at text u.start ≡ false
  pub last : space_at text (u.end - 1) ≡ false
  pub complete : (i : ℕ) → start ≤ i → i < end → space_at text i ≡ false → Inside i u

abbrev pub TrimsTo : List ℕ → ℕ → ℕ → Option Span → Type 0
TrimsTo text start end none = (i : ℕ) → start ≤ i → i < end → space_at text i ≡ false → ⊥
TrimsTo text start end (some u) = Trims text start end u

module _ (text : List ℕ) (start end : ℕ) (ordered : start ≤ end) where
  abbrev first : ℕ
  first = skip_left text (end - start) start

  abbrev last : ℕ
  last = skip_right text (end - first) end

  left : SkipsLeft text (end - start) start first
  left = skip_left-Skips text (end - start) start

  right : SkipsRight text (end - first) end last
  right = skip_right-Skips text (end - first) end (omega arith)

  -- A character that is not a space was skipped from neither side.
  kept : (i : ℕ) → start ≤ i → i < end → space_at text i ≡ false → (first ≤ i) × (i < last)
  kept i a b c = (
    elim (Bool-cases (ltb i first)) [
      | inl early ↦ absurd (true≢false (sym (left.skipped i a (ltb→lt i first early)) ∙ c))
      | inr after ↦ ltb→ge i first after
    ],
    elim (Bool-cases (ltb i last)) [
      | inl before ↦ ltb→lt i last before
      | inr late ↦ absurd (true≢false (sym (right.skipped i (ltb→ge i last late) b) ∙ c))
    ],
  )

  -- A span with no character but spaces has no result; any other is trimmed.
  pub nonempty_span-Trims : TrimsTo text start end (nonempty_span text start end)
  unfolding nonempty_span
  nonempty_span-Trims = elim (Bool-cases (ltb first last)) [
    | inl inhabited ↦ rw inhabited (record {
      lower = left.lower;
      nonempty = ltb→lt first last inhabited;
      upper = right.upper;
      first = left.stops (ground (arith, left, right));
      last = right.stops (ground (arith, left, right));
      complete = kept;
    })
    | inr empty ↦ rw empty (λ i a b c. let (x, y) = kept i a b c in ground (arith, x, y))
  ]
