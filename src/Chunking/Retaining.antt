-- ===== src/Chunking/Retaining.antt =====
-- What `emit` retains for the overlap: the spans of a tail of `current`, in their order.
use mathlib.Core.List.{reverse_aux}
use prv_application.Prelude.{
  All, AllPairs, All-mono, Bool-cases, List, [], arith, inl, inr, ltb, refl, reverse, ℕ, ◌+◌, ◌∙◌,
  ◌∷◌, ◌≡◌, ◌≤◌, ◌⊎◌,
}
use prv_application.Chunking.{Span}
use prv_application.Chunking.Emission.{retain, span_end}

-- The spans start in order; in the reversed list, in the opposite order.
abbrev pub InOrder : List Span → Type 0
InOrder us = AllPairs (λ (u v : Span). u.start ≤ v.start) us

abbrev Descends : List Span → Type 0
Descends us = AllPairs (λ (u v : Span). v.start ≤ u.start) us

-- Every span of the first list starts at or before every span of the second.
abbrev Precedes : List Span → List Span → Type 0
Precedes us vs = All (λ (u : Span). All (λ (v : Span). u.start ≤ v.start) vs) us

Precedes-heads :
    (us : List Span) (v : Span) (vs : List Span)
    → Precedes us (v ∷ vs)
    → All (λ (u : Span). u.start ≤ v.start) us
Precedes-heads us v vs p =
    All-mono (λ (u : Span). All (λ (w : Span). u.start ≤ w.start) (v ∷ vs)) (λ u. u.start ≤ v.start)
      us (λ u h. h.0) p

Precedes-tails :
    (us : List Span) (v : Span) (vs : List Span) → Precedes us (v ∷ vs) → Precedes us vs
Precedes-tails us v vs p =
    All-mono (λ (u : Span). All (λ (w : Span). u.start ≤ w.start) (v ∷ vs))
      (λ (u : Span). All (λ (w : Span). u.start ≤ w.start) vs) us (λ u h. h.1) p

reverse_aux-Descends :
    (us acc : List Span)
    → InOrder us
    → Descends acc
    → Precedes acc us
    → Descends (reverse_aux us acc)
reverse_aux-Descends [] acc o d p = d
reverse_aux-Descends (u ∷ us) acc (row, o) d p =
    reverse_aux-Descends us (u ∷ acc) o (Precedes-heads acc u us p, d)
      (row, Precedes-tails acc u us p)

reverse_aux-All :
    (P : Span → Type 0) (us acc : List Span) → All P us → All P acc → All P (reverse_aux us acc)
reverse_aux-All P [] acc a b = b
reverse_aux-All P (u ∷ us) acc (h, a) b = reverse_aux-All P us (u ∷ acc) a (h, b)

abbrev first_end : List Span → ℕ
first_end [] = 0
first_end (u ∷ us) = u.end

first_end-reverse_aux :
    (u : Span) (us acc : List Span) → first_end (reverse_aux (u ∷ us) acc) ≡ span_end (u ∷ us)
first_end-reverse_aux u [] acc = refl
first_end-reverse_aux u (v ∷ us) acc = first_end-reverse_aux v us (u ∷ acc)

module _ (overlap end : ℕ) where
  retain-All :
      (P : Span → Type 0) (acc us : List Span)
      → All P acc
      → All P us
      → All P (retain overlap end acc us)
  unfolding retain
  retain-All P acc [] a b = a
  retain-All P acc (u ∷ us) a (h, b) = elim (Bool-cases (ltb (u.start + overlap) end)) [
    | inl e ↦ rw e a
    | inr e ↦ rw e (retain-All P (u ∷ acc) us (h, a) b)
  ]

  retain-InOrder :
      (acc us : List Span)
      → InOrder acc
      → Descends us
      → Precedes us acc
      → InOrder (retain overlap end acc us)
  unfolding retain
  retain-InOrder acc [] o d p = o
  retain-InOrder acc (u ∷ us) o (row, d) (pu, p) = elim (Bool-cases (ltb (u.start + overlap) end)) [
    | inl e ↦ rw e o
    | inr e ↦ rw e (retain-InOrder (u ∷ acc) us (pu, o) d (both us row p))
  ]
    where
      both :
          (vs : List Span)
          → All (λ (v : Span). v.start ≤ u.start) vs
          → Precedes vs acc
          → Precedes vs (u ∷ acc)
      both [] a b = tt
      both (v ∷ vs) (h, a) (k, b) = ((h, k), both vs a b)

  retain-end_cons :
      (r : Span) (rs us : List Span) → span_end (retain overlap end (r ∷ rs) us) ≡ span_end (r ∷ rs)
  unfolding retain
  retain-end_cons r rs [] = refl
  retain-end_cons r rs (u ∷ us) = ground (arith, retain-end_cons u (r ∷ rs) us)

  -- The retained spans are none, or end where the first of the reversed spans ends.
  retain-end :
      (us : List Span)
      → (retain overlap end [] us ≡ []) ⊎ (span_end (retain overlap end [] us) ≡ first_end us)
  unfolding retain
  retain-end [] = inl refl
  retain-end (u ∷ us) = elim (Bool-cases (ltb (u.start + overlap) end)) [
    | inl e ↦ inl (rw e)
    | inr e ↦ inr (rw e (retain-end_cons u [] us))
  ]

  -- The list that `emit` leaves in `current`.
  abbrev pub retained : List Span → List Span
  retained us = retain overlap end [] (reverse us)

  pub retained-All : (P : Span → Type 0) (us : List Span) → All P us → All P (retained us)
  retained-All P us a = retain-All P [] (reverse us) tt (reverse_aux-All P us [] a tt)

  nothing-Precedes : (us : List Span) → Precedes us []
  nothing-Precedes [] = tt
  nothing-Precedes (u ∷ us) = (tt, nothing-Precedes us)

  pub retained-InOrder : (us : List Span) → InOrder us → InOrder (retained us)
  retained-InOrder us o =
      retain-InOrder [] (reverse us) tt (reverse_aux-Descends us [] o tt tt)
        (nothing-Precedes (reverse us))

  pub retained-end : (us : List Span) → (retained us ≡ []) ⊎ (span_end (retained us) ≡ span_end us)
  retained-end [] = unfold retain in inl refl
  retained-end (u ∷ us) = elim (retain-end (reverse (u ∷ us))) [
    | inl none_left ↦ inl none_left
    | inr e ↦ inr (e ∙ first_end-reverse_aux u us [])
  ]
