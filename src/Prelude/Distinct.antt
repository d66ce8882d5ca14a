-- ===== src/Prelude/Distinct.antt =====
-- Lists without repetition: what sorting, cutting and selection keep, and how many rows a deletion
-- by ids removes.
use Prim.Native.Nat.{ℕ, zero, suc, ◌+◌}
use mathlib.Core.Path.{◌≡◌, refl, ap, sym, subst, ◌∙◌}
use mathlib.Core.Logic.{inl, inr}
use mathlib.Core.Bool.{Bool, true, false, not, ◌&&◌, ◌||◌}
use mathlib.Core.List.{List, [], ◌∷◌, map}
use native.Mathlib.Omega.{arith}
use prv_application.Prelude.Tests.{Bool-cases, ◌==◌, ==→≡}
use prv_application.Prelude.Lists.{
  All, All-mono, All-mono2, distinct, drop, elem, length, select, take,
}
use prv_application.Prelude.Sorting.{insert_by, sort_by}

module _ {ℓ} {A : Type ℓ} (key : A → ℕ) where
  elem-map-select_less :
      (p : A → Bool) (i : ℕ) (xs : List A)
      → elem i (map key xs) ≡ false
      → elem i (map key (select p xs)) ≡ false
  elem-map-select_less p i [] h = refl
  elem-map-select_less p i (x ∷ xs) h = ground (arith, elem-map-select_less p i xs)

  pub distinct-select :
      (p : A → Bool) (xs : List A)
      → distinct (map key xs) ≡ true
      → distinct (map key (select p xs)) ≡ true
  distinct-select p [] h = refl
  distinct-select p (x ∷ xs) h =
      ground (arith, distinct-select p xs, elem-map-select_less p (key x) xs)

  pub elem-map-take :
      (n i : ℕ) (xs : List A) → elem i (map key xs) ≡ false → elem i (map key (take n xs)) ≡ false
  elem-map-take zero i xs h = refl
  elem-map-take (suc n) i [] h = refl
  elem-map-take (suc n) i (x ∷ xs) h = ground (arith, elem-map-take n i xs)

  pub distinct-take :
      (n : ℕ) (xs : List A) → distinct (map key xs) ≡ true → distinct (map key (take n xs)) ≡ true
  distinct-take zero xs h = refl
  distinct-take (suc n) [] h = refl
  distinct-take (suc n) (x ∷ xs) h = ground (arith, distinct-take n xs, elem-map-take n (key x) xs)

  -- Every key of the rows is among the ids.
  abbrev pub KeysIn : List ℕ → List A → Type 0
  KeysIn ids xs = All (λ x. elem (key x) ids ≡ true) xs

  pub elem_keys : (xs : List A) → KeysIn (map key xs) xs
  elem_keys [] = tt
  elem_keys (x ∷ xs) = (
    ground arith,
    All-mono (λ y. elem (key y) (map key xs) ≡ true) _ xs (λ y h. ground arith) (elem_keys xs),
  )

  -- The rows without the one of an id.
  abbrev without : ℕ → List A → List A
  without i xs = select (λ x. not (i == key x)) xs

  without_absent : (i : ℕ) (xs : List A) → elem i (map key xs) ≡ false → without i xs ≡ xs
  without_absent i [] h = refl
  without_absent i (x ∷ xs) h = ground (arith, without_absent i xs)

  length-without :
      (i : ℕ) (xs : List A)
      → distinct (map key xs) ≡ true
      → elem i (map key xs) ≡ true
      → suc (length (without i xs)) ≡ length xs
  length-without i [] d h = cc
  length-without i (x ∷ xs) d h = elim (Bool-cases (i == key x)) [
    | inl e ↦
        let same = ==→≡ i (key x) e in
        let absent : elem i (map key xs) ≡ false =
          subst (λ k. elem k (map key xs) ≡ false) (sym same) (ground arith) in
        rw e (ap suc (ap length (without_absent i xs absent)))
    | inr e ↦ rw e (ap suc (length-without i xs (ground arith) (ground arith)))
  ]

  elem-without :
      (i j : ℕ) (xs : List A)
      → (i == j) ≡ false
      → elem j (map key xs) ≡ true
      → elem j (map key (without i xs)) ≡ true
  elem-without i j [] e h = cc
  elem-without i j (x ∷ xs) e h = ground (arith, elem-without i j xs e)

  select-cons :
      (i : ℕ) (is : List ℕ) (xs : List A)
      → select (λ x. not (elem (key x) (i ∷ is))) xs
        ≡ select (λ x. not (elem (key x) is)) (without i xs)
  select-cons i is [] = refl
  select-cons i is (x ∷ xs) = ground (arith, select-cons i is xs)

  others : (i : ℕ) (is : List ℕ) → elem i is ≡ false → All (λ j. (i == j) ≡ false) is
  others i [] h = tt
  others i (j ∷ js) h = (ground arith, others i js (ground arith))

  select_all_but : (xs : List A) → select (λ x. not (elem (key x) [])) xs ≡ xs
  select_all_but [] = refl
  select_all_but (x ∷ xs) = ap (λ ys. x ∷ ys) (select_all_but xs)

  -- What is not among the first rows is what follows them.
  pub select-drop :
      (n : ℕ) (xs : List A)
      → distinct (map key xs) ≡ true
      → select (λ x. not (elem (key x) (map key (take n xs)))) xs ≡ drop n xs
  select-drop zero xs d = select_all_but xs
  select-drop (suc n) [] d = refl
  select-drop (suc n) (x ∷ xs) d =
      let is = map key (take n xs) in
      let here : elem (key x) (key x ∷ is) ≡ true = ground arith in
      rw here (
        select-cons (key x) is xs
        ∙ ap (select (λ y. not (elem (key y) is))) (without_absent (key x) xs (ground arith))
        ∙ select-drop n xs (ground arith))

  -- Deleting the rows of distinct ids, each of which has one, removes as many rows as ids.
  pub length-select-not :
      (ids : List ℕ) (xs : List A)
      → distinct (map key xs) ≡ true
      → distinct ids ≡ true
      → All (λ i. elem i (map key xs) ≡ true) ids
      → length (select (λ x. not (elem (key x) ids)) xs) + length ids ≡ length xs
  length-select-not [] xs d e h = omega (arith, ap length (select_all_but xs))
  length-select-not (i ∷ is) xs d e (hi, h) =
      let ih =
        length-select-not is (without i xs) (distinct-select (λ x. not (i == key x)) xs d)
          (ground arith)
          (All-mono2 (λ j. (i == j) ≡ false) (λ j. elem j (map key xs) ≡ true) _ is
            (λ j a b. elem-without i j xs a b) (others i is (ground arith)) h) in
      omega (arith, ih, ap length (select-cons i is xs), length-without i xs d hi)

module _ {ℓ} {A : Type ℓ} (key : A → ℕ) (lt : A → A → Bool) where
  elem-insert :
      (i : ℕ) (x : A) (xs : List A)
      → elem i (map key (insert_by lt x xs)) ≡ (key x == i || elem i (map key xs))
  unfolding insert_by
  elem-insert i x [] = refl
  elem-insert i x (y ∷ ys) = ground (arith, elem-insert i x ys)

  distinct-insert_by :
      (x : A) (xs : List A)
      → distinct (map key (insert_by lt x xs))
        ≡ (not (elem (key x) (map key xs)) && distinct (map key xs))
  unfolding insert_by
  distinct-insert_by x [] = refl
  distinct-insert_by x (y ∷ ys) = ground (arith, distinct-insert_by x ys, elem-insert (key y) x ys)

  pub distinct-sort_by :
      (xs : List A) → distinct (map key xs) ≡ true → distinct (map key (sort_by lt xs)) ≡ true
  unfolding sort_by
  distinct-sort_by [] h = refl
  distinct-sort_by (x ∷ xs) h =
      ground
        (arith, distinct-insert_by x (sort_by lt xs), distinct-sort_by xs, elem_sorted (key x) xs)
    where
      elem_sorted : (i : ℕ) (zs : List A) → elem i (map key (sort_by lt zs)) ≡ elem i (map key zs)
      elem_sorted i [] = refl
      elem_sorted i (z ∷ zs) = ground (arith, elem-insert i z (sort_by lt zs), elem_sorted i zs)
