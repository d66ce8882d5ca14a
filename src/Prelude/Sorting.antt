-- ===== src/Prelude/Sorting.antt =====
-- `sorted` and `max` with a key, over the test "the first key is less than the second".
use Prim.Native.Nat.{ℕ, suc}
use mathlib.Core.Path.{◌≡◌, refl, ap, sym, subst, ◌∙◌}
use mathlib.Core.Logic.{inl, inr}
use mathlib.Core.Bool.{Bool, true, false, ◌||◌}
use mathlib.Core.List.{List, [], ◌∷◌, map, Memᴰ}
use native.Mathlib.Omega.{arith}
use prv_application.Prelude.Tests.{Bool-cases, if◌then◌else◌, ◌==◌}
use prv_application.Prelude.Lists.{All, AllPairs, any_of, elem, length}

module _ {ℓ} {A : Type ℓ} (lt : A → A → Bool) where
  unfoldable pub insert_by : A → List A → List A
  insert_by x [] = x ∷ []
  insert_by x (y ∷ ys) = let rest = insert_by x ys in if lt y x then y ∷ rest else x ∷ y ∷ ys

  -- A stable sort: of two elements with equal keys the earlier stays first.
  unfoldable pub sort_by : List A → List A
  unfolding insert_by
  sort_by [] = []
  sort_by (x ∷ xs) = insert_by x (sort_by xs)

  -- The first of the greatest elements of `x ∷ xs`.
  unfoldable pub max_by : A → List A → A
  max_by x [] = x
  max_by x (y ∷ ys) = max_by (if lt x y then y else x) ys

  abbrev pub IsTotal : Type ℓ
  IsTotal = (x y : A) → lt x y ≡ true → lt y x ≡ false

  abbrev pub IsTransitive : Type ℓ
  IsTransitive = (x y z : A) → lt y x ≡ false → lt z y ≡ false → lt z x ≡ false

  -- No element is less than the one before it.
  abbrev pub IsSorted : List A → Type 0
  IsSorted [] = Unit
  IsSorted (x ∷ []) = Unit
  IsSorted (x ∷ y ∷ ys) = (lt y x ≡ false) × IsSorted (y ∷ ys)

  insert_by-IsSorted : IsTotal → (x : A) (xs : List A) → IsSorted xs → IsSorted (insert_by x xs)
  unfolding insert_by
  insert_by-IsSorted total x [] h = tt
  insert_by-IsSorted total x (y ∷ []) h = elim (Bool-cases (lt y x)) [
    | inl e ↦ rw e (total y x e, tt)
    | inr e ↦ rw e (e, tt)
  ]
  insert_by-IsSorted total x (y ∷ z ∷ zs) (hyz, h) =
      let ih = insert_by-IsSorted total x (z ∷ zs) h in
      elim (Bool-cases (lt y x)) [
        | inl e ↦ elim (Bool-cases (lt z x)) [
          | inl f ↦ rw (e, f) (hyz, rw f at ih)
          | inr f ↦ rw (e, f) (total y x e, rw f at ih)
        ]
        | inr e ↦ rw e (e, (hyz, h))
      ]

  pub sort_by-IsSorted : IsTotal → (xs : List A) → IsSorted (sort_by xs)
  unfolding sort_by
  sort_by-IsSorted total [] = tt
  sort_by-IsSorted total (x ∷ xs) =
      insert_by-IsSorted total x (sort_by xs) (sort_by-IsSorted total xs)

  All-insert_by {κ} :
      (P : A → Type κ) (x : A) (xs : List A) → P x → All P xs → All P (insert_by x xs)
  unfolding insert_by
  All-insert_by P x [] hx h = (hx, tt)
  All-insert_by P x (y ∷ ys) hx (hy, h) = elim (Bool-cases (lt y x)) [
    | inl e ↦ rw e (hy, All-insert_by P x ys hx h)
    | inr e ↦ rw e (hx, (hy, h))
  ]

  pub All-sort_by {κ} : (P : A → Type κ) (xs : List A) → All P xs → All P (sort_by xs)
  unfolding sort_by
  All-sort_by P [] h = tt
  All-sort_by P (x ∷ xs) (hx, h) = All-insert_by P x (sort_by xs) hx (All-sort_by P xs h)

  Memᴰ-swapped :
      (x y : A) (ys zs : List A) {a : A}
      → (Memᴰ a (x ∷ ys) → Memᴰ a zs)
      → Memᴰ a (x ∷ y ∷ ys)
      → Memᴰ a (y ∷ zs)
  Memᴰ-swapped x y ys zs put (Memᴰ.head e) = Memᴰ.tail (put (Memᴰ.head e))
  Memᴰ-swapped x y ys zs put (Memᴰ.tail (Memᴰ.head e)) = Memᴰ.head e
  Memᴰ-swapped x y ys zs put (Memᴰ.tail (Memᴰ.tail n)) = Memᴰ.tail (put (Memᴰ.tail n))

  Memᴰ-insert_by : (x : A) (xs : List A) {a : A} → Memᴰ a (x ∷ xs) → Memᴰ a (insert_by x xs)
  unfolding insert_by
  Memᴰ-insert_by x [] m = m
  Memᴰ-insert_by x (y ∷ ys) m = elim (Bool-cases (lt y x)) [
    | inl e ↦ rw e (Memᴰ-swapped x y ys (insert_by x ys) (Memᴰ-insert_by x ys) m)
    | inr e ↦ rw e m
  ]

  pub Memᴰ-sort_by : (xs : List A) {a : A} → Memᴰ a xs → Memᴰ a (sort_by xs)
  unfolding sort_by
  Memᴰ-sort_by [] m = m
  Memᴰ-sort_by (x ∷ xs) (Memᴰ.head e) = Memᴰ-insert_by x (sort_by xs) (Memᴰ.head e)
  Memᴰ-sort_by (x ∷ xs) (Memᴰ.tail m) =
      Memᴰ-insert_by x (sort_by xs) (Memᴰ.tail (Memᴰ-sort_by xs m))

  length-insert_by : (x : A) (xs : List A) → length (insert_by x xs) ≡ suc (length xs)
  unfolding insert_by
  length-insert_by x [] = refl
  length-insert_by x (y ∷ ys) = ground (arith, length-insert_by x ys)

  pub length-sort_by : (xs : List A) → length (sort_by xs) ≡ length xs
  unfolding sort_by
  length-sort_by [] = refl
  length-sort_by (x ∷ xs) = length-insert_by x (sort_by xs) ∙ ap suc (length-sort_by xs)

  elem-insert_by :
      (key : A → ℕ) (i : ℕ) (x : A) (xs : List A)
      → elem i (map key (insert_by x xs)) ≡ (key x == i || elem i (map key xs))
  unfolding insert_by
  elem-insert_by key i x [] = refl
  elem-insert_by key i x (y ∷ ys) = ground (arith, elem-insert_by key i x ys)

  pub elem-sort_by :
      (key : A → ℕ) (i : ℕ) (xs : List A) → elem i (map key (sort_by xs)) ≡ elem i (map key xs)
  unfolding sort_by
  elem-sort_by key i [] = refl
  elem-sort_by key i (x ∷ xs) =
      ground (arith, elem-insert_by key i x (sort_by xs), elem-sort_by key i xs)

  pub max_by_holds {κ} : (P : A → Type κ) (x : A) (xs : List A) → P x → All P xs → P (max_by x xs)
  unfolding max_by
  max_by_holds P x [] hx h = hx
  max_by_holds P x (y ∷ ys) hx (hy, h) = elim (Bool-cases (lt x y)) [
    | inl e ↦ rw e (max_by_holds P y ys hy h)
    | inr e ↦ rw e (max_by_holds P x ys hx h)
  ]

  pub max_by-IsMem :
      (key : A → ℕ) (x : A) (xs : List A) → elem (key (max_by x xs)) (map key (x ∷ xs)) ≡ true
  unfolding max_by
  max_by-IsMem key x [] = ground arith
  max_by-IsMem key x (y ∷ ys) = ground (arith, max_by-IsMem key (if lt x y then y else x) ys)

  max_by_start : IsTotal → IsTransitive → (x : A) (xs : List A) → lt (max_by x xs) x ≡ false
  unfolding max_by
  max_by_start total trans x [] = elim (Bool-cases (lt x x)) [
    | inl e ↦ cc (total x x e)
    | inr e ↦ e
  ]
  max_by_start total trans x (y ∷ ys) = elim (Bool-cases (lt x y)) [
    | inl e ↦ rw e (trans x y (max_by y ys) (total x y e) (max_by_start total trans y ys))
    | inr e ↦ rw e (max_by_start total trans x ys)
  ]

  max_by-cons_lt : (x y : A) (ys : List A) → lt x y ≡ true → max_by x (y ∷ ys) ≡ max_by y ys
  unfolding max_by
  max_by-cons_lt x y ys e = rw e

  max_by-cons_ge : (x y : A) (ys : List A) → lt x y ≡ false → max_by x (y ∷ ys) ≡ max_by x ys
  unfolding max_by
  max_by-cons_ge x y ys e = rw e

  -- The maximum is not less than any element.
  pub max_by_upper :
      IsTotal
      → IsTransitive
      → (x : A) (xs : List A) → All (λ y. lt (max_by x xs) y ≡ false) (x ∷ xs)
  max_by_upper total trans x [] = (max_by_start total trans x [], tt)
  max_by_upper total trans x (y ∷ ys) =
      let IsUpper = λ (m : A). All (λ z. lt m z ≡ false) (x ∷ y ∷ ys) in
      elim (Bool-cases (lt x y)) [
        | inl e ↦ subst IsUpper (sym (max_by-cons_lt x y ys e)) (
          trans x y (max_by y ys) (total x y e) (max_by_start total trans y ys),
          max_by_upper total trans y ys,
        )
        | inr e ↦
            let (hx, hys) = max_by_upper total trans x ys in
            subst IsUpper (sym (max_by-cons_ge x y ys e)) (hx, (trans y x (max_by x ys) e hx, hys))
      ]

  any_of-insert_by :
      (p : A → Bool) (x : A) (xs : List A) → any_of p (insert_by x xs) ≡ (p x || any_of p xs)
  unfolding insert_by
  any_of-insert_by p x [] = refl
  any_of-insert_by p x (y ∷ ys) = ground (arith, any_of-insert_by p x ys)

  -- Sorting changes no answer of `any`.
  pub any_of-sort_by : (p : A → Bool) (xs : List A) → any_of p (sort_by xs) ≡ any_of p xs
  unfolding sort_by
  any_of-sort_by p [] = refl
  any_of-sort_by p (x ∷ xs) = ground (arith, any_of-insert_by p x (sort_by xs), any_of-sort_by p xs)

  AllPairs-insert_by :
      (R : A → A → Type 0)
      → ((x y : A) → R x y → R y x)
      → (x : A) (xs : List A) → All (R x) xs
      → AllPairs R xs
      → AllPairs R (insert_by x xs)
  unfolding insert_by
  AllPairs-insert_by R flip x [] new old = (tt, tt)
  AllPairs-insert_by R flip x (y ∷ ys) (hy, new) (row, old) = elim (Bool-cases (lt y x)) [
    | inl e ↦
        rw e (All-insert_by (R y) x ys (flip x y hy) row, AllPairs-insert_by R flip x ys new old)
    | inr e ↦ rw e ((hy, new), (row, old))
  ]

  pub AllPairs-sort_by :
      (R : A → A → Type 0)
      → ((x y : A) → R x y → R y x)
      → (xs : List A) → AllPairs R xs
      → AllPairs R (sort_by xs)
  unfolding sort_by
  AllPairs-sort_by R flip [] h = tt
  AllPairs-sort_by R flip (x ∷ xs) (row, h) =
      AllPairs-insert_by R flip x (sort_by xs) (All-sort_by (R x) xs row)
        (AllPairs-sort_by R flip xs h)
