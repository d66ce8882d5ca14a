-- ===== src/Prelude/Selecting.antt =====
-- More facts on `any`, `[... if ...]`, `LIMIT` and their order.
use Prim.Native.Nat.{ℕ, zero, suc, ◌≤◌}
use mathlib.Core.Path.{◌≡◌, refl, ◌∙◌}
use mathlib.Core.Bool.{Bool, true, false, not, ◌&&◌, ◌||◌}
use mathlib.Core.List.{List, [], ◌∷◌, ◌++◌, Memᴰ, append-nil}
use native.Mathlib.Omega.{arith}
use prv_application.Prelude.Lists.{
  All, any_of, drop, is_empty, length, select, select-append, select_none, take,
}

module _ {ℓ} {A : Type ℓ} where
  pub any_of-append :
      (p : A → Bool) (xs ys : List A) → any_of p (xs ++ ys) ≡ (any_of p xs || any_of p ys)
  any_of-append p [] ys = refl
  any_of-append p (x ∷ xs) ys = ground (arith, any_of-append p xs ys)

  pub is_empty-select : (p : A → Bool) (xs : List A) → is_empty (select p xs) ≡ not (any_of p xs)
  is_empty-select p [] = refl
  is_empty-select p (x ∷ xs) = ground (arith, is_empty-select p xs)

  pub select-append_other :
      (p : A → Bool) (xs ys : List A)
      → All (λ y. p y ≡ false) ys
      → select p (xs ++ ys) ≡ select p xs
  select-append_other p xs ys h =
      select-append p xs ys ∙ rw (select_none p ys h) (append-nil (select p xs))

module _ {ℓ} {A : Type ℓ} where
  pub any_of-All : (p : A → Bool) (xs : List A) → any_of p xs ≡ false → All (λ x. p x ≡ false) xs
  any_of-All p [] h = tt
  any_of-All p (x ∷ xs) h = (ground arith, any_of-All p xs (ground arith))

  -- What is found stays found if the selection keeps it, and what is not found is not selected.
  pub any_of-select_kept :
      (p q : A → Bool) (xs : List A)
      → ((x : A) → p x ≡ true → q x ≡ true)
      → any_of p xs ≡ true
      → any_of p (select q xs) ≡ true
  any_of-select_kept p q [] f h = cc
  any_of-select_kept p q (x ∷ xs) f h = ground (arith, any_of-select_kept p q xs f, f x)

  pub any_of-select_none :
      (p q : A → Bool) (xs : List A) → any_of p xs ≡ false → any_of p (select q xs) ≡ false
  any_of-select_none p q [] h = refl
  any_of-select_none p q (x ∷ xs) h = ground (arith, any_of-select_none p q xs)

  pub select_swap : (p q : A → Bool) (xs : List A) → select p (select q xs) ≡ select q (select p xs)
  select_swap p q [] = refl
  select_swap p q (x ∷ xs) = ground (arith, select_swap p q xs)

  pub All-take {κ} : (P : A → Type κ) (n : ℕ) (xs : List A) → All P xs → All P (take n xs)
  All-take P zero xs h = tt
  All-take P (suc n) [] h = tt
  All-take P (suc n) (x ∷ xs) (hx, h) = (hx, All-take P n xs h)

  -- What holds of each member.
  pub All-intro {κ} : (P : A → Type κ) (xs : List A) → ((x : A) → Memᴰ x xs → P x) → All P xs
  All-intro P [] f = tt
  All-intro P (x ∷ xs) f = (f x (Memᴰ.head refl), All-intro P xs (λ y m. f y (Memᴰ.tail m)))

  -- A second test that takes all rows of the list that the first one takes.
  pub select-select_kept :
      (p q : A → Bool) (xs : List A)
      → All (λ x. p x ≡ true → q x ≡ true) xs
      → select p (select q xs) ≡ select p xs
  select-select_kept p q [] h = refl
  select-select_kept p q (x ∷ xs) (hx, h) = ground (arith, select-select_kept p q xs h, hx)

  pub any_of-length : (p : A → Bool) (xs : List A) → any_of p xs ≡ false → length (select p xs) ≡ 0
  any_of-length p [] h = refl
  any_of-length p (x ∷ xs) h = ground (arith, any_of-length p xs)

  pub any_of-length_pos :
      (p : A → Bool) (xs : List A) → any_of p xs ≡ true → 1 ≤ length (select p xs)
  any_of-length_pos p [] h = cc
  any_of-length_pos p (x ∷ xs) h = ground (arith, any_of-length_pos p xs)

  pub length-take_pos : (n : ℕ) (xs : List A) → 1 ≤ n → 1 ≤ length xs → 1 ≤ length (take n xs)
  length-take_pos zero xs h k = omega arith
  length-take_pos (suc n) [] h k = omega arith
  length-take_pos (suc n) (x ∷ xs) h k = omega arith

  pub any_of-select :
      (p q : A → Bool) (xs : List A) → any_of p (select q xs) ≡ any_of (λ x. q x && p x) xs
  any_of-select p q [] = refl
  any_of-select p q (x ∷ xs) = ground (arith, any_of-select p q xs)

  pub any_of-take :
      (p : A → Bool) (n : ℕ) (xs : List A)
      → any_of p xs ≡ (any_of p (take n xs) || any_of p (drop n xs))
  any_of-take p zero xs = refl
  any_of-take p (suc n) [] = refl
  any_of-take p (suc n) (x ∷ xs) = ground (arith, any_of-take p n xs)

  pub select-select :
      (p q r : A → Bool) (xs : List A)
      → ((x : A) → r x ≡ (q x && p x))
      → select p (select q xs) ≡ select r xs
  select-select p q r [] f = refl
  select-select p q r (x ∷ xs) f = ground (arith, select-select p q r xs f, f x)

  pub select-ext :
      (p q : A → Bool) (xs : List A) → ((x : A) → p x ≡ q x) → select p xs ≡ select q xs
  select-ext p q [] f = refl
  select-ext p q (x ∷ xs) f = ground (arith, select-ext p q xs f, f x)
