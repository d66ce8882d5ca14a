-- ===== src/Prelude/Codes.antt =====
-- Texts as lists of code points, compared as Python compares strings.
use Prim.Native.Nat.{ℕ}
use mathlib.Core.Path.{◌≡◌, refl}
use mathlib.Core.Bool.{Bool, true, false, ◌&&◌, ◌||◌}
use mathlib.Core.List.{List, [], ◌∷◌}
use native.Mathlib.Omega.{arith}
use prv_application.Prelude.Tests.{ltb, ◌==◌}

-- `a == b`
unfoldable pub codes_eq : List ℕ → List ℕ → Bool
codes_eq [] [] = true
codes_eq [] (y ∷ ys) = false
codes_eq (x ∷ xs) [] = false
codes_eq (x ∷ xs) (y ∷ ys) = (x == y) && codes_eq xs ys

-- `a < b`
unfoldable pub codes_lt : List ℕ → List ℕ → Bool
codes_lt [] [] = false
codes_lt [] (y ∷ ys) = true
codes_lt (x ∷ xs) [] = false
codes_lt (x ∷ xs) (y ∷ ys) = ltb x y || ((x == y) && codes_lt xs ys)

pub codes_eq_sound : (a b : List ℕ) → codes_eq a b ≡ true → a ≡ b
unfolding codes_eq
codes_eq_sound [] [] h = refl
codes_eq_sound [] (y ∷ ys) h = cc
codes_eq_sound (x ∷ xs) [] h = cc
codes_eq_sound (x ∷ xs) (y ∷ ys) h = ground (arith, codes_eq_sound xs ys)

pub codes_eq_refl : (a : List ℕ) → codes_eq a a ≡ true
unfolding codes_eq
codes_eq_refl [] = refl
codes_eq_refl (x ∷ xs) = ground (arith, codes_eq_refl xs)

pub codes_lt_total : (a b : List ℕ) → codes_lt a b ≡ true → codes_lt b a ≡ false
unfolding codes_lt
codes_lt_total [] [] h = cc
codes_lt_total [] (y ∷ ys) h = refl
codes_lt_total (x ∷ xs) [] h = cc
codes_lt_total (x ∷ xs) (y ∷ ys) h = ground (arith, codes_lt_total xs ys)

-- Texts that are not ordered either way are equal.
pub codes_lt_connex : (a b : List ℕ) → codes_lt a b ≡ false → codes_lt b a ≡ false → a ≡ b
unfolding codes_lt
codes_lt_connex [] [] h k = refl
codes_lt_connex [] (y ∷ ys) h k = cc
codes_lt_connex (x ∷ xs) [] h k = cc
codes_lt_connex (x ∷ xs) (y ∷ ys) h k = ground (arith, codes_lt_connex xs ys)
