-- ===== src/Prelude/Lists.antt =====
-- Python's list and set operations over lists, with the facts that the components share.
use Prim.Native.Nat.{ℕ, zero, suc, ◌+◌, ◌≤◌, min}
use mathlib.Core.Path.{◌≡◌, refl, ap, sym, subst, ◌∙◌}
use mathlib.Core.Logic.{inl, inr}
use mathlib.Core.Bool.{Bool, true, false, not, ◌&&◌, ◌||◌}
use mathlib.Core.Option.{Option, none, some, some-injective}
use mathlib.Core.List.{List, [], ◌∷◌, ◌++◌, map, Memᴰ}
use native.Mathlib.Omega.{arith}
use prv_application.Prelude.Tests.{Bool-cases, if◌then◌else◌, is_id, ◌==◌}

module _ {ℓ} {A : Type ℓ} where
  abbrev pub length : List A → ℕ
  length [] = 0
  length (x ∷ xs) = suc (length xs)

  abbrev pub is_empty : List A → Bool
  is_empty [] = true
  is_empty (x ∷ xs) = false

  -- `[x for x in xs if test(x)]`
  abbrev pub select : (A → Bool) → List A → List A
  select p [] = []
  select p (x ∷ xs) = let rest = select p xs in if p x then x ∷ rest else rest

  -- `any(test(x) for x in xs)`
  abbrev pub any_of : (A → Bool) → List A → Bool
  any_of p [] = false
  any_of p (x ∷ xs) = p x || any_of p xs

  -- `all(test(x) for x in xs)`
  abbrev pub all_of : (A → Bool) → List A → Bool
  all_of p [] = true
  all_of p (x ∷ xs) = p x && all_of p xs

  -- `next((x for x in xs if test(x)), None)`
  abbrev pub find_first : (A → Bool) → List A → Option A
  find_first p [] = none
  find_first p (x ∷ xs) = let rest = find_first p xs in if p x then some x else rest

  -- `xs[:n]`, a `LIMIT n`
  abbrev pub take : ℕ → List A → List A
  take zero xs = []
  take (suc n) [] = []
  take (suc n) (x ∷ xs) = x ∷ take n xs

  abbrev pub drop : ℕ → List A → List A
  drop zero xs = xs
  drop (suc n) [] = []
  drop (suc n) (x ∷ xs) = drop n xs

  abbrev pub get_elem? : List A → ℕ → Option A
  get_elem? [] i = none
  get_elem? (x ∷ xs) zero = some x
  get_elem? (x ∷ xs) (suc i) = get_elem? xs i

  -- Every element has the property.
  abbrev pub All {κ} : (A → Type κ) → List A → Type κ
  All P [] = Unit
  All P (x ∷ xs) = P x × All P xs

  -- A relation between each element and every later one.
  abbrev pub AllPairs : (A → A → Type 0) → List A → Type 0
  AllPairs R [] = Unit
  AllPairs R (x ∷ xs) = All (R x) xs × AllPairs R xs

  pub length-append : (xs ys : List A) → length (xs ++ ys) ≡ length xs + length ys
  length-append [] ys = omega arith
  length-append (x ∷ xs) ys = omega (arith, length-append xs ys)

  pub length-select : (p : A → Bool) (xs : List A) → length (select p xs) ≤ length xs
  length-select p [] = omega arith
  length-select p (x ∷ xs) = ground (arith, length-select p xs)

  pub select-append :
      (p : A → Bool) (xs ys : List A) → select p (xs ++ ys) ≡ select p xs ++ select p ys
  select-append p [] ys = refl
  select-append p (x ∷ xs) ys = ground (arith, select-append p xs ys)

  pub all_of-append :
      (p : A → Bool) (xs ys : List A) → all_of p (xs ++ ys) ≡ (all_of p xs && all_of p ys)
  all_of-append p [] ys = refl
  all_of-append p (x ∷ xs) ys = ground (arith, all_of-append p xs ys)

  pub select-All : (p : A → Bool) (xs : List A) → All (λ x. p x ≡ true) xs → select p xs ≡ xs
  select-All p [] h = refl
  select-All p (x ∷ xs) (hx, h) = ground (arith, select-All p xs h)

  pub select_none : (p : A → Bool) (xs : List A) → All (λ x. p x ≡ false) xs → select p xs ≡ []
  select_none p [] h = refl
  select_none p (x ∷ xs) (hx, h) = ground (arith, select_none p xs h)

  -- Two tests of which the second rejects nothing that the first takes.
  pub select-select_other :
      (p q : A → Bool) (xs : List A)
      → ((x : A) → p x ≡ true → q x ≡ true)
      → select p (select q xs) ≡ select p xs
  select-select_other p q [] h = refl
  select-select_other p q (x ∷ xs) h = ground (arith, select-select_other p q xs h, h x)

  pub select-select_none :
      (p q : A → Bool) (xs : List A)
      → ((x : A) → p x ≡ true → q x ≡ false)
      → select p (select q xs) ≡ []
  select-select_none p q [] h = refl
  select-select_none p q (x ∷ xs) h = ground (arith, select-select_none p q xs h, h x)

  pub select-holds : (p : A → Bool) (xs : List A) → All (λ x. p x ≡ true) (select p xs)
  select-holds p [] = tt
  select-holds p (x ∷ xs) = elim (Bool-cases (p x)) [
    | inl e ↦ rw e (e, select-holds p xs)
    | inr e ↦ rw e (select-holds p xs)
  ]

  pub All-select {κ} :
      (P : A → Type κ) (p : A → Bool) (xs : List A) → All P xs → All P (select p xs)
  All-select P p [] h = tt
  All-select P p (x ∷ xs) (hx, h) = elim (Bool-cases (p x)) [
    | inl e ↦ rw e (hx, All-select P p xs h)
    | inr e ↦ rw e (All-select P p xs h)
  ]

  -- What the test of a selection adds to a property of the elements.
  pub All-select_with {κ μ} :
      (P : A → Type κ) (Q : A → Type μ) (p : A → Bool) (xs : List A)
      → ((x : A) → P x → p x ≡ true → Q x)
      → All P xs
      → All Q (select p xs)
  All-select_with P Q p [] f h = tt
  All-select_with P Q p (x ∷ xs) f (hx, h) = elim (Bool-cases (p x)) [
    | inl e ↦ rw e (f x hx e, All-select_with P Q p xs f h)
    | inr e ↦ rw e (All-select_with P Q p xs f h)
  ]

  pub All-append {κ} : (P : A → Type κ) (xs ys : List A) → All P xs → All P ys → All P (xs ++ ys)
  All-append P [] ys hx hy = hy
  All-append P (x ∷ xs) ys (h, hx) hy = (h, All-append P xs ys hx hy)

  pub All-mono {κ μ} :
      (P : A → Type κ) (Q : A → Type μ) (xs : List A) → ((x : A) → P x → Q x) → All P xs → All Q xs
  All-mono P Q [] f h = tt
  All-mono P Q (x ∷ xs) f (hx, h) = (f x hx, All-mono P Q xs f h)

  pub All-mono2 {κ μ ν} :
      (P : A → Type κ) (Q : A → Type μ) (R : A → Type ν) (xs : List A)
      → ((x : A) → P x → Q x → R x)
      → All P xs
      → All Q xs
      → All R xs
  All-mono2 P Q R [] f p q = tt
  All-mono2 P Q R (x ∷ xs) f (px, p) (qx, q) = (f x px qx, All-mono2 P Q R xs f p q)

  pub length-take-min : (n : ℕ) (xs : List A) → length (take n xs) ≡ min n (length xs)
  length-take-min zero xs = omega arith
  length-take-min (suc n) [] = omega arith
  length-take-min (suc n) (x ∷ xs) = omega (arith, length-take-min n xs)

  pub take-drop : (n : ℕ) (xs : List A) → take n xs ++ drop n xs ≡ xs
  take-drop zero xs = refl
  take-drop (suc n) [] = refl
  take-drop (suc n) (x ∷ xs) = ap (◌∷◌ x) (take-drop n xs)

  pub length-take : (n : ℕ) (xs : List A) → length (take n xs) ≤ n
  length-take zero xs = omega arith
  length-take (suc n) [] = omega arith
  length-take (suc n) (x ∷ xs) = omega (arith, length-take n xs)

  pub find_first-holds :
      (p : A → Bool) (xs : List A) {a : A} → find_first p xs ≡ some a → p a ≡ true
  find_first-holds p [] h = cc
  find_first-holds p (x ∷ xs) h = elim (Bool-cases (p x)) [
    | inl e ↦ ground arith
    | inr e ↦ find_first-holds p xs (rw e at h)
  ]

module _ {ℓ κ} {A : Type ℓ} {B : Type κ} where
  -- `[y for x in xs if (y := f(x)) is not None]`
  abbrev pub collect : (A → Option B) → List A → List B
  collect f [] = []
  collect f (x ∷ xs) = let rest = collect f xs in elim (f x) [ none ↦ rest | some y ↦ y ∷ rest ]

  pub length-map : (f : A → B) (xs : List A) → length (map f xs) ≡ length xs
  length-map f [] = refl
  length-map f (x ∷ xs) = ap suc (length-map f xs)

  pub All-map {μ} :
      (P : B → Type μ) (f : A → B) (xs : List A) → All (λ x. P (f x)) xs → All P (map f xs)
  All-map P f [] h = tt
  All-map P f (x ∷ xs) (hx, h) = (hx, All-map P f xs h)

-- `i in ids`
abbrev pub elem : ℕ → List ℕ → Bool
elem i [] = false
elem i (j ∷ js) = (j == i) || elem i js

pub elem_of_left : (i : ℕ) (xs ys : List ℕ) → elem i xs ≡ true → elem i (xs ++ ys) ≡ true
elem_of_left i [] ys h = cc
elem_of_left i (x ∷ xs) ys h = ground (arith, elem_of_left i xs ys)

pub elem-append : (i : ℕ) (xs ys : List ℕ) → elem i (xs ++ ys) ≡ (elem i xs || elem i ys)
elem-append i [] ys = refl
elem-append i (x ∷ xs) ys = ground (arith, elem-append i xs ys)

-- Membership in a selection from a list of ids, and in the ids that rows name.
pub elem-select-not :
    (i : ℕ) (xs ys : List ℕ)
    → elem i (select (λ j. not (elem j xs)) ys) ≡ (elem i ys && not (elem i xs))
elem-select-not i xs [] = refl
elem-select-not i xs (y ∷ ys) = elem_step (elem-select-not i xs ys)
  where
    same_test : (y == i) ≡ true → elem y xs ≡ elem i xs
    same_test h = ap (λ (k : ℕ). elem k xs) (ground (arith, h))

    elem_step :
        elem i (select (λ j. not (elem j xs)) ys) ≡ (elem i ys && not (elem i xs))
        → elem i (select (λ j. not (elem j xs)) (y ∷ ys)) ≡ (elem i (y ∷ ys) && not (elem i xs))
    elem_step ih = ground (arith, ih, same_test)

module _ {ℓ} {A : Type ℓ} where
  -- The ids that the rows name are those for which some row names them.
  pub elem-collect :
      (f : A → Option ℕ) (i : ℕ) (xs : List A)
      → elem i (collect f xs) ≡ any_of (λ x. is_id (f x) i) xs
  elem-collect f i [] = refl
  elem-collect f i (x ∷ xs) = ground (arith, elem-collect f i xs)

  pub All-at {κ} : (P : A → Type κ) (xs : List A) {x : A} → Memᴰ x xs → All P xs → P x
  All-at P [] m a = elim m [ ]
  All-at P (y ∷ ys) (Memᴰ.head e) (h, a) = subst P (sym e) h
  All-at P (y ∷ ys) (Memᴰ.tail m) (h, a) = All-at P ys m a

  pub find_first-Memᴰ : (p : A → Bool) (xs : List A) {a : A} → find_first p xs ≡ some a → Memᴰ a xs
  find_first-Memᴰ p [] h = cc
  find_first-Memᴰ p (x ∷ xs) h = elim (Bool-cases (p x)) [
    | inl e ↦ Memᴰ.head (sym (some-injective _ _ (rw e at h)))
    | inr e ↦ Memᴰ.tail (find_first-Memᴰ p xs (rw e at h))
  ]

  pub Memᴰ-select :
      (p : A → Bool) (xs : List A) {x : A} → Memᴰ x xs → p x ≡ true → Memᴰ x (select p xs)
  Memᴰ-select p [] m h = elim m [ ]
  Memᴰ-select p (y ∷ ys) (Memᴰ.head e) h = rw (ap p (sym e) ∙ h) (Memᴰ.head e)
  Memᴰ-select p (y ∷ ys) (Memᴰ.tail m) h = elim (Bool-cases (p y)) [
    | inl t ↦ rw t (Memᴰ.tail (Memᴰ-select p ys m h))
    | inr t ↦ rw t (Memᴰ-select p ys m h)
  ]

  -- A row behind an id.
  pub elem-map-select :
      (key : A → ℕ) (p : A → Bool) (i : ℕ) (xs : List A)
      → elem i (map key (select p xs)) ≡ true
      → (x : A) × Memᴰ x xs × (p x ≡ true) × (key x ≡ i)
  elem-map-select key p i [] h = cc
  elem-map-select key p i (y ∷ ys) h = elim (Bool-cases (p y && (key y == i))) [
    | inl found ↦ (y, Memᴰ.head refl, ground arith, ground arith)
    | inr not_here ↦
        let (x, m, t, e) = elem-map-select key p i ys (ground arith) in (x, Memᴰ.tail m, t, e)
  ]

-- No id occurs twice, as a primary key guarantees.
abbrev pub distinct : List ℕ → Bool
distinct [] = true
distinct (i ∷ is) = not (elem i is) && distinct is

module _ {ℓ} {A : Type ℓ} (key : A → ℕ) where
  pub elem_of_Memᴰ : (xs : List A) {x : A} → Memᴰ x xs → elem (key x) (map key xs) ≡ true
  elem_of_Memᴰ [] m = elim m [ ]
  elem_of_Memᴰ (y ∷ ys) (Memᴰ.head e) = ground (arith, ap key e)
  elem_of_Memᴰ (y ∷ ys) (Memᴰ.tail m) = ground (arith, elem_of_Memᴰ ys m)

  elem_same : {i j : ℕ} (is : List ℕ) → i ≡ j → elem i is ≡ true → elem j is ≡ true
  elem_same is e h = subst (λ k. elem k is ≡ true) e h

  -- Rows with distinct keys are equal when their keys are.
  pub distinct-same :
      (xs : List A) {x y : A}
      → distinct (map key xs) ≡ true
      → Memᴰ x xs
      → Memᴰ y xs
      → key x ≡ key y
      → x ≡ y
  distinct-same [] d m n e = elim m [ ]
  distinct-same (z ∷ zs) d (Memᴰ.head p) (Memᴰ.head q) e = p ∙ sym q
  distinct-same (z ∷ zs) d (Memᴰ.head p) (Memᴰ.tail n) e =
      absurd (ground (arith, elem_same (map key zs) (sym e ∙ ap key p) (elem_of_Memᴰ zs n)))
  distinct-same (z ∷ zs) d (Memᴰ.tail m) (Memᴰ.head q) e =
      absurd (ground (arith, elem_same (map key zs) (e ∙ ap key q) (elem_of_Memᴰ zs m)))
  distinct-same (z ∷ zs) d (Memᴰ.tail m) (Memᴰ.tail n) e = distinct-same zs (ground arith) m n e
