-- ===== src/Chunking/Texts.antt =====
-- A slice that begins with a character that is not a space strips to a text that is not empty.
use mathlib.Core.List.{reverse_aux, reverse-cons}
use prv_application.Prelude.{
  Bool-cases, List, [], ap, arith, drop, false, get_elem?, inl, inr, is_empty, length, refl,
  reverse, some, some-injective, subst, suc, sym, take, zero, ℕ, ◌&&◌, ◌++◌, ◌-◌, ◌<◌, ◌∙◌, ◌∷◌,
  ◌≡◌, ◌≤◌,
}
use prv_application.Chunking.{is_space, space_at}
use prv_application.Chunking.Emission.{lstrip, slice, strip}

module _ {A : Type 0} where
  is_empty-reverse_aux :
      (xs acc : List A) → is_empty (reverse_aux xs acc) ≡ (is_empty xs && is_empty acc)
  is_empty-reverse_aux [] acc = refl
  is_empty-reverse_aux (x ∷ xs) acc = ground (arith, is_empty-reverse_aux xs (x ∷ acc))

  is_empty-reverse : (xs : List A) → is_empty (reverse xs) ≡ is_empty xs
  is_empty-reverse [] = refl
  is_empty-reverse (x ∷ xs) = ground (arith, is_empty-reverse_aux xs (x ∷ []))

  drop-cons :
      (xs : List A) (i : ℕ) (c : A) → get_elem? xs i ≡ some c → (r : List A) × (drop i xs ≡ c ∷ r)
  drop-cons [] i c h = absurd (cc)
  drop-cons (x ∷ xs) zero c h = (xs, ap (λ y. y ∷ xs) (some-injective x c h))
  drop-cons (x ∷ xs) (suc i) c h = drop-cons xs i c h

  get_elem?-some : (xs : List A) (i : ℕ) → i < length xs → (c : A) × (get_elem? xs i ≡ some c)
  get_elem?-some [] i h = absurd (omega arith)
  get_elem?-some (x ∷ xs) zero h = (x, refl)
  get_elem?-some (x ∷ xs) (suc i) h = get_elem?-some xs i (omega arith)

lstrip-last : (xs : List ℕ) (c : ℕ) → is_space c ≡ false → is_empty (lstrip (xs ++ c ∷ [])) ≡ false
unfolding lstrip
lstrip-last [] c h = rw h
lstrip-last (x ∷ xs) c h = elim (Bool-cases (is_space x)) [
  | inl e ↦ rw e (lstrip-last xs c h)
  | inr e ↦ rw e
]

lstrip-cons : (c : ℕ) (cs : List ℕ) → is_space c ≡ false → lstrip (c ∷ cs) ≡ c ∷ cs
unfolding lstrip
lstrip-cons c cs h = rw h

strip-cons : (c : ℕ) (cs : List ℕ) → is_space c ≡ false → is_empty (strip (c ∷ cs)) ≡ false
unfolding strip
strip-cons c cs h =
    is_empty-reverse (lstrip (reverse (lstrip (c ∷ cs))))
    ∙ subst (λ ds. is_empty (lstrip (reverse ds)) ≡ false) (sym (lstrip-cons c cs h))
        (subst (λ ds. is_empty (lstrip ds) ≡ false) (sym (reverse-cons c cs))
          (lstrip-last (reverse cs) c h))

space_at-lem : (text : List ℕ) (i c : ℕ) → get_elem? text i ≡ some c → space_at text i ≡ is_space c
unfolding space_at
space_at-lem text i c h = rw (h, space_at)

slice-cons :
    (text r : List ℕ) (a b c : ℕ)
    → a < b
    → drop a text ≡ c ∷ r
    → (rest : List ℕ) × (slice text a b ≡ c ∷ rest)
slice-cons text r a b c h e = by_length (b - a) (omega arith)
  where
    by_length : (n : ℕ) → 0 < n → (rest : List ℕ) × (take n (drop a text) ≡ c ∷ rest)
    by_length zero p = absurd (omega arith)
    by_length (suc n) p = (take n r, ap (take (suc n)) e)

pub strip-slice :
    (text : List ℕ) (a b : ℕ)
    → a < b
    → b ≤ length text
    → space_at text a ≡ false
    → is_empty (strip (slice text a b)) ≡ false
strip-slice text a b h k s =
    let (c, found) = get_elem?-some text a (omega arith) in
    let (r, dropped) = drop-cons text a c found in
    let (rest, sliced) = slice-cons text r a b c h dropped in
    subst (λ t. is_empty (strip t) ≡ false) (sym sliced)
      (strip-cons c rest (sym (space_at-lem text a c found) ∙ s))
