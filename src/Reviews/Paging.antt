-- ===== src/Reviews/Paging.antt =====
-- The loop of _search_document_ids in app/review_batches.py, which reads the hits of a search page
-- by page with `search_after`, and what it collects.
use prv_application.Prelude.{
  All, All-mono, All-select, All-take, AllPairs, Bool, Bool-cases, List, Option, [], ap, arith,
  drop, false, if◌then◌else◌, inl, inr, length, length-map, length-take, ltb, map, none, refl,
  select, select-All, select-holds, select-select_other, some, subst, suc, sym, take, true, zero, ℕ,
  ◌++◌, ◌<◌, ◌∙◌, ◌∷◌, ◌≡◌, ◌≤◌,
}

pub record Hit : Type 0 where
  pub document_id : ℕ
  pub sort : ℕ

-- `hits[-1]["sort"]`
unfoldable pub last_sort : Hit → List Hit → ℕ
last_sort h [] = h.sort
last_sort h (i ∷ is) = last_sort i is

abbrev pub hit_id : Hit → ℕ
hit_id h = h.document_id

abbrev pub before_ids : List ℕ → Option (List ℕ) → Option (List ℕ)
before_ids ids none = none
before_ids ids (some rest) = some (ids ++ rest)

-- The body of the loop on one page, where `next` runs the rounds after a cursor.
unfoldable pub with_page : ℕ → (ℕ → Option (List ℕ)) → List Hit → Option (List ℕ)
unfolding last_sort
with_page size next [] = some []
with_page size next (h ∷ hs) =
    let ids = map hit_id (h ∷ hs) in
    if ltb (length (h ∷ hs)) size then some ids else before_ids ids (next (last_sort h hs))

-- `search` answers a request with the value of `search_after`, if there is one. `while True` runs
-- on fuel, and `none` means that it ran out.
unfoldable pub collect_pages : (Option ℕ → List Hit) → ℕ → ℕ → Option ℕ → Option (List ℕ)
unfolding with_page
collect_pages search size zero after = none
collect_pages search size (suc fuel) after =
    with_page size (λ c. collect_pages search size fuel (some c)) (search after)

-- Ids in increasing order.
abbrev pub IsIncreasing : List ℕ → Type 0
IsIncreasing = AllPairs (λ i j. i < j)

-- The ids after a cursor.
abbrev pub later_than : Option ℕ → List ℕ → List ℕ
later_than none ids = ids
later_than (some c) ids = select (λ i. ltb c i) ids

-- What the engine promises of a search that is sorted by the document's id.
abbrev pub page_of : List ℕ → ℕ → Option ℕ → List Hit
page_of found size after =
    map (λ i. record { document_id = i; sort = i }) (take size (later_than after found))

abbrev hit_at : ℕ → Hit
hit_at i = record { document_id = i; sort = i }

abbrev last_id : ℕ → List ℕ → ℕ
last_id x [] = x
last_id x (y ∷ ys) = last_id y ys

last_sort-map : (x : ℕ) (xs : List ℕ) → last_sort (hit_at x) (map hit_at xs) ≡ last_id x xs
unfolding last_sort
last_sort-map x [] = refl
last_sort-map x (y ∷ ys) = last_sort-map y ys

map-hit_id : (xs : List ℕ) → map hit_id (map hit_at xs) ≡ xs
map-hit_id [] = refl
map-hit_id (x ∷ xs) = ap (◌∷◌ x) (map-hit_id xs)

last_id-All {κ} : (P : ℕ → Type κ) (x : ℕ) (xs : List ℕ) → P x → All P xs → P (last_id x xs)
last_id-All P x [] h k = h
last_id-All P x (y ∷ ys) h (k, ks) = last_id-All P y ys k ks

take-drop : (k : ℕ) (xs : List ℕ) → take k xs ++ drop k xs ≡ xs
take-drop zero xs = refl
take-drop (suc k) [] = refl
take-drop (suc k) (x ∷ xs) = ap (◌∷◌ x) (take-drop k xs)

take_short : (k : ℕ) (xs : List ℕ) → length (take k xs) < k → take k xs ≡ xs
take_short zero xs h = absurd (omega arith)
take_short (suc k) [] h = refl
take_short (suc k) (x ∷ xs) h = ap (◌∷◌ x) (take_short k xs (omega arith))

length-drop : (k : ℕ) (xs : List ℕ) → length (drop k xs) ≤ length xs
length-drop zero xs = omega arith
length-drop (suc k) [] = omega arith
length-drop (suc k) (x ∷ xs) = omega (arith, length-drop k xs)

-- The ids after the last of a full page are those that remain.
later_than_last :
    (k x : ℕ) (xs : List ℕ)
    → IsIncreasing (x ∷ xs)
    → length (take k xs) ≡ k
    → select (λ i. ltb (last_id x (take k xs)) i) (x ∷ xs) ≡ drop k xs
later_than_last zero x xs (h, hs) e =
    let kept =
      select-All (λ i. ltb x i) xs
        (All-mono (λ i. x < i) (λ i. ltb x i ≡ true) xs (λ i p. ground arith) h) in
    let not_self : ltb x x ≡ false = ground arith in rw not_self kept
later_than_last (suc k) x [] h e = absurd (omega arith)
later_than_last (suc k) x (y ∷ ys) ((p, h), hs) e =
    let last = last_id y (take k ys) in
    let before : x < last =
      last_id-All (λ i. x < i) y (take k ys) p (All-take (λ i. x < i) k ys h) in
    let not_first : ltb last x ≡ false = ground arith in
    rw not_first (later_than_last k y ys hs (omega (arith, e)))

AllPairs-select : (p : ℕ → Bool) (xs : List ℕ) → IsIncreasing xs → IsIncreasing (select p xs)
AllPairs-select p [] h = tt
AllPairs-select p (x ∷ xs) (h, hs) = elim (Bool-cases (p x)) [
  | inl e ↦ rw e (All-select (λ i. x < i) p xs h, AllPairs-select p xs hs)
  | inr e ↦ rw e (AllPairs-select p xs hs)
]

later_than-IsIncreasing :
    (after : Option ℕ) (ids : List ℕ) → IsIncreasing ids → IsIncreasing (later_than after ids)
later_than-IsIncreasing none ids h = h
later_than-IsIncreasing (some c) ids h = AllPairs-select (λ i. ltb c i) ids h

later_than-All : (c : ℕ) (ids : List ℕ) → All (λ i. ltb c i ≡ true) (later_than (some c) ids)
later_than-All c ids = select-holds (λ i. ltb c i) ids

-- A later cursor may be applied to what remains.
later_than_twice :
    (after : Option ℕ) (ids xs : List ℕ) (k x : ℕ)
    → later_than after ids ≡ x ∷ xs
    → select (λ i. ltb (last_id x (take k xs)) i) ids
      ≡ select (λ i. ltb (last_id x (take k xs)) i) (x ∷ xs)
later_than_twice none ids xs k x e = ap (select (λ i. ltb (last_id x (take k xs)) i)) e
later_than_twice (some c) ids xs k x e =
    let last = last_id x (take k xs) in
    let all_later : All (λ i. ltb c i ≡ true) (x ∷ xs) =
      subst (All (λ i. ltb c i ≡ true)) e (later_than-All c ids) in
    let later : ltb c last ≡ true =
      last_id-All (λ i. ltb c i ≡ true) x (take k xs) all_later.0
        (All-take (λ i. ltb c i ≡ true) k xs all_later.1) in
    sym (select-select_other (λ i. ltb last i) (λ i. ltb c i) ids (λ i h. ground arith))
    ∙ ap (select (λ i. ltb last i)) e

module _ (search : Option ℕ → List Hit) (found : List ℕ) (k : ℕ)
    (pages : (after : Option ℕ) → search after ≡ page_of found (suc k) after)
    (increasing : IsIncreasing found) where
  collect_rest :
      (fuel : ℕ) (after : Option ℕ) (left : List ℕ)
      → later_than after found ≡ left
      → length left ≤ fuel
      → collect_pages search (suc k) (suc fuel) after ≡ some left
  unfolding collect_pages with_page
  collect_rest fuel after [] e h =
      ap (with_page (suc k) (λ c. collect_pages search (suc k) fuel (some c)))
        (pages after ∙ ap (λ (l : List ℕ). map hit_at (take (suc k) l)) e)
  collect_rest zero after (x ∷ xs) e h = absurd (omega arith)
  collect_rest (suc fuel) after (x ∷ xs) e h =
      let next = λ (c : ℕ). collect_pages search (suc k) (suc fuel) (some c) in
      let short = ltb (length (hit_at x ∷ map hit_at (take k xs))) (suc k) in
      ap (with_page (suc k) next) (pages after ∙ ap (λ (l : List ℕ). map hit_at (take (suc k) l)) e)
      ∙ elim (Bool-cases short) [
        | inl last_page ↦ rw last_page (
            ap some (
              map-hit_id (x ∷ take k xs)
              ∙ ap (◌∷◌ x)
                  (take_short k xs (ground (arith, length-map hit_at (take k xs), last_page)))))
        | inr full ↦
            let ids = x ∷ map hit_id (map hit_at (take k xs)) in
            let full_page : length (take k xs) ≡ k =
              ground (arith, length-map hit_at (take k xs), length-take k xs, full) in
            let remain =
              later_than_twice after found xs k x e
              ∙ later_than_last k x xs
                  (subst IsIncreasing e (later_than-IsIncreasing after found increasing))
                  full_page in
            rw full (
              ap (λ (c : ℕ). before_ids ids (next c)) (last_sort-map x (take k xs))
              ∙ ap (before_ids ids) (
                  collect_rest fuel (some (last_id x (take k xs))) (drop k xs) remain
                    (omega (arith, length-drop k xs)))
              ∙ ap (λ (l : List ℕ). some (x ∷ (l ++ drop k xs))) (map-hit_id (take k xs))
              ∙ ap (λ (l : List ℕ). some (x ∷ l)) (take-drop k xs))
      ]

  -- Over an engine that answers with the next ids after the cursor, in increasing order and as
  -- many as a page holds, one round more than there are documents is fuel enough, and the loop
  -- collects every document once, in order.
  pub collect_pages-found : collect_pages search (suc k) (suc (length found)) none ≡ some found
  collect_pages-found = collect_rest (length found) none found refl (omega arith)
