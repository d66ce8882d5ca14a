-- ===== src/Reviews/Comparing.antt =====
-- compare_review_batch_runs of app/routers/review_batches.py: two runs of a batch, field by field.
use prv_application.Metadata.Types.{ValueColumns}
use prv_application.Reviews.{BatchDocument, ReviewError, ReviewTables, RunValue, is_member_of}
use prv_application.Reviews.Runs.{admitted_matter, batch_run, matter_batch}
use prv_application.Reviews.Coding.{value_of}
use prv_application.Prelude.{
  >>=-eq-ok, Bool, Bool-cases, List, Option, Result, [], ap, arith, codes_eq, codes_lt, elem, false,
  if◌then◌else◌, inl, inr, ltb, map, none, ok, ok-injective, refl, select, select-ext, some,
  sort_by, suc, true, ℕ, ◌&&◌, ◌+◌, ◌==◌, ◌>>=◌, ◌||◌, ◌∙◌, ◌∷◌, ◌≡◌,
}

-- One field of ReviewBatchComparisonRead; `agreement` is the quotient of its two numbers.
pub record FieldComparison : Type 0 where
  pub definition_id : ℕ
  pub compared_count : ℕ
  pub match_count : ℕ
  pub mismatch_count : ℕ
  pub missing_left_count : ℕ
  pub missing_right_count : ℕ
  pub agreement : Option (ℕ × ℕ)

pub record Tally : Type 0 where
  pub matched : ℕ
  pub mismatched : ℕ
  pub missing_left : ℕ
  pub missing_right : ℕ

-- `left == right` on lists of texts.
unfoldable pub texts_eq : List (List ℕ) → List (List ℕ) → Bool
unfolding codes_eq
texts_eq [] [] = true
texts_eq [] (t ∷ ts) = false
texts_eq (s ∷ ss) [] = false
texts_eq (s ∷ ss) (t ∷ ts) = codes_eq s t && texts_eq ss ts

-- The branches on the values of one document.
unfoldable pub tally_document : List (List ℕ) → List (List ℕ) → Tally → Tally
unfolding texts_eq
tally_document [] [] t = t
tally_document [] (r ∷ rs) t = record t { missing_left = suc t.missing_left }
tally_document (l ∷ ls) [] t = record t { missing_right = suc t.missing_right }
tally_document (l ∷ ls) (r ∷ rs) t =
    if texts_eq (l ∷ ls) (r ∷ rs)
    then record t { matched = suc t.matched }
    else record t { mismatched = suc t.mismatched }

abbrev pub no_tally : Tally
no_tally = record { matched = 0; mismatched = 0; missing_left = 0; missing_right = 0 }

-- The set of the numbers, as a list.
unfoldable pub collapse : List ℕ → List ℕ
collapse [] = []
collapse (i ∷ is) = let rest = collapse is in if elem i is then rest else i ∷ rest

-- `canonical` is the JSON text of the value that the columns hold.
module _ (canonical : ValueColumns → List ℕ) where
  -- `sorted(values.get((run_id, document_id, field_id), []))`
  unfoldable pub texts_of : List RunValue → (run_id document_id definition_id : ℕ) → List (List ℕ)
  unfolding sort_by codes_lt
  texts_of rows run_id document_id definition_id = sort_by codes_lt (
      map (λ (v : RunValue). canonical v.columns)
        (select (value_of run_id document_id definition_id) rows))

  unfoldable pub tally_field :
      List RunValue → (left_id right_id definition_id : ℕ) → List ℕ → Tally → Tally
  unfolding tally_document texts_of
  tally_field rows left_id right_id definition_id [] t = t
  tally_field rows left_id right_id definition_id (d ∷ ds) t =
      tally_field rows left_id right_id definition_id ds (
        tally_document (texts_of rows left_id d definition_id)
          (texts_of rows right_id d definition_id) t)

  unfoldable pub field_comparison : ℕ → Tally → FieldComparison
  field_comparison definition_id t =
      let compared = t.matched + t.mismatched in
      record {
        definition_id = definition_id;
        compared_count = compared;
        match_count = t.matched;
        mismatch_count = t.mismatched;
        missing_left_count = t.missing_left;
        missing_right_count = t.missing_right;
        agreement = if compared == 0 then none else some (t.matched, compared);
      }

  -- `sorted({key[2] for key in values})`
  unfoldable pub field_ids : List RunValue → List ℕ
  unfolding sort_by collapse
  field_ids rows = sort_by ltb (collapse (map (λ (v : RunValue). v.definition_id) rows))

  unfoldable pub compare_rows :
      List RunValue → (left_id right_id : ℕ) → List ℕ → List FieldComparison
  unfolding field_ids tally_field field_comparison
  compare_rows rows left_id right_id documents =
      map (λ f. field_comparison f (tally_field rows left_id right_id f documents no_tally))
        (field_ids rows)

  unfoldable pub compare_review_batch_runs :
      (may_admin : ℕ → ℕ → Bool)
      → ReviewTables
      → (matter_id batch_id left_id right_id user : ℕ) → Result ReviewError (List FieldComparison)
  unfolding admitted_matter matter_batch batch_run compare_rows
  compare_review_batch_runs may_admin db matter_id batch_id left_id right_id user = do
    matter ← admitted_matter may_admin db user matter_id
    b ← matter_batch db matter_id batch_id
    left ← batch_run db b.id left_id
    right ← batch_run db b.id right_id
    let rows = select (λ (v : RunValue). (v.run_id == left_id) || (v.run_id == right_id)) db.values
    let documents =
        map (λ (m : BatchDocument). m.matter_document_id) (select (is_member_of b.id) db.members)
    ok (compare_rows rows left_id right_id documents)

abbrev pub swapped : FieldComparison → FieldComparison
swapped f = record f {
  missing_left_count = f.missing_right_count;
  missing_right_count = f.missing_left_count;
}

abbrev turned : Tally → Tally
turned t = record t { missing_left = t.missing_right; missing_right = t.missing_left }

codes_eq_comm : (a b : List ℕ) → codes_eq a b ≡ codes_eq b a
unfolding codes_eq
codes_eq_comm [] [] = refl
codes_eq_comm [] (y ∷ ys) = refl
codes_eq_comm (x ∷ xs) [] = refl
codes_eq_comm (x ∷ xs) (y ∷ ys) = ground (arith, codes_eq_comm xs ys)

texts_eq_comm : (a b : List (List ℕ)) → texts_eq a b ≡ texts_eq b a
unfolding texts_eq
texts_eq_comm [] [] = refl
texts_eq_comm [] (y ∷ ys) = refl
texts_eq_comm (x ∷ xs) [] = refl
texts_eq_comm (x ∷ xs) (y ∷ ys) = ground (arith, codes_eq_comm x y, texts_eq_comm xs ys)

tally_document-turned :
    (l r : List (List ℕ)) (t : Tally)
    → tally_document r l (turned t) ≡ turned (tally_document l r t)
unfolding tally_document
tally_document-turned [] [] t = refl
tally_document-turned [] (y ∷ ys) t = refl
tally_document-turned (x ∷ xs) [] t = refl
tally_document-turned (x ∷ xs) (y ∷ ys) t = elim (Bool-cases (texts_eq (x ∷ xs) (y ∷ ys))) [
  | inl e ↦ rw e (rw (texts_eq_comm (y ∷ ys) (x ∷ xs) ∙ e) refl)
  | inr e ↦ rw e (rw (texts_eq_comm (y ∷ ys) (x ∷ xs) ∙ e) refl)
]

module _ (canonical : ValueColumns → List ℕ) where
  tally_field-turned :
      (rows : List RunValue) (l r f : ℕ) (ds : List ℕ) (t : Tally)
      → tally_field canonical rows r l f ds (turned t)
        ≡ turned (tally_field canonical rows l r f ds t)
  unfolding tally_field
  tally_field-turned rows l r f [] t = refl
  tally_field-turned rows l r f (d ∷ ds) t =
      ap (tally_field canonical rows r l f ds)
        (tally_document-turned (texts_of canonical rows l d f) (texts_of canonical rows r d f) t)
      ∙ tally_field-turned rows l r f ds
          (tally_document (texts_of canonical rows l d f) (texts_of canonical rows r d f) t)

  field_comparison-turned :
      (f : ℕ) (t : Tally)
      → field_comparison canonical f (turned t) ≡ swapped (field_comparison canonical f t)
  unfolding field_comparison
  field_comparison-turned f t = refl

  compare_fields :
      (rows : List RunValue) (l r : ℕ) (ds fs : List ℕ)
      → map (λ f. field_comparison canonical f (tally_field canonical rows r l f ds no_tally)) fs
        ≡ map swapped (
            map
              (λ f. field_comparison canonical f (tally_field canonical rows l r f ds no_tally))
              fs)
  compare_fields rows l r ds [] = refl
  compare_fields rows l r ds (f ∷ fs) =
      let here =
        ap (field_comparison canonical f) (tally_field-turned rows l r f ds no_tally)
        ∙ field_comparison-turned f (tally_field canonical rows l r f ds no_tally) in
      cc (here, compare_fields rows l r ds fs)

  -- If two runs can be compared, so they can the other way round, with the same counts of compared,
  -- matching and differing documents and the same agreement in every field, and the documents that
  -- lack values of the left run and of the right run exchanged.
  pub compare_review_batch_runs-swapped :
      (may_admin : ℕ → ℕ → Bool) (db : ReviewTables) (matter_id batch_id left_id right_id user : ℕ)
      (fields : List FieldComparison)
      → compare_review_batch_runs canonical may_admin db matter_id batch_id left_id right_id user
        ≡ ok fields
      → compare_review_batch_runs canonical may_admin db matter_id batch_id right_id left_id user
        ≡ ok (map swapped fields)
  unfolding compare_review_batch_runs compare_rows
  compare_review_batch_runs-swapped may_admin db matter_id batch_id left_id right_id user fields h =
      let (matter, e1, h1) = >>=-eq-ok (admitted_matter may_admin db user matter_id) _ h in
      let (b, e2, h2) = >>=-eq-ok (matter_batch db matter_id batch_id) _ h1 in
      let (left, e3, h3) = >>=-eq-ok (batch_run db b.id left_id) _ h2 in
      let (right, e4, h4) = >>=-eq-ok (batch_run db b.id right_id) _ h3 in
      let documents =
        map (λ (m : BatchDocument). m.matter_document_id) (select (is_member_of b.id) db.members) in
      let rows =
        select (λ (v : RunValue). (v.run_id == left_id) || (v.run_id == right_id)) db.values in
      let same_rows : select (λ (v : RunValue). (v.run_id == right_id) || (v.run_id == left_id))
            db.values
          ≡ rows =
        select-ext _ _ db.values (λ v. ground arith) in
      rw e1 (
        rw e2 (
          rw e4 (
            rw e3 (
              ap (λ (l : List RunValue). ok (compare_rows canonical l right_id left_id documents))
                same_rows
              ∙ ap ok (
                  compare_fields rows left_id right_id documents (field_ids canonical rows)
                  ∙ ap (map swapped) (ok-injective h4))))))
