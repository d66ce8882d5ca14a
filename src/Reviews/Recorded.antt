-- ===== src/Reviews/Recorded.antt =====
-- The rows of a run's documents under every sequence of calls on runs.
use prv_application.Reviews.{
  DocumentStatus, ReviewBatch, ReviewRun, ReviewTables, RunDocument, put_run,
}
use prv_application.Reviews.Runs.{closed_of, of_run}
use prv_application.Reviews.Coding.{
  ended, is_row_in, marked_rows, record_document, refreshed, row_of,
}
use prv_application.Prelude.{
  ==_refl, ==→≡, All, All-at, Bool, Bool-cases, List, Memᴰ, [], any_of, ap, arith, distinct, elem,
  false, if_holds, if◌then◌else◌, inl, inr, leb, length, map, refl, select, some, subst, sym, true,
  ℕ, ◌==◌, ◌||◌, ◌∙◌, ◌∷◌, ◌≡◌,
}

abbrev pub document_id_of : RunDocument → ℕ
document_id_of d = d.document_id

-- Each run counts its processed documents, has at most one row for each document, and has rows
-- only for documents of its batch.
pub record IsRecorded (db : ReviewTables) : Type 0 where
  pub counted :
      All
        (λ (r : ReviewRun).
          r.processed_document_count ≡ length (select (closed_of r.id) db.run_documents))
        db.runs
  pub one_row : (i : ℕ) → distinct (map document_id_of (select (of_run i) db.run_documents)) ≡ true
  pub known :
      All
        (λ (r : ReviewRun).
          All
            (λ d. any_of (is_row_in r.review_batch_id (document_id_of d)) db.members ≡ true)
            (select (of_run r.id) db.run_documents))
        db.runs

module _ (run_id document_id : ℕ) (status : DocumentStatus) (now : ℕ) where
  abbrev marked : List RunDocument → List RunDocument
  marked ds = marked_rows run_id document_id status now ds

  abbrev new_row : RunDocument
  new_row = record {
    run_id = run_id;
    document_id = document_id;
    status = status;
    started_at = now;
    completed_at = some now;
  }

  marked-select_other :
      (p : RunDocument → Bool) (ds : List RunDocument)
      → ((d : RunDocument) → (d.run_id == run_id) ≡ true → p d ≡ false)
      → select p (marked ds) ≡ select p ds
  unfolding marked_rows
  marked-select_other p [] h = rw (h new_row (==_refl run_id)) refl
  marked-select_other p (d ∷ ds) h = elim (Bool-cases (row_of run_id document_id d)) [
    | inl e ↦ rw e (
        rw (h d (ground arith))
          (rw (h (record d { status = status; completed_at = some now }) (ground arith)) refl))
    | inr e ↦
        rw e (ap (λ (l : List RunDocument). if p d then d ∷ l else l) (marked-select_other p ds h))
  ]

  elem-marked :
      (k : ℕ) (ds : List RunDocument)
      → elem k (map document_id_of (select (of_run run_id) (marked ds)))
        ≡ (elem k (map document_id_of (select (of_run run_id) ds)) || (document_id == k))
  unfolding marked_rows
  elem-marked k [] = ground arith
  elem-marked k (d ∷ ds) = ground (arith, elem-marked k ds)

  distinct-marked :
      (ds : List RunDocument)
      → distinct (map document_id_of (select (of_run run_id) ds)) ≡ true
      → distinct (map document_id_of (select (of_run run_id) (marked ds))) ≡ true
  unfolding marked_rows
  distinct-marked [] h = ground arith
  distinct-marked (d ∷ ds) h = ground (arith, distinct-marked ds, elem-marked d.document_id ds)

  All-marked :
      (P : ℕ → Type 0) (ds : List RunDocument)
      → P document_id
      → All (λ d. P (document_id_of d)) (select (of_run run_id) ds)
      → All (λ d. P (document_id_of d)) (select (of_run run_id) (marked ds))
  unfolding marked_rows
  All-marked P [] p h = rw (==_refl run_id) (p, tt)
  All-marked P (d ∷ ds) p h = elim (Bool-cases (row_of run_id document_id d)) [
    | inl e ↦ let own : (d.run_id == run_id) ≡ true = ground arith in rw e (rw own (rw own at h))
    | inr e ↦ elim (Bool-cases (d.run_id == run_id)) [
      | inl own ↦ let here = rw own at h in rw e (rw own (here.0, All-marked P ds p here.1))
      | inr other ↦ rw e (rw other (All-marked P ds p (rw other at h)))
    ]
  ]

pub All-put_run :
    (P Q : ReviewRun → Type 0) (r : ReviewRun) (ss : List ReviewRun)
    → ((s : ReviewRun) → (s.id == r.id) ≡ false → P s → Q s)
    → Q r
    → All P ss
    → All Q (put_run r ss)
unfolding put_run
All-put_run P Q r [] f q h = tt
All-put_run P Q r (s ∷ ss) f q (p, h) = elim (Bool-cases (s.id == r.id)) [
  | inl e ↦ rw e (q, All-put_run P Q r ss f q h)
  | inr e ↦ rw e (f s e p, All-put_run P Q r ss f q h)
]

module _ (db : ReviewTables) (b : ReviewBatch) (r : ReviewRun) (document_id : ℕ)
    (status : DocumentStatus) (now : ℕ) (m : Memᴰ r db.runs) (of_batch : r.review_batch_id ≡ b.id)
    (member : any_of (is_row_in b.id document_id) db.members ≡ true) where
  abbrev rows : List RunDocument
  rows = marked_rows r.id document_id status now db.run_documents

  other_rows :
      (i : ℕ) (p : RunDocument → Bool)
      → (i == r.id) ≡ false
      → ((d : RunDocument) → (d.run_id == i) ≡ false → p d ≡ false)
      → select p rows ≡ select p db.run_documents
  other_rows i p n h =
      marked-select_other r.id document_id status now p db.run_documents λ d own. h d (ground arith)

  ended-counted :
      (ended b now (refreshed rows r)).processed_document_count
      ≡ length (select (closed_of (ended b now (refreshed rows r)).id) rows)
  unfolding ended refreshed
  ended-counted =
      if_holds
        (λ (s : ReviewRun). s.processed_document_count ≡ length (select (closed_of s.id) rows))
        (leb b.document_count (length (select (closed_of r.id) rows))) _ _ refl refl

  ended-same :
      ((ended b now (refreshed rows r)).id ≡ r.id)
      × ((ended b now (refreshed rows r)).review_batch_id ≡ r.review_batch_id)
  unfolding ended refreshed
  ended-same =
      if_holds (λ (s : ReviewRun). (s.id ≡ r.id) × (s.review_batch_id ≡ r.review_batch_id))
        (leb b.document_count (length (select (closed_of r.id) rows))) _ _ (refl, refl) (refl, refl)

  pub record_document-IsRecorded :
      IsRecorded db → IsRecorded (record_document db b r document_id status now)
  unfolding record_document
  record_document-IsRecorded v =
      let s = ended b now (refreshed rows r) in
      let (same_id, same_batch) = ended-same in
      record {
        counted =
            All-put_run _ _ s db.runs
              (λ t n e.
                e
                ∙ ap length (
                    sym (
                      other_rows t.id (closed_of t.id) (ground (arith, same_id))
                        (λ d x. ground arith))))
              ended-counted v.counted;
        one_row = λ i. elim (Bool-cases (i == r.id)) [
          | inl own ↦
              let same : i ≡ r.id = ==→≡ i r.id own in
              subst (λ (k : ℕ). distinct (map document_id_of (select (of_run k) rows)) ≡ true)
                (sym same)
                (distinct-marked r.id document_id status now db.run_documents (v.one_row r.id))
          | inr other ↦
              ap (λ (l : List RunDocument). distinct (map document_id_of l))
                (other_rows i (of_run i) other (λ d x. x))
              ∙ v.one_row i
        ];
        known =
            All-put_run _ _ s db.runs
              (λ t n e.
                subst
                  (All (λ d.
                    any_of (is_row_in t.review_batch_id (document_id_of d)) db.members ≡ true))
                  (sym (other_rows t.id (of_run t.id) (ground (arith, same_id)) (λ d x. x))) e)
              (rw (same_id, same_batch)
                (All-marked r.id document_id status now
                  (λ k. any_of (is_row_in r.review_batch_id k) db.members ≡ true) db.run_documents
                  (rw of_batch member)
                  (All-at
                    (λ (t : ReviewRun).
                      All
                        (λ d.
                          any_of (is_row_in t.review_batch_id (document_id_of d)) db.members ≡ true)
                        (select (of_run t.id) db.run_documents))
                    db.runs m v.known)))
              v.known;
      }
