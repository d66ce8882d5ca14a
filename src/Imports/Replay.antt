-- ===== src/Imports/Replay.antt =====
-- What a batch of an import does, and that its repetition changes nothing.
use prv_application.Prelude.{
  ==→≡, >>=-eq-ok, Bool, Bool-cases, List, Result, [], all_of, any_of, any_of-append, ap, arith,
  distinct, elem, err, false, find_first, inl, inr, length, length-map, length-select, map, none,
  not, ok, ok-injective, refl, require, select, some, subst, sym, true, ℕ, ◌++◌, ◌+◌, ◌-◌, ◌==◌,
  ◌∙◌, ◌∷◌, ◌≡◌, ◌≤◌,
}
use prv_application.Imports.{
  BatchItem, BatchResult, ImportBatch, ImportError, ImportJob, ImportTables, MatterDocument, closed,
  counts, distinct_links, get_batch, get_job, has_document, import_items, is_batch, is_canceled,
  is_document_of, is_known, item_ids, new_document, new_items, new_links, opened_batch, put_batch,
  result_of, stored_items, unique_violation, unknown_custodians,
}
use prv_application.Imports.Progress.{
  is_completed_of, process_batch, put_job, refresh_job, refresh_progress, refreshed,
  refreshed_result, resume_batch, run_batch, total, with_totals,
}

find_first-put_batch :
    (b : ImportBatch) (bs : List ImportBatch)
    → find_first (is_batch b.job_id b.batch_number) (put_batch b bs) ≡ some b
unfolding put_batch
find_first-put_batch b [] = ground arith
find_first-put_batch b (c ∷ cs) = elim (Bool-cases (is_batch b.job_id b.batch_number c)) [
  | inl e ↦ rw e (ground arith)
  | inr e ↦ rw (e, e) (find_first-put_batch b cs)
]

put_job-found :
    (i : ℕ) (k : ImportJob) (js : List ImportJob) {j : ImportJob}
    → k.id ≡ i
    → find_first (λ (x : ImportJob). x.id == i) js ≡ some j
    → find_first (λ (x : ImportJob). x.id == i) (put_job k js) ≡ some k
unfolding put_job
put_job-found i k [] e h = cc
put_job-found i k (x ∷ xs) e h = elim (Bool-cases (x.id == k.id)) [
  | inl same ↦ rw same (ground (arith, e))
  | inr other ↦
      let here : (x.id == i) ≡ false = ground (arith, e, other) in
      rw (other, here) (put_job-found i k xs e (rw here at h))
]

-- The refresh of a stored job that is not canceled stores its totals, and changes no other table.
pub record Refreshed (db : ImportTables) (j : ImportJob) (after : ImportTables) : Type 0 where
  pub batches : after.batches ≡ db.batches
  pub documents : after.documents ≡ db.documents
  pub links : after.links ≡ db.links
  pub job : get_job after j.id ≡ some (with_totals j (select (is_completed_of j.id) db.batches))

refresh_progress-Refreshed :
    (db : ImportTables) (j : ImportJob)
    → get_job db j.id ≡ some j
    → is_canceled j.status ≡ false
    → Refreshed db j (refresh_progress db j.id)
unfolding refresh_progress refresh_job
refresh_progress-Refreshed db j h live =
    rw (h, live)
      (record {
        batches = refl;
        documents = refl;
        links = refl;
        job =
            put_job-found j.id (with_totals j (select (is_completed_of j.id) db.batches)) db.jobs
              refl h;
      })

elem-select_kept :
    (p : ℕ → Bool) (i : ℕ) (is : List ℕ)
    → elem i is ≡ true
    → p i ≡ true
    → elem i (select p is) ≡ true
elem-select_kept p i [] h t = cc
elem-select_kept p i (k ∷ ks) h t = elim (Bool-cases (k == i)) [
  | inl e ↦
      let kept : p k ≡ true = subst (λ (n : ℕ). p n ≡ true) (sym (==→≡ k i e)) t in
      rw kept (ground (arith, e))
  | inr e ↦ ground (arith, e, elem-select_kept p i ks (ground arith) t)
]

length-new_items :
    (db : ImportTables) (j : ImportJob) (is : List ℕ) → length (new_items db j is) ≤ length is
unfolding new_items
length-new_items db j is = length-select (λ i. not (has_document db j.matter_id i)) is

module _ (new_id : ℕ → ℕ) where
  any_of-new_document :
      (j : ImportJob) (i : ℕ) (is : List ℕ)
      → elem i is ≡ true
      → any_of (is_document_of j.matter_id i) (map (new_document new_id j) is) ≡ true
  any_of-new_document j i [] h = cc
  any_of-new_document j i (k ∷ ks) h = ground (arith, any_of-new_document j i ks)

  -- Every item of the ids has a document among the old ones and those added for the new items.
  documents_complete :
      (db : ImportTables) (j : ImportJob) (i : ℕ) (ids : List ℕ)
      → elem i ids ≡ true
      → any_of
          (is_document_of j.matter_id i)
          (db.documents ++ map (new_document new_id j) (new_items db j ids))
        ≡ true
  unfolding new_items
  documents_complete db j i ids h = elim (Bool-cases (has_document db j.matter_id i)) [
    | inl e ↦
        any_of-append (is_document_of j.matter_id i) db.documents
          (map (new_document new_id j) (new_items db j ids))
        ∙ ground (arith, e)
    | inr e ↦
        let fresh = any_of-new_document j i (new_items db j ids) (
          elem-select_kept (λ k. not (has_document db j.matter_id k)) i ids h
            (ground (arith, e))) in
        any_of-append (is_document_of j.matter_id i) db.documents
          (map (new_document new_id j) (new_items db j ids))
        ∙ ground (arith, fresh)
  ]

  -- The sums of the counts of a job's completed batches: of items, added, duplicate and failed ones.
  pub data SumsTo (job_id : ℕ)
      : List ImportBatch → (items added duplicate failed : ℕ) → Type 0 where
    no_batch : SumsTo job_id [] 0 0 0 0
    counted_batch :
        (b : ImportBatch) (bs : List ImportBatch) (items added duplicate failed : ℕ)
        → b.job_id ≡ job_id
        → b.is_completed ≡ true
        → SumsTo job_id bs items added duplicate failed
        → SumsTo job_id
            (b ∷ bs)
            (b.item_count + items)
            (b.added_count + added)
            (b.duplicate_count + duplicate)
            (b.failed_count + failed)
    left_out :
        (b : ImportBatch) (bs : List ImportBatch) (items added duplicate failed : ℕ)
        → (b.job_id ≡ job_id → b.is_completed ≡ false)
        → SumsTo job_id bs items added duplicate failed
        → SumsTo job_id (b ∷ bs) items added duplicate failed

  totals-SumsTo :
      (j : ImportJob) (bs : List ImportBatch)
      → let k = with_totals j (select (is_completed_of j.id) bs) in
        SumsTo j.id bs k.processed_count k.added_count k.duplicate_count k.failed_count
  unfolding total
  totals-SumsTo j [] = no_batch
  totals-SumsTo j (b ∷ bs) = elim (Bool-cases (is_completed_of j.id b)) [
    | inl e ↦ rw e (
        counted_batch b bs _ _ _ _ (==→≡ b.job_id j.id (ground arith)) (ground arith)
          (totals-SumsTo j bs))
    | inr e ↦ rw e (left_out b bs _ _ _ _ (λ same. ground (arith, e, same)) (totals-SumsTo j bs))
  ]

  -- A job with these sums as totals, and the id, matter and status of the one before.
  pub record Totals (j : ImportJob) (bs : List ImportBatch) (k : ImportJob) : Type 0 where
    pub sums : SumsTo j.id bs k.processed_count k.added_count k.duplicate_count k.failed_count
    pub same_job : (k.id ≡ j.id) × (k.matter_id ≡ j.matter_id) × (k.status ≡ j.status)

  -- What is stored and returned for a batch without a row of its own.
  pub record Imported (db : ImportTables) (j : ImportJob) (n : ℕ) (items : List BatchItem)
      (after : ImportTables) (r : BatchResult) : Type 0 where
    pub counted : r.item_count ≡ length items
    pub sum : r.added_count + r.duplicate_count ≡ r.item_count
    pub documents :
        (i : ℕ) → elem i (item_ids items) ≡ true → has_document after j.matter_id i ≡ true
    pub batch :
        (b : ImportBatch) × (get_batch after j.id n ≡ some b)
        × (b.is_completed ≡ true)
        × (result_of b ≡ r)
    pub job : (k : ImportJob) × (get_job after j.id ≡ some k) × Totals j after.batches k

  refreshed_result-ok :
      (i : ℕ) (m : Result ImportError (ImportTables × BatchResult)) {x : ImportTables × BatchResult}
      → refreshed_result i m ≡ ok x
      → (y : ImportTables × BatchResult) × (m ≡ ok y) × (refreshed i y ≡ x)
  refreshed_result-ok i (ok y) h = (y, refl, ok-injective h)
  refreshed_result-ok i (err e) h = cc

  import_items-ok :
      (db : ImportTables) (j : ImportJob) (b : ImportBatch) (items : List BatchItem)
      {x : ImportTables × BatchResult}
      → import_items new_id db j b items ≡ ok x
      → stored_items new_id db j b
          (item_ids items)
          (new_items db j (item_ids items))
          (new_links new_id db j items)
        ≡ x
  unfolding import_items
  import_items-ok db j b items h =
      let ids = item_ids items in
      let (t, unique, h1) =
        >>=-eq-ok (require (distinct (new_items db j ids)) unique_violation) _ h in
      let (u, known, h2) =
        >>=-eq-ok
          (require (all_of (λ (i : BatchItem). all_of (is_known db j) i.custodians) items)
            unknown_custodians)
          _ h1 in
      let (v, keys, h3) =
        >>=-eq-ok (require (distinct_links (new_links new_id db j items)) unique_violation) _ h2 in
      ok-injective h3

  stored-Imported :
      (db : ImportTables) (j : ImportJob) (n : ℕ) (items : List BatchItem)
      → get_job db j.id ≡ some j
      → is_canceled j.status ≡ false
      → let b = opened_batch none j.id n (length items) in
        let ids = item_ids items in
        let y = stored_items new_id db j b ids (new_items db j ids) (new_links new_id db j items) in
        Imported db j n items (refresh_progress y.0 j.id) y.1
  stored-Imported db j n items h live =
      let ids = item_ids items in
      let added = new_items db j ids in
      let b = opened_batch none j.id n (length items) in
      let y = stored_items new_id db j b ids added (new_links new_id db j items) in
      let done = closed b (length added) (length ids - length added) in
      let f = refresh_progress-Refreshed y.0 j h live in
      let same = length-map (λ (i : BatchItem). i.item_id) items in
      record {
        counted = same;
        sum = omega (arith, length-new_items db j ids);
        documents = λ i m.
            subst (λ (ds : List MatterDocument). any_of (is_document_of j.matter_id i) ds ≡ true)
              (sym f.documents) (documents_complete db j i ids m);
        batch = (
          done,
          ap (find_first (is_batch j.id n)) f.batches ∙ find_first-put_batch done db.batches,
          refl,
          ap (λ (k : ℕ). counts k (length added) (length ids - length added)) (sym same),
        );
        job = (
          with_totals j (select (is_completed_of j.id) y.0.batches),
          f.job,
          record {
            sums =
                subst
                  (λ (bs : List ImportBatch).
                    let k = with_totals j (select (is_completed_of j.id) y.0.batches) in
                    SumsTo j.id bs k.processed_count k.added_count k.duplicate_count k.failed_count)
                  (sym f.batches) (totals-SumsTo j y.0.batches);
            same_job = (refl, refl, refl);
          },
        );
      }

  -- For a stored job that is not canceled and a batch without a row, what a successful call returns
  -- counts every item once as added or as a duplicate, every item has a document in the matter,
  -- the batch is stored as completed with these counts, and each of the job's totals is the sum of
  -- its own column over the job's completed batches.
  pub process_batch-Imported :
      (db : ImportTables) (j : ImportJob) (n : ℕ) (items : List BatchItem) (after : ImportTables)
      (r : BatchResult)
      → get_job db j.id ≡ some j
      → is_canceled j.status ≡ false
      → get_batch db j.id n ≡ none
      → process_batch new_id db j.id n items ≡ ok (after, r)
      → Imported db j n items after r
  unfolding process_batch resume_batch run_batch
  process_batch-Imported db j n items after r h live new ran =
      let b = opened_batch none j.id n (length items) in
      let (y, imported, same) =
        refreshed_result-ok j.id (import_items new_id db j b items) (rw (h, new, live) at ran) in
      subst (λ x. Imported db j n items x.0 x.1)
        (ap (refreshed j.id) (import_items-ok db j b items imported) ∙ same)
        (stored-Imported db j n items h live)

  -- If a call succeeded for a batch without a row, of a stored job that is not canceled, then the
  -- next call for the same batch, whatever its items, gives the same result and changes nothing.
  pub process_batch-again :
      (db : ImportTables) (j : ImportJob) (n : ℕ) (items again : List BatchItem)
      (after : ImportTables) (r : BatchResult)
      → get_job db j.id ≡ some j
      → is_canceled j.status ≡ false
      → get_batch db j.id n ≡ none
      → process_batch new_id db j.id n items ≡ ok (after, r)
      → process_batch new_id after j.id n again ≡ ok (after, r)
  process_batch-again db j n items again after r h live new ran =
      let imported = process_batch-Imported db j n items after r h live new ran in
      let (b, found, complete, result) = imported.batch in
      let (k, stored, totals) = imported.job in
      unfold process_batch in
      unfold resume_batch in rw (stored, found, complete) (ap (λ x. ok (after, x)) result)
