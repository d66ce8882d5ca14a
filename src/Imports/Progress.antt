-- ===== src/Imports/Progress.antt =====
-- app/matter_imports.py: the totals of a job, the whole of `process_batch`, and `mark_failed`.
use prv_application.Prelude.{
  Bool, List, Option, Result, [], err, if◌then◌else◌, length, none, ok, select, some, take, ℕ, ◌&&◌,
  ◌+◌, ◌==◌, ◌>>=◌, ◌∷◌,
}
use prv_application.Imports.{
  BatchItem, BatchResult, ImportBatch, ImportError, ImportJob, ImportTables, closed, counts, failed,
  get_batch, get_job, import_items, is_canceled, opened_batch, put_batch, required_job, result_of,
}

abbrev pub is_completed_of : ℕ → ImportBatch → Bool
is_completed_of job_id b = (b.job_id == job_id) && b.is_completed

-- `coalesce(sum(column), 0)`
unfoldable pub total : (ImportBatch → ℕ) → List ImportBatch → ℕ
total column [] = 0
total column (b ∷ bs) = column b + total column bs

unfoldable pub put_job : ImportJob → List ImportJob → List ImportJob
put_job j [] = []
put_job j (k ∷ ks) = let rest = put_job j ks in if k.id == j.id then j ∷ rest else k ∷ rest

abbrev pub with_totals : ImportJob → List ImportBatch → ImportJob
with_totals j bs = record j {
  processed_count = total (λ b. b.item_count) bs;
  added_count = total (λ b. b.added_count) bs;
  duplicate_count = total (λ b. b.duplicate_count) bs;
  failed_count = total (λ b. b.failed_count) bs;
}

unfoldable pub refresh_job : ImportTables → Option ImportJob → ImportTables
unfolding put_job
refresh_job db none = db
refresh_job db (some j) = if is_canceled j.status then db else record db {
  jobs = put_job (with_totals j (select (is_completed_of j.id) db.batches)) db.jobs;
}

unfoldable pub refresh_progress : ImportTables → ℕ → ImportTables
unfolding refresh_job
refresh_progress db job_id = refresh_job db (get_job db job_id)

abbrev pub refreshed : ℕ → ImportTables × BatchResult → ImportTables × BatchResult
refreshed job_id (db, r) = (refresh_progress db job_id, r)

-- The commit of the batch, and the refresh after it.
abbrev pub refreshed_result :
    ℕ
    → Result ImportError (ImportTables × BatchResult)
    → Result ImportError (ImportTables × BatchResult)
refreshed_result job_id (err e) = err e
refreshed_result job_id (ok r) = ok (refreshed job_id r)

module _ (new_id : ℕ → ℕ) where
  -- The batch when no completed row of it is stored.
  unfoldable pub run_batch :
      ImportTables
      → ImportJob
      → Option ImportBatch
      → ℕ
      → List BatchItem
      → Result ImportError (ImportTables × BatchResult)
  unfolding import_items put_batch
  run_batch db j existing n items =
      let b = opened_batch existing j.id n (length items) in
      if is_canceled j.status
      then ok
          (record db { batches = put_batch (closed b 0 0) db.batches }, counts (length items) 0 0)
      else refreshed_result j.id (import_items new_id db j b items)

  unfoldable pub resume_batch :
      ImportTables
      → ImportJob
      → Option ImportBatch
      → ℕ
      → List BatchItem
      → Result ImportError (ImportTables × BatchResult)
  unfolding run_batch
  resume_batch db j none n items = run_batch db j none n items
  resume_batch db j (some b) n items =
      if b.is_completed then ok (db, result_of b) else run_batch db j (some b) n items

  unfoldable pub process_batch :
      ImportTables → ℕ → ℕ → List BatchItem → Result ImportError (ImportTables × BatchResult)
  unfolding resume_batch
  process_batch db job_id n items = do
    j ← required_job (get_job db job_id)
    resume_batch db j (get_batch db job_id n) n items

-- `now` is the clock's time.
unfoldable pub fail_job : ImportTables → Option ImportJob → List ℕ → ℕ → ImportTables
unfolding put_job
fail_job db none message now = db
fail_job db (some j) message now = if is_canceled j.status then db else record db {
  jobs =
      put_job
        (record j {
          status = failed;
          error_message = some (take 4000 message);
          completed_at = some now;
        })
        db.jobs;
}

unfoldable pub mark_failed : ImportTables → ℕ → List ℕ → ℕ → ImportTables
unfolding fail_job
mark_failed db job_id message now = fail_job db (get_job db job_id) message now
