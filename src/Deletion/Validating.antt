-- ===== src/Deletion/Validating.antt =====
-- The first step of app/workflows/collection_deletion.py, with collection_deletion_blockers of
-- app/collection_deletions.py over the application's tables of documents and import jobs.
use prv_application.Deletion.{
  DeletionError, Tables, get_job, deletion_blocked, job_not_found, required, save_job, validating,
}
use prv_application.Deletion.Jobs.{is_completed}
use prv_application.Imports
use prv_application.Imports.{ImportJob, ImportTables, MatterDocument}
use prv_application.Deletion.Valid.{DeletionValid, ValidAt, save_job-Valid}
use prv_application.Prelude.{
  Bool, Ensures, Ensures-at, Ensures-bind, Option, Result, err, false, if_holds, if◌then◌else◌,
  length, ltb, none, ok, refuse, select, some, true, ℕ, ◌&&◌, ◌==◌, ◌>>=◌, ◌||◌,
}

-- CollectionDeletionBlockers
pub record Blockers : Type 0 where
  pub matter_document_count : ℕ
  pub active_import_count : ℕ

-- `status.in_(("QUEUED", "SNAPSHOTTING", "RUNNING"))`
abbrev pub is_importing : Imports.JobStatus → Bool
is_importing Imports.JobStatus.queued = true
is_importing Imports.JobStatus.snapshotting = true
is_importing Imports.JobStatus.running = true
is_importing _ = false

unfoldable pub collection_deletion_blockers : ImportTables → ℕ → Blockers
collection_deletion_blockers app collection_id = record {
  matter_document_count =
      length
        (select (λ (d : MatterDocument). d.source_collection_id == collection_id) app.documents);
  active_import_count = length (
      select (λ (j : ImportJob). (j.source_collection_id == collection_id) && is_importing j.status)
        app.jobs);
}

-- `blocked`
abbrev pub is_blocked : Blockers → Bool
is_blocked b = ltb 0 b.matter_document_count || ltb 0 b.active_import_count

-- The part of the step that is committed: the collection of a job that is not completed.
unfoldable pub mark_validating : Tables → ℕ → Result DeletionError (Tables × Option ℕ)
unfolding save_job
mark_validating db job_id = do
  j ← required (get_job db job_id) job_not_found
  let done : Result DeletionError (Tables × Option ℕ) = ok (db, none)
  let marked = (do
    saved ← save_job db (record j { status = validating })
    ok (saved, some j.collection_id))
  if is_completed j.status then done else marked

abbrev pub checked_blockers : ImportTables → Option ℕ → Result DeletionError (Unit {0})
checked_blockers app none = ok tt
checked_blockers app (some collection_id) =
    refuse (is_blocked (collection_deletion_blockers app collection_id)) deletion_blocked

-- The tables after the step, and whether it raised.
abbrev pub validated :
    ImportTables
    → Tables
    → Result DeletionError (Tables × Option ℕ)
    → Tables × Result DeletionError (Unit {0})
validated app db (err e) = (db, err e)
validated app db (ok (saved, collection_id)) = (saved, checked_blockers app collection_id)

unfoldable pub validate : ImportTables → Tables → ℕ → Tables × Result DeletionError (Unit {0})
unfolding mark_validating collection_deletion_blockers
validate app db job_id = validated app db (mark_validating db job_id)

pub mark_validating-Valid :
    (db : Tables) (i : ℕ) → DeletionValid db → Ensures ValidAt (mark_validating db i)
unfolding mark_validating
mark_validating-Valid db i v = Ensures-bind ValidAt (required (get_job db i) job_not_found) _ λ j e.
    if_holds (Ensures ValidAt) (is_completed j.status) (ok (db, none)) _ v (
      Ensures-bind ValidAt (save_job db (record j { status = validating })) _ λ saved g.
        Ensures-at DeletionValid (save_job db (record j { status = validating })) g
          (save_job-Valid db (record j { status = validating }) v))
