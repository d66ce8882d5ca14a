-- ===== src/Deletion/Kept.antt =====
-- Every operation on a deletion job keeps what the component keeps at all times.
use prv_application.Prelude.{
  All-select, Ensures, Ensures-at, Ensures-bind, List, Option, [], any_of, ap, false, find_first,
  if_holds, length, none, not, ok, refl, refuse, require, some, subst, sym, take, ℕ, ◌+◌, ◌==◌, ◌∙◌,
  ◌∷◌, ◌≡◌,
}
use prv_application.Deletion.{
  ClientCollection, CollectionStatus, DeletionBlob, DeletionJob, Tables, blobs_remain, completed,
  deleting, failed, get_collection, get_job, job_not_found, not_failed, put_collection, put_job,
  required, required-ok, save_job,
}
use prv_application.Deletion.Jobs.{
  complete_deletion, fail_deletion, fail_job, is_completed, is_failed, is_pending_of, is_untouched,
  prepare_deletion, prepare_rows, prepared, retried, retry_deletion_job, set_collection_status,
}
use prv_application.Deletion.Rows.{
  batch_ids, delete_artifacts_and_schedule_blobs, delete_batch, delete_item_batch, delete_items,
  item_artifact_ids, uses_blob, without_item_rows,
}
use prv_application.Deletion.Batches.{cleared-SameRows}
use prv_application.Deletion.Needed.{delete_batch-BlobsSafe}
use prv_application.Deletion.Active.{JobsValid, inactive-JobsValid, same-JobsValid}
use prv_application.Deletion.Valid.{
  DeletionValid, ValidAt, found_job, same_blobs-Valid, save_job-Valid,
}

set_collection_status-Valid :
    (db : Tables) (o : Option ClientCollection) (s : CollectionStatus)
    → DeletionValid db
    → DeletionValid (set_collection_status o s db)
set_collection_status-Valid db none s v = v
set_collection_status-Valid db (some c) s v =
    same_blobs-Valid db db.jobs (put_collection (record c { status = s }) db.collections) v.blobs
      v.jobs

pub retry_deletion_job-Valid :
    (db : Tables) (i : ℕ) → DeletionValid db → Ensures ValidAt (retry_deletion_job db i)
unfolding retry_deletion_job
retry_deletion_job-Valid db i v =
    Ensures-bind ValidAt (required (get_job db i) job_not_found) _ λ j e.
      Ensures-bind ValidAt (require (is_failed j.status) not_failed) _ λ t f.
        let marked = set_collection_status (get_collection db j.collection_id) deleting db in
        Ensures-bind ValidAt (save_job marked (retried j)) _ λ saved g.
          Ensures-at DeletionValid (save_job marked (retried j)) g (
            save_job-Valid marked (retried j)
              (set_collection_status-Valid db (get_collection db j.collection_id) deleting v))

prepare_rows-Valid :
    (db : Tables) (j : DeletionJob) (now : ℕ)
    → DeletionValid db
    → Ensures ValidAt (prepare_rows db j now)
unfolding prepare_rows
prepare_rows-Valid db j now v = Ensures-bind ValidAt (save_job db (prepared j now)) _ λ saved g.
    let w =
      Ensures-at DeletionValid (save_job db (prepared j now)) g
        (save_job-Valid db (prepared j now) v) in
    record {
      blobs = record { stored = w.blobs.stored; unneeded = w.blobs.unneeded };
      jobs = w.jobs;
    }

pub prepare_deletion-Valid :
    (db : Tables) (i now : ℕ) → DeletionValid db → Ensures ValidAt (prepare_deletion db i now)
unfolding prepare_deletion
prepare_deletion-Valid db i now v =
    Ensures-bind ValidAt (required (get_job db i) job_not_found) _ λ j e.
      if_holds (Ensures ValidAt) (is_completed j.status) (ok (db, j)) (prepare_rows db j now) v
        (prepare_rows-Valid db j now v)

pub complete_deletion-Valid :
    (db : Tables) (i now : ℕ) → DeletionValid db → Ensures ValidAt (complete_deletion db i now)
unfolding complete_deletion
complete_deletion-Valid db i now v =
    Ensures-bind ValidAt (required (get_job db i) job_not_found) _ λ j e.
      Ensures-bind ValidAt (refuse (any_of (is_pending_of j.id) db.deletion_blobs) blobs_remain) _
        λ t f. record {
          blobs = record {
            stored = v.blobs.stored;
            unneeded =
                All-select
                  (λ (r : DeletionBlob). any_of (uses_blob r.content_blob_id) db.artifacts ≡ false)
                  (λ (r : DeletionBlob). not (r.deletion_job_id == j.id)) db.deletion_blobs
                  v.blobs.unneeded;
          };
          jobs =
              inactive-JobsValid
                (record j { status = completed; completed_at = some now; error_message = none })
                db.jobs refl v.jobs;
        }

failed-Valid :
    (db : Tables) (o : Option DeletionJob) (message : List ℕ) (now : ℕ)
    → DeletionValid db
    → DeletionValid (fail_job db o message now).0
unfolding fail_job
failed-Valid db none message now v = v
failed-Valid db (some j) message now v =
    let k = record j {
      status = failed;
      error_message = some (take 4000 message);
      completed_at = some now;
    } in
    let saved = record db { jobs = put_job k db.jobs } in
    let w =
      same_blobs-Valid db (put_job k db.jobs) db.collections v.blobs
        (inactive-JobsValid k db.jobs refl v.jobs) in
    if_holds DeletionValid (is_untouched j)
      (set_collection_status (get_collection db j.collection_id) j.previous_collection_status saved)
      saved
      (set_collection_status-Valid saved (get_collection db j.collection_id)
        j.previous_collection_status w)
      w

pub fail_deletion-Valid :
    (db : Tables) (i : ℕ) (message : List ℕ) (now : ℕ)
    → DeletionValid db
    → DeletionValid (fail_deletion db i message now).0
unfolding fail_deletion
fail_deletion-Valid db i message now v = failed-Valid db (get_job db i) message now v

module _ (new_id : ℕ → ℕ) where
  delete_batch-jobs :
      (db : Tables) (i : ℕ) (j : DeletionJob) (is : List ℕ)
      → get_job db i ≡ some j
      → JobsValid db.jobs
      → JobsValid (delete_batch new_id db j is).0.jobs
  unfolding delete_batch delete_items
  delete_batch-jobs db i j [] h v = v
  delete_batch-jobs db i j (k ∷ ks) h v =
      let ids = item_artifact_ids (k ∷ ks) db in
      let cleared =
        delete_artifacts_and_schedule_blobs new_id j.id ids
          (without_item_rows j.collection_id (k ∷ ks) db) in
      let same = (cleared-SameRows new_id db j (k ∷ ks)).1 in
      let here = found_job db i h in
      same-JobsValid
        (record j {
          blob_count = j.blob_count + cleared.1;
          deleted_item_count = j.deleted_item_count + length (k ∷ ks);
          deleted_artifact_count = j.deleted_artifact_count + length ids;
        })
        cleared.0.jobs
        (ap (find_first (λ (x : DeletionJob). x.id == j.id)) same
          ∙ (subst (λ (n : ℕ). get_job db n ≡ some j) (sym here) h))
        refl refl (subst JobsValid (sym same) v)

  pub delete_item_batch-Valid :
      (db : Tables) (i size : ℕ)
      → DeletionValid db
      → Ensures ValidAt (delete_item_batch new_id db i size)
  unfolding delete_item_batch
  delete_item_batch-Valid db i size v =
      Ensures-bind ValidAt (required (get_job db i) job_not_found) _ λ j e. record {
        blobs = delete_batch-BlobsSafe new_id db j (batch_ids db j.collection_id size) v.blobs;
        jobs =
            delete_batch-jobs db i j (batch_ids db j.collection_id size)
              (required-ok _ job_not_found e) v.jobs;
      }
