-- ===== src/Deletion/Reachable.antt =====
-- The deletion component as a state machine: a step is one successful call, and a state is reachable
-- by any sequence of calls, of one job or of several, in any order.
use prv_application.Prelude.{
  All-map, All-mono, Bool, Ensures, Ensures-at, Ensures-bind, List, Option, String, any_of, elem,
  false, if_holds, length, map, none, ok, refl, refuse, some, subst, sym, true, ℕ, ◌+◌, ◌≡◌,
}
use prv_application.Deletion.{
  ClientCollection, DeletionBlob, DeletionJob, Tables, deleting_blobs, get_collection, get_job,
  items_remain, job_not_found, required, save_job,
}
use prv_application.Deletion.Jobs.{
  complete_deletion, create_deletion_job, fail_deletion, is_item_of, prepare_deletion,
  retry_deletion_job,
}
use prv_application.Deletion.Rows.{
  ItemBatch, collection_artifact_ids, delete_artifacts_and_schedule_blobs, delete_collection_record,
  delete_item_batch, delete_record, recorded, uses_blob, without_collection,
}
use prv_application.Deletion.Blobs.{
  BlobBatch, Storage, blob_id, delete_blob_batch, delete_blobs, mark_batch, mark_deleted,
  pending_batch, remove_batch, remove_objects,
}
use prv_application.Deletion.Needed.{delete_artifacts-BlobsSafe, delete_collection_record-BlobsSafe}
use prv_application.Deletion.Active.{JobsValid, job_key, same-JobsValid}
use prv_application.Deletion.Stable.{delete_artifacts-SameRows}
use prv_application.Deletion.Valid.{
  DeletionValid, ValidAt, create_deletion_job-Valid, found_job, save_job-Valid,
}
use prv_application.Deletion.Validating.{mark_validating, mark_validating-Valid}
use prv_application.Deletion.Kept.{
  complete_deletion-Valid, delete_item_batch-Valid, fail_deletion-Valid, prepare_deletion-Valid,
  retry_deletion_job-Valid,
}

module _ (new_id : ℕ → ℕ) where
  delete_record-jobs :
      (db : Tables) (j : DeletionJob) (o : Option ClientCollection)
      → DeletionValid db
      → Ensures (λ x. JobsValid x.0.jobs) (delete_record new_id db j o)
  unfolding delete_record
  delete_record-jobs db j none v =
      let k = record j { status = deleting_blobs } in
      Ensures-bind (λ x. JobsValid x.0.jobs) (save_job db k) _
        λ saved g. (Ensures-at DeletionValid (save_job db k) g (save_job-Valid db k v)).jobs
  delete_record-jobs db j (some c) v =
      Ensures-bind (λ x. JobsValid x.0.jobs)
        (refuse (any_of (is_item_of c.id) db.items) items_remain) _
        λ t e.
          let ids = collection_artifact_ids c.id db in
          let deleted = delete_artifacts_and_schedule_blobs new_id j.id ids db in
          let rest = without_collection c.id deleted.0 in
          let k = recorded j deleted.1 (length ids) in
          let safe = delete_artifacts-BlobsSafe new_id j.id ids db v.blobs in
          let same = (delete_artifacts-SameRows new_id j.id ids db).1 in
          Ensures-bind (λ x. JobsValid x.0.jobs) (save_job rest k) _
            λ saved g.
              (Ensures-at DeletionValid (save_job rest k) g (
                save_job-Valid rest k (
                  unfold without_collection in
                  record {
                    blobs = record { stored = safe.stored; unneeded = safe.unneeded };
                    jobs = subst JobsValid (sym same) v.jobs;
                  }))).jobs

  delete_collection_record-Valid :
      (db : Tables) (i : ℕ) (r : Tables × ℕ)
      → delete_collection_record new_id db i ≡ ok r
      → DeletionValid db
      → DeletionValid r.0
  delete_collection_record-Valid db i r h v = record {
    blobs = delete_collection_record-BlobsSafe new_id db i r v.blobs h;
    jobs =
        Ensures-at (λ x. JobsValid x.0.jobs) (delete_collection_record new_id db i) h
          (unfold delete_collection_record in
            Ensures-bind (λ x. JobsValid x.0.jobs) (required (get_job db i) job_not_found) _
              λ j e. delete_record-jobs db j (get_collection db j.collection_id) v);
  }

module _ (refuses : String → String → Bool) where
  mark_batch-Valid :
      (db : Tables) (j : DeletionJob) (bs : List DeletionBlob)
      → get_job db j.id ≡ some j
      → DeletionValid db
      → DeletionValid (mark_batch refuses db j bs).0
  unfolding mark_batch
  mark_batch-Valid db j bs h v = record {
    blobs = record {
      stored = v.blobs.stored;
      unneeded =
          All-map (λ (r : DeletionBlob). any_of (uses_blob r.content_blob_id) db.artifacts ≡ false)
            (mark_deleted (map blob_id bs)) db.deletion_blobs
            (All-mono
              (λ (r : DeletionBlob). any_of (uses_blob r.content_blob_id) db.artifacts ≡ false) _
              db.deletion_blobs
              (λ r unused.
                if_holds
                  (λ (s : DeletionBlob). any_of (uses_blob s.content_blob_id) db.artifacts ≡ false)
                  (elem r.id (map blob_id bs)) (record r { is_pending = false }) r unused unused)
              v.blobs.unneeded);
    };
    jobs =
        same-JobsValid (record j { deleted_blob_count = j.deleted_blob_count + length bs }) db.jobs
          h refl refl v.jobs;
  }

  remove_batch-Valid :
      (db : Tables) (j : DeletionJob) (bs : List DeletionBlob) (o : Storage × Bool)
      → get_job db j.id ≡ some j
      → DeletionValid db
      → Ensures ValidAt (remove_batch refuses db j bs o).1
  remove_batch-Valid db j bs (objects, true) h v = mark_batch-Valid db j bs h v
  remove_batch-Valid db j bs (objects, false) h v = tt

  delete_blobs-Valid :
      (db : Tables) (objects : Storage) (i size : ℕ) (o : Option DeletionJob)
      → get_job db i ≡ o
      → DeletionValid db
      → Ensures ValidAt (delete_blobs refuses db objects o size).1
  delete_blobs-Valid db objects i size none h v = tt
  delete_blobs-Valid db objects i size (some j) h v =
      let bs = pending_batch db j.id size in
      remove_batch-Valid db j bs (remove_objects refuses bs objects)
        (subst (λ (n : ℕ). get_job db n ≡ some j) (sym (found_job db i h)) h) v

  delete_blob_batch-Valid :
      (db : Tables) (objects : Storage) (i size : ℕ)
      → DeletionValid db
      → Ensures ValidAt (delete_blob_batch refuses db objects i size).1
  unfolding delete_blob_batch
  delete_blob_batch-Valid db objects i size v =
      delete_blobs-Valid db objects i size (get_job db i) refl v

-- One successful call. A new job has an id that no job has.
pub data Step (new_id : ℕ → ℕ) (refuses : String → String → Bool) (db : Tables)
    : Tables → Type 0 where
  creates :
      (c user id now : ℕ) (r : Tables × DeletionJob)
      → elem id (map job_key db.jobs) ≡ false
      → create_deletion_job db c user id now ≡ ok r
      → Step new_id refuses db r.0
  retries :
      (i : ℕ) (r : Tables × DeletionJob)
      → retry_deletion_job db i ≡ ok r
      → Step new_id refuses db r.0
  validates :
      (i : ℕ) (r : Tables × Option ℕ) → mark_validating db i ≡ ok r → Step new_id refuses db r.0
  prepares :
      (i now : ℕ) (r : Tables × DeletionJob)
      → prepare_deletion db i now ≡ ok r
      → Step new_id refuses db r.0
  deletes_items :
      (i size : ℕ) (r : Tables × ItemBatch)
      → delete_item_batch new_id db i size ≡ ok r
      → Step new_id refuses db r.0
  deletes_record :
      (i : ℕ) (r : Tables × ℕ)
      → delete_collection_record new_id db i ≡ ok r
      → Step new_id refuses db r.0
  deletes_blobs :
      (objects : Storage) (i size : ℕ) (r : Tables × BlobBatch)
      → (delete_blob_batch refuses db objects i size).1 ≡ ok r
      → Step new_id refuses db r.0
  completes :
      (i now : ℕ) (r : Tables × DeletionJob)
      → complete_deletion db i now ≡ ok r
      → Step new_id refuses db r.0
  fails :
      (i : ℕ) (message : List ℕ) (now : ℕ)
      → Step new_id refuses db (fail_deletion db i message now).0

-- A sequence of calls.
pub data Run (new_id : ℕ → ℕ) (refuses : String → String → Bool) : Tables → Tables → Type 0 where
  stop : (db : Tables) → Run new_id refuses db db
  step :
      (db middle after : Tables)
      → Step new_id refuses db middle
      → Run new_id refuses middle after
      → Run new_id refuses db after

module _ (new_id : ℕ → ℕ) (refuses : String → String → Bool) where
  Step-Valid :
      (db after : Tables) → Step new_id refuses db after → DeletionValid db → DeletionValid after
  Step-Valid db _ (creates c user id now r fresh h) v =
      Ensures-at ValidAt (create_deletion_job db c user id now) h
        (create_deletion_job-Valid db c user id now fresh v)
  Step-Valid db _ (retries i r h) v =
      Ensures-at ValidAt (retry_deletion_job db i) h (retry_deletion_job-Valid db i v)
  Step-Valid db _ (validates i r h) v =
      Ensures-at ValidAt (mark_validating db i) h (mark_validating-Valid db i v)
  Step-Valid db _ (prepares i now r h) v =
      Ensures-at ValidAt (prepare_deletion db i now) h (prepare_deletion-Valid db i now v)
  Step-Valid db _ (deletes_items i size r h) v =
      Ensures-at ValidAt (delete_item_batch new_id db i size) h
        (delete_item_batch-Valid new_id db i size v)
  Step-Valid db _ (deletes_record i r h) v = delete_collection_record-Valid new_id db i r h v
  Step-Valid db _ (deletes_blobs objects i size r h) v =
      Ensures-at ValidAt (delete_blob_batch refuses db objects i size).1 h
        (delete_blob_batch-Valid refuses db objects i size v)
  Step-Valid db _ (completes i now r h) v =
      Ensures-at ValidAt (complete_deletion db i now) h (complete_deletion-Valid db i now v)
  Step-Valid db _ (fails i message now) v = fail_deletion-Valid db i message now v

  -- Whatever calls succeed in whatever order: if at first every artifact has its blob, no scheduled
  -- blob is an artifact's, job ids differ and no collection has two active jobs, then so it is after
  -- them.
  pub Run-Valid :
      (db after : Tables) → Run new_id refuses db after → DeletionValid db → DeletionValid after
  Run-Valid db _ (stop _) v = v
  Run-Valid db _ (step _ middle after s rest) v =
      Run-Valid middle after rest (Step-Valid db middle s v)
