-- ===== src/Deletion/Blobs.antt =====
-- artifact_service/deletion.py: the batches that remove scheduled blobs from the object storage.
-- The storage is the list of the objects in it; whether it refuses a request is a parameter. What
-- it has removed stays removed when the transaction on the tables is rolled back.
use prv_application.Prelude.{
  Bool, List, Option, Result, String, [], any_of, elem, err, false, if◌then◌else◌, length, ltb, map,
  none, not, ok, select, some, sort_by, str_eq, take, true, ℕ, ◌&&◌, ◌+◌, ◌∷◌,
}
use prv_application.Deletion.{
  DeletionBlob, DeletionError, DeletionJob, Tables, get_job, job_not_found, put_job, storage_error,
}
use prv_application.Deletion.Jobs.{is_pending_of}

-- A bucket and a key.
abbrev pub Storage : Type 0
Storage = List (String × String)

abbrev pub names_object : DeletionBlob → String × String → Bool
names_object b (bucket, key) = str_eq bucket b.bucket_name && str_eq key b.storage_key

-- `storage.delete(bucket_name, storage_key)`; to delete what is not there is no error.
unfoldable pub remove_object : DeletionBlob → Storage → Storage
remove_object b objects = select (λ o. not (names_object b o)) objects

abbrev pub blob_before : DeletionBlob → DeletionBlob → Bool
blob_before a b = ltb a.id b.id

abbrev pub blob_id : DeletionBlob → ℕ
blob_id b = b.id

-- The first pending rows of the job, at most `batch_size`.
unfoldable pub pending_batch : Tables → ℕ → ℕ → List DeletionBlob
unfolding sort_by
pending_batch db job_id batch_size =
    take batch_size (sort_by blob_before (select (is_pending_of job_id) db.deletion_blobs))

abbrev pub mark_deleted : List ℕ → DeletionBlob → DeletionBlob
mark_deleted ids b = if elem b.id ids then record b { is_pending = false } else b

pub record BlobBatch : Type 0 where
  pub deleted_blobs : ℕ
  pub has_more : Bool

module _ (refuses : String → String → Bool) where
  -- The loop over the blobs: the storage, and whether every request went through.
  unfoldable pub remove_objects : List DeletionBlob → Storage → Storage × Bool
  unfolding remove_object
  remove_objects [] objects = (objects, true)
  remove_objects (b ∷ bs) objects =
      let rest = remove_objects bs (remove_object b objects) in
      if refuses b.bucket_name b.storage_key then (objects, false) else rest

  unfoldable pub mark_batch : Tables → DeletionJob → List DeletionBlob → Tables × BlobBatch
  unfolding put_job
  mark_batch db j blobs =
      let rows = map (mark_deleted (map blob_id blobs)) db.deletion_blobs in
      (
        record db {
          deletion_blobs = rows;
          jobs =
              put_job (record j { deleted_blob_count = j.deleted_blob_count + length blobs })
                db.jobs;
        },
        record { deleted_blobs = length blobs; has_more = any_of (is_pending_of j.id) rows },
      )

  abbrev pub remove_batch :
      Tables
      → DeletionJob
      → List DeletionBlob
      → Storage × Bool
      → Storage × Result DeletionError (Tables × BlobBatch)
  remove_batch db j blobs (objects, true) = (objects, ok (mark_batch db j blobs))
  remove_batch db j blobs (objects, false) = (objects, err storage_error)

  abbrev pub delete_blobs :
      Tables
      → Storage
      → Option DeletionJob
      → ℕ
      → Storage × Result DeletionError (Tables × BlobBatch)
  delete_blobs db objects none batch_size = (objects, err job_not_found)
  delete_blobs db objects (some j) batch_size =
      let blobs = pending_batch db j.id batch_size in
      remove_batch db j blobs (remove_objects blobs objects)

  unfoldable pub delete_blob_batch :
      Tables → Storage → ℕ → ℕ → Storage × Result DeletionError (Tables × BlobBatch)
  unfolding pending_batch remove_objects mark_batch
  delete_blob_batch db objects job_id batch_size =
      delete_blobs db objects (get_job db job_id) batch_size
