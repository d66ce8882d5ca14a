-- ===== src/Deletion/Jobs.antt =====
-- artifact_service/deletion.py: the life of a deletion job, from its creation to its end.
use prv_application.Prelude.{
  Bool, List, Option, Result, [], any_of, err, false, if◌then◌else◌, length, ltb, map, max_by, none,
  not, ok, refuse, require, select, some, suc, take, true, ℕ, ◌&&◌, ◌++◌, ◌+◌, ◌==◌, ◌>>=◌, ◌>>◌,
  ◌∷◌,
}
use prv_application.Deletion.{
  ClientCollection, CollectionArtifact, CollectionItem, CollectionStatus, DeletionBlob,
  DeletionError, DeletionJob, ItemArtifact, JobStatus, ProcessingRun, Tables,
  active_text_processing, already_deleting, blobs_remain, collection_not_found, completed, deleting,
  deleting_database_rows, failed, get_collection, get_job, in_active, job_not_found, not_failed,
  put_collection, put_job, queued, required, save_job,
}

-- The first row of `ORDER BY created_at DESC`.
abbrev created_before : DeletionJob → DeletionJob → Bool
created_before j k = ltb j.created_at k.created_at

unfoldable pub latest_job : List DeletionJob → Option DeletionJob
unfolding max_by
latest_job [] = none
latest_job (j ∷ js) = some (max_by created_before j js)

abbrev pub is_job_of : ℕ → DeletionJob → Bool
is_job_of c j = j.collection_id == c

abbrev pub is_active_job_of : ℕ → DeletionJob → Bool
is_active_job_of c j = (j.collection_id == c) && in_active j.status

abbrev pub is_item_of : ℕ → CollectionItem → Bool
is_item_of c i = i.collection_id == c

-- The join of CollectionItemArtifact with the items of a collection.
abbrev pub is_item_artifact_of : Tables → ℕ → ItemArtifact → Bool
is_item_artifact_of db c a =
    any_of (λ (i : CollectionItem). (i.id == a.collection_item_id) && is_item_of c i) db.items

abbrev pub is_collection_artifact_of : ℕ → CollectionArtifact → Bool
is_collection_artifact_of c a = a.collection_id == c

abbrev pub is_deleting : CollectionStatus → Bool
is_deleting deleting = true
is_deleting _ = false

abbrev pub is_failed : JobStatus → Bool
is_failed failed = true
is_failed _ = false

abbrev pub is_completed : JobStatus → Bool
is_completed completed = true
is_completed _ = false

abbrev pub new_job : Tables → ClientCollection → ℕ → ℕ → ℕ → DeletionJob
new_job db c id now user = record {
  id = id;
  collection_id = c.id;
  tenant_id = c.tenant_id;
  client_id = c.client_id;
  collection_name = c.name;
  previous_collection_status = c.status;
  status = queued;
  workflow_id = (id, 1);
  attempt_count = 1;
  item_count = length (select (is_item_of c.id) db.items);
  artifact_count =
      length (select (is_item_artifact_of db c.id) db.item_artifacts)
      + length (select (is_collection_artifact_of c.id) db.collection_artifacts);
  blob_count = 0;
  deleted_item_count = 0;
  deleted_artifact_count = 0;
  deleted_blob_count = 0;
  error_message = none;
  requested_by_user_id = user;
  created_at = now;
  started_at = none;
  completed_at = none;
}

-- What follows when the collection has no active job.
unfoldable pub create_new_job :
    Tables → ClientCollection → ℕ → ℕ → ℕ → Result DeletionError (Tables × DeletionJob)
unfolding put_collection
create_new_job db c id now user = do
  refuse (any_of (λ (r : ProcessingRun). (r.collection_id == c.id) && r.is_active) db.runs)
      active_text_processing
  let j = new_job db c id now user
  ok (
    record db {
      collections = put_collection (record c { status = deleting }) db.collections;
      jobs = db.jobs ++ j ∷ [];
    },
    j,
  )

-- A call that returns a job and writes nothing.
abbrev pub unchanged :
    Tables → Result DeletionError DeletionJob → Result DeletionError (Tables × DeletionJob)
unchanged db (err e) = err e
unchanged db (ok j) = ok (db, j)

unfoldable pub create_unless_deleting :
    Tables → ClientCollection → ℕ → ℕ → ℕ → Result DeletionError (Tables × DeletionJob)
unfolding create_new_job latest_job
create_unless_deleting db c id now user =
    if is_deleting c.status
    then unchanged db (required (latest_job (select (is_job_of c.id) db.jobs)) already_deleting)
    else create_new_job db c id now user

unfoldable pub create_unless_active :
    Tables
    → ClientCollection
    → ℕ
    → ℕ
    → ℕ
    → Option DeletionJob
    → Result DeletionError (Tables × DeletionJob)
unfolding create_unless_deleting
create_unless_active db c id now user (some existing) = ok (db, existing)
create_unless_active db c id now user none = create_unless_deleting db c id now user

-- `id` and `now` are the new job's id and creation time.
unfoldable pub create_deletion_job :
    Tables → ℕ → ℕ → ℕ → ℕ → Result DeletionError (Tables × DeletionJob)
unfolding create_unless_active latest_job
create_deletion_job db collection_id user id now = do
  c ← required (get_collection db collection_id) collection_not_found
  create_unless_active db c id now user (latest_job (select (is_active_job_of c.id) db.jobs))

abbrev pub set_collection_status : Option ClientCollection → CollectionStatus → Tables → Tables
set_collection_status none s db = db
set_collection_status (some c) s db = record db {
  collections = put_collection (record c { status = s }) db.collections;
}

abbrev pub retried : DeletionJob → DeletionJob
retried j = record j {
  attempt_count = suc j.attempt_count;
  workflow_id = (j.id, suc j.attempt_count);
  status = queued;
  error_message = none;
  completed_at = none;
}

unfoldable pub retry_deletion_job : Tables → ℕ → Result DeletionError (Tables × DeletionJob)
unfolding save_job put_collection
retry_deletion_job db job_id = do
  j ← required (get_job db job_id) job_not_found
  require (is_failed j.status) not_failed
  saved ←
      save_job (set_collection_status (get_collection db j.collection_id) deleting db) (retried j)
  ok (saved, retried j)

abbrev or_now : Option ℕ → ℕ → Option ℕ
or_now none now = some now
or_now (some t) now = some t

-- `values(parent_collection_item_id=None)` on the items of the collection.
abbrev pub without_parent : ℕ → CollectionItem → CollectionItem
without_parent c i = if is_item_of c i then record i { parent_collection_item_id = none } else i

abbrev pub prepared : DeletionJob → ℕ → DeletionJob
prepared j now = record j {
  status = deleting_database_rows;
  started_at = or_now j.started_at now;
  error_message = none;
}

unfoldable pub prepare_rows : Tables → DeletionJob → ℕ → Result DeletionError (Tables × DeletionJob)
unfolding save_job
prepare_rows db j now = do
  saved ← save_job db (prepared j now)
  ok (record saved { items = map (without_parent j.collection_id) saved.items }, prepared j now)

unfoldable pub prepare_deletion : Tables → ℕ → ℕ → Result DeletionError (Tables × DeletionJob)
unfolding prepare_rows
prepare_deletion db job_id now = do
  j ← required (get_job db job_id) job_not_found
  if is_completed j.status then ok (db, j) else prepare_rows db j now

abbrev pub is_pending_of : ℕ → DeletionBlob → Bool
is_pending_of j b = (b.deletion_job_id == j) && b.is_pending

unfoldable pub complete_deletion : Tables → ℕ → ℕ → Result DeletionError (Tables × DeletionJob)
unfolding put_job
complete_deletion db job_id now = do
  j ← required (get_job db job_id) job_not_found
  refuse (any_of (is_pending_of j.id) db.deletion_blobs) blobs_remain
  let k = record j { status = completed; completed_at = some now; error_message = none }
  ok (
    record db {
      deletion_blobs = select (λ b. not (b.deletion_job_id == j.id)) db.deletion_blobs;
      jobs = put_job k db.jobs;
    },
    k,
  )

-- Nothing has been deleted for the job yet.
abbrev pub is_untouched : DeletionJob → Bool
is_untouched j =
    (j.deleted_item_count == 0) && (j.deleted_artifact_count == 0) && (j.blob_count == 0)

unfoldable pub fail_job : Tables → Option DeletionJob → List ℕ → ℕ → Tables × Option DeletionJob
unfolding put_job put_collection
fail_job db none message now = (db, none)
fail_job db (some j) message now =
    let k = record j {
      status = failed;
      error_message = some (take 4000 message);
      completed_at = some now;
    } in
    let saved = record db { jobs = put_job k db.jobs } in
    (
      if is_untouched j
          then set_collection_status (get_collection db j.collection_id)
              j.previous_collection_status saved
          else saved,
      some k,
    )

unfoldable pub fail_deletion : Tables → ℕ → List ℕ → ℕ → Tables × Option DeletionJob
unfolding fail_job
fail_deletion db job_id message now = fail_job db (get_job db job_id) message now
