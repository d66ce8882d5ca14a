-- ===== src/Deletion/Rows.antt =====
-- artifact_service/deletion.py: the batches that delete the rows of a collection, and schedule the
-- blobs that no artifact needs any more.
use prv_application.Prelude.{
  Bool, List, Option, Result, [], any_of, elem, false, find_first, if◌then◌else◌, is_empty, length,
  ltb, map, none, not, ok, refuse, select, some, sort_by, take, true, ℕ, ◌&&◌, ◌++◌, ◌+◌, ◌==◌,
  ◌>>=◌, ◌>>◌, ◌||◌, ◌∷◌,
}
use prv_application.Deletion.{
  Artifact, ArtifactLineage, ClientCollection, CollectionArtifact, CollectionItem,
  CollectionSelection, ContentBlob, DeletionBlob, DeletionError, DeletionJob, ItemArtifact,
  ProcessingRun, SelectionItem, Tables, deleting_blobs, get_collection, get_job, items_remain,
  job_not_found, put_job, required, save_job,
}
use prv_application.Deletion.Jobs.{is_collection_artifact_of, is_item_of}

-- `column.in_(ids)`
-- The values of a column without repetition, each at its first row.
unfoldable pub distinct_values : List ℕ → List ℕ
distinct_values [] = []
distinct_values (i ∷ is) = i ∷ select (λ k. not (k == i)) (distinct_values is)

abbrev pub uses_blob : ℕ → Artifact → Bool
uses_blob b a = a.content_blob_id == b

-- The blobs of the artifacts with the given ids.
unfoldable pub blobs_of : List ℕ → Tables → List ℕ
unfolding distinct_values
blobs_of ids db = distinct_values (
    map (λ (a : Artifact). a.content_blob_id)
      (select (λ (a : Artifact). elem a.id ids) db.artifacts))

-- The rows of artifacts, and all that hangs on them, without those of the given ids.
unfoldable pub without_artifacts : List ℕ → Tables → Tables
without_artifacts ids db = record db {
  lineage =
      select
        (λ (l : ArtifactLineage). not (elem l.artifact_id ids || elem l.source_artifact_id ids))
        db.lineage;
  item_artifacts = select (λ (a : ItemArtifact). not (elem a.artifact_id ids)) db.item_artifacts;
  collection_artifacts =
      select (λ (a : CollectionArtifact). not (elem a.artifact_id ids)) db.collection_artifacts;
  artifacts = select (λ (a : Artifact). not (elem a.id ids)) db.artifacts;
}

abbrev pub item_id : CollectionItem → ℕ
item_id i = i.id

abbrev pub item_artifact_ids : List ℕ → Tables → List ℕ
item_artifact_ids ids db =
    map (λ (a : ItemArtifact). a.artifact_id)
      (select (λ (a : ItemArtifact). elem a.collection_item_id ids) db.item_artifacts)

abbrev pub collection_artifact_ids : ℕ → Tables → List ℕ
collection_artifact_ids c db =
    map (λ (a : CollectionArtifact). a.artifact_id)
      (select (is_collection_artifact_of c) db.collection_artifacts)

abbrev pub item_before : CollectionItem → CollectionItem → Bool
item_before i j = ltb i.id j.id

-- The ids of the first items of the collection, at most `batch_size`.
unfoldable pub batch_ids : Tables → ℕ → ℕ → List ℕ
unfolding sort_by
batch_ids db c batch_size =
    map item_id (take batch_size (sort_by item_before (select (is_item_of c) db.items)))

-- The rows that hang on the items of the batch.
unfoldable pub without_item_rows : ℕ → List ℕ → Tables → Tables
without_item_rows c ids db =
    let selection_ids =
      map (λ (s : CollectionSelection). s.id)
        (select (λ (s : CollectionSelection). s.collection_id == c) db.selections) in
    record db {
      selection_items =
          select
            (λ (s : SelectionItem).
              not (elem s.selection_id selection_ids && elem s.collection_item_id ids))
            db.selection_items;
      email_recipients = select (λ i. not (elem i ids)) db.email_recipients;
      item_emails = select (λ i. not (elem i ids)) db.item_emails;
      item_custodians = select (λ i. not (elem i ids)) db.item_custodians;
    }

pub record ItemBatch : Type 0 where
  pub deleted_items : ℕ
  pub deleted_artifacts : ℕ
  pub has_more : Bool

-- `new_id` gives the id of the row that schedules a blob.
module _ (new_id : ℕ → ℕ) where
  abbrev pub scheduled_row : ℕ → ContentBlob → DeletionBlob
  scheduled_row job_id b = record {
    id = new_id b.id;
    deletion_job_id = job_id;
    content_blob_id = b.id;
    bucket_name = b.bucket_name;
    storage_key = b.storage_key;
    byte_length = b.byte_length;
    is_pending = true;
  }

  abbrev pub schedule_found : ℕ → Tables → Option ContentBlob → Tables × ℕ
  schedule_found job_id db none = (db, 0)
  schedule_found job_id db (some b) = (
    record db {
      deletion_blobs = db.deletion_blobs ++ scheduled_row job_id b ∷ [];
      content_blobs = select (λ (c : ContentBlob). not (c.id == b.id)) db.content_blobs;
    },
    1,
  )

  -- One round of the loop over the blobs of the deleted artifacts.
  unfoldable pub schedule_blob : ℕ → ℕ → Tables → Tables × ℕ
  schedule_blob job_id b db =
      if any_of (uses_blob b) db.artifacts
      then (db, 0)
      else schedule_found job_id db (find_first (λ (c : ContentBlob). c.id == b) db.content_blobs)

  unfoldable pub schedule_blobs : ℕ → List ℕ → Tables → Tables × ℕ
  unfolding schedule_blob
  schedule_blobs job_id [] db = (db, 0)
  schedule_blobs job_id (b ∷ bs) db =
      let first = schedule_blob job_id b db in
      let rest = schedule_blobs job_id bs first.0 in (rest.0, first.1 + rest.1)

  -- Gives the tables, and how many blobs are scheduled; the caller adds them to the job's count.
  unfoldable pub delete_artifacts_and_schedule_blobs : ℕ → List ℕ → Tables → Tables × ℕ
  unfolding schedule_blobs without_artifacts blobs_of
  delete_artifacts_and_schedule_blobs job_id ids db =
      if is_empty ids
      then (db, 0)
      else schedule_blobs job_id (blobs_of ids db) (without_artifacts ids db)

  -- The work on a batch that is not empty.
  unfoldable pub delete_items : Tables → DeletionJob → List ℕ → Tables × ItemBatch
  unfolding without_item_rows delete_artifacts_and_schedule_blobs put_job
  delete_items db j ids =
      let artifact_ids = item_artifact_ids ids db in
      let (cleared, scheduled) =
        delete_artifacts_and_schedule_blobs j.id artifact_ids
          (without_item_rows j.collection_id ids db) in
      let items = select (λ (i : CollectionItem). not (elem i.id ids)) cleared.items in
      (
        record cleared {
          items = items;
          jobs =
              put_job
                (record j {
                  blob_count = j.blob_count + scheduled;
                  deleted_item_count = j.deleted_item_count + length ids;
                  deleted_artifact_count = j.deleted_artifact_count + length artifact_ids;
                })
                cleared.jobs;
        },
        record {
          deleted_items = length ids;
          deleted_artifacts = length artifact_ids;
          has_more = any_of (is_item_of j.collection_id) items;
        },
      )

  unfoldable pub delete_batch : Tables → DeletionJob → List ℕ → Tables × ItemBatch
  unfolding delete_items
  delete_batch db j [] = (db, record { deleted_items = 0; deleted_artifacts = 0; has_more = false })
  delete_batch db j (i ∷ is) = delete_items db j (i ∷ is)

  unfoldable pub delete_item_batch : Tables → ℕ → ℕ → Result DeletionError (Tables × ItemBatch)
  unfolding delete_batch batch_ids
  delete_item_batch db job_id batch_size = do
    j ← required (get_job db job_id) job_not_found
    ok (delete_batch db j (batch_ids db j.collection_id batch_size))

-- The rows that hang on the collection, and the collection.
unfoldable pub without_collection : ℕ → Tables → Tables
without_collection c db =
    let selection_ids =
      map (λ (s : CollectionSelection). s.id)
        (select (λ (s : CollectionSelection). s.collection_id == c) db.selections) in
    record db {
      selection_items =
          select (λ (s : SelectionItem). not (elem s.selection_id selection_ids))
            db.selection_items;
      selections = select (λ (s : CollectionSelection). not (s.collection_id == c)) db.selections;
      profiles = select (λ i. not (i == c)) db.profiles;
      runs = select (λ (r : ProcessingRun). not (r.collection_id == c)) db.runs;
      collections = select (λ (d : ClientCollection). not (d.id == c)) db.collections;
    }

-- The job when the collection is gone.
abbrev pub recorded : DeletionJob → ℕ → ℕ → DeletionJob
recorded j scheduled deleted = record j {
  blob_count = j.blob_count + scheduled;
  deleted_artifact_count = j.deleted_artifact_count + deleted;
  status = deleting_blobs;
}

module _ (new_id : ℕ → ℕ) where
  -- Gives the tables and how many artifacts were deleted.
  unfoldable pub delete_record :
      Tables → DeletionJob → Option ClientCollection → Result DeletionError (Tables × ℕ)
  unfolding delete_artifacts_and_schedule_blobs without_collection save_job
  delete_record db j none = do
    saved ← save_job db (record j { status = deleting_blobs })
    ok (saved, 0)
  delete_record db j (some c) = do
    refuse (any_of (is_item_of c.id) db.items) items_remain
    let artifact_ids = collection_artifact_ids c.id db
    let (cleared, scheduled) = delete_artifacts_and_schedule_blobs new_id j.id artifact_ids db
    saved ← save_job (without_collection c.id cleared) (recorded j scheduled (length artifact_ids))
    ok (saved, length artifact_ids)

  unfoldable pub delete_collection_record : Tables → ℕ → Result DeletionError (Tables × ℕ)
  unfolding delete_record
  delete_collection_record db job_id = do
    j ← required (get_job db job_id) job_not_found
    delete_record db j (get_collection db j.collection_id)
