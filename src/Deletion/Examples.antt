-- ===== src/Deletion/Examples.antt =====
-- Runs of the deletion model on two small collections that share a blob, and its theorems at these
-- inputs.
use prv_application.Imports.{ImportTables}
use prv_application.Deletion.Ended.{Ends, advance-Ends, at}
use prv_application.Deletion.Process.{
  Process, Refines, advance, advance-Refines, finished, raised, to_validate,
}
use prv_application.Prelude.{
  List, String, [], arith, false, none, ok, refl, some, true, ℕ, ◌∷◌, ◌≡◌,
}
use prv_application.Deletion.{
  ClientCollection, CollectionItem, CollectionStatus, ContentBlob, DeletionBlob, DeletionError,
  DeletionJob, Tables, deleting, opened,
}
use prv_application.Deletion.Jobs.{
  create_deletion_job, create_unless_active, fail_deletion, new_job,
}
use prv_application.Deletion.Rows.{
  ItemBatch, delete_artifacts_and_schedule_blobs, delete_item_batch, delete_items, scheduled_row,
}
use prv_application.Deletion.Blobs.{Storage}
use prv_application.Deletion.Workflow.{delete_all_blobs, delete_all_items}
use prv_application.Deletion.Batches.{Deletes}
use prv_application.Deletion.Emptied.{
  Counts, Emptied, delete_all_items-Emptied, delete_item_batch-Deletes,
}
use prv_application.Deletion.Valid.{DeletionValid}
use prv_application.Deletion.Reachable.{Run-Valid, creates, deletes_items, step, stop}
use prv_application.Deletion.Removed.{AllRemoved, delete_all_blobs-AllRemoved}
use prv_application.Deletion.Failing.{Fails, fail_deletion-Fails}

abbrev item_of : ℕ → ℕ → CollectionItem
item_of i c = record { id = i; collection_id = c; parent_collection_item_id = none }

abbrev blob_of : ℕ → String → ContentBlob
blob_of i key = record { id = i; bucket_name = "b"; storage_key = key; byte_length = 1 }

abbrev collection_of : ℕ → CollectionStatus → ClientCollection
collection_of i s = record { id = i; tenant_id = 1; client_id = 1; name = "c"; status = s }

-- The items 1 and 2 of collection 1 have the blobs 100 and 101, and item 3 of collection 2 has the
-- blob 100 too.
abbrev sample : Tables
sample = record {
  collections = collection_of 1 opened ∷ collection_of 2 opened ∷ [];
  jobs = [];
  deletion_blobs = [];
  content_blobs = blob_of 100 "shared" ∷ blob_of 101 "own" ∷ [];
  items = item_of 1 1 ∷ item_of 2 1 ∷ item_of 3 2 ∷ [];
  artifacts =
      record { id = 11; content_blob_id = 100 }
      ∷ record { id = 12; content_blob_id = 101 }
      ∷ record { id = 13; content_blob_id = 100 }
      ∷ [];
  item_artifacts =
      record { artifact_id = 11; collection_item_id = 1 }
      ∷ record { artifact_id = 12; collection_item_id = 2 }
      ∷ record { artifact_id = 13; collection_item_id = 3 }
      ∷ [];
  collection_artifacts = [];
  lineage = [];
  selections = [];
  selection_items = [];
  item_emails = 1 ∷ [];
  email_recipients = [];
  item_custodians = [];
  profiles = [];
  runs = [];
}

abbrev same_id : ℕ → ℕ
same_id i = i

abbrev first_job : DeletionJob
first_job = new_job sample (collection_of 1 opened) 7 50 9

abbrev started : Tables
started = record sample {
  collections = collection_of 1 deleting ∷ collection_of 2 opened ∷ [];
  jobs = first_job ∷ [];
}

created_counts : (first_job.item_count ≡ 2) × (first_job.artifact_count ≡ 2)
created_counts = (refl, refl)

create_starts : create_deletion_job sample 1 9 7 50 ≡ ok (started, first_job)
unfolding create_deletion_job create_unless_active
create_starts = refl

-- A second request gives the active job.
create_again : create_deletion_job started 1 9 8 51 ≡ ok (started, first_job)
unfolding create_deletion_job create_unless_active
create_again = refl

-- The shared blob stays, and the other one is scheduled.
abbrev own_row : DeletionBlob
own_row = scheduled_row same_id 7 (blob_of 101 "own")

abbrev counted_job : DeletionJob
counted_job = record first_job {
  blob_count = 1;
  deleted_item_count = 2;
  deleted_artifact_count = 2;
}

abbrev emptied : Tables
emptied = record started {
  jobs = counted_job ∷ [];
  deletion_blobs = own_row ∷ [];
  content_blobs = blob_of 100 "shared" ∷ [];
  items = item_of 3 2 ∷ [];
  artifacts = record { id = 13; content_blob_id = 100 } ∷ [];
  item_artifacts = record { artifact_id = 13; collection_item_id = 3 } ∷ [];
  item_emails = [];
}

items_deleted :
    delete_item_batch same_id started 7 10
    ≡ ok (emptied, record { deleted_items = 2; deleted_artifacts = 2; has_more = false })
unfolding delete_item_batch delete_items delete_artifacts_and_schedule_blobs
items_deleted = refl

sample-DeletionValid : DeletionValid sample
sample-DeletionValid = record {
  blobs = record { stored = (refl, (refl, (refl, tt))); unneeded = tt };
  jobs = record { keys = refl; one = λ c. omega arith };
}

Run-Valid_example : DeletionValid emptied
Run-Valid_example =
    Run-Valid same_id (λ _ _. false) sample emptied
      (step sample started emptied (creates 1 9 7 50 (started, first_job) refl create_starts) (
        step started emptied emptied
          (deletes_items 7 10
            (emptied, record { deleted_items = 2; deleted_artifacts = 2; has_more = false })
            items_deleted)
          (stop emptied)))
      sample-DeletionValid

delete_item_batch-Deletes_example :
    (r : Tables × ItemBatch) × (delete_item_batch same_id started 7 10 ≡ ok r)
    × Deletes 1 10 started r.0 r.1
    × Counts r.0 7 first_job r.1.deleted_items
delete_item_batch-Deletes_example =
    delete_item_batch-Deletes same_id 7 started first_job 10 refl refl

delete_all_items-Emptied_example :
    (after : Tables) × (delete_all_items same_id 3 started 7 ≡ ok (some after))
    × Emptied same_id 7 started first_job after
delete_all_items-Emptied_example =
    delete_all_items-Emptied same_id 7 2 started first_job refl refl (omega arith)

abbrev stored_objects : Storage
stored_objects = ("b", "shared") ∷ ("b", "own") ∷ []

delete_all_blobs-AllRemoved_example :
    (last : Storage) × (after : Tables) × (delete_all_blobs
        (λ _ _. false)
        2
        emptied
        stored_objects
        7
      ≡ (last, ok (some after)))
    × AllRemoved 7 emptied stored_objects last after
delete_all_blobs-AllRemoved_example =
    delete_all_blobs-AllRemoved (λ _ _. false) (λ _ _. refl) 1 7 emptied stored_objects counted_job
      refl refl (omega arith)

own_removed : delete_all_blobs (λ _ _. false) 2 emptied stored_objects 7 ≡ (
  ("b", "shared") ∷ [],
  ok (
      some (record emptied {
        deletion_blobs = record own_row { is_pending = false } ∷ [];
        jobs = record counted_job { deleted_blob_count = 1 } ∷ [];
      })),
)
unfolding delete_all_blobs
own_removed = refl

fail_deletion-Fails_example :
    Fails started first_job (69 ∷ []) 60 (fail_deletion started 7 (69 ∷ []) 60).0
fail_deletion-Fails_example = fail_deletion-Fails started first_job (69 ∷ []) 60 refl

abbrev no_imports : ImportTables
no_imports = record {
  jobs = [];
  batches = [];
  documents = [];
  links = [];
  custodians = [];
  operations = [];
}

abbrev text_of_error : DeletionError → List ℕ
text_of_error e = 69 ∷ []

abbrev begun : Process
begun = record { tables = started; objects = stored_objects; stage = to_validate }

-- The job without an import in the way ends, and the object of its own blob is gone.
workflow_ends :
    (advance same_id (λ _ _. false) text_of_error no_imports 7 90 6 begun).stage ≡ finished
unfolding advance
workflow_ends = refl

workflow_removes :
    (advance same_id (λ _ _. false) text_of_error no_imports 7 90 6 begun).objects
    ≡ ("b", "shared") ∷ []
unfolding advance
workflow_removes = refl

-- A document that a matter has from the collection stops the workflow at its first step.
workflow_blocked :
    (advance same_id
      (λ _ _. false)
      text_of_error
      (record no_imports {
        documents =
            record {
              id = 1;
              matter_id = 1;
              source_collection_id = 1;
              collection_item_id = 1;
              added_by_import_job_id = 1;
            }
            ∷ [];
      })
      7
      90
      6
      begun).stage
    ≡ raised
unfolding advance
workflow_blocked = refl

advance-Refines_example :
    Refines same_id
      (λ _ _. false)
      text_of_error
      no_imports
      7
      90
      started
      (advance same_id (λ _ _. false) text_of_error no_imports 7 90 6 begun)
advance-Refines_example =
    advance-Refines same_id (λ _ _. false) text_of_error no_imports 7 90 6 begun tt

-- The storage refuses every request here.
advance-Ends_example :
    Ends same_id (λ _ _. true) text_of_error no_imports 7 90 (at to_validate started [])
advance-Ends_example =
    advance-Ends same_id (λ _ _. true) text_of_error no_imports 7 90 started [] refl
