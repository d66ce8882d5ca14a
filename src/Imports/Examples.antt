-- ===== src/Imports/Examples.antt =====
-- A run of an import of two items, one of which the matter has, and its theorems at this input.
use prv_application.Prelude.{List, [], err, none, ok, refl, some, true, ℕ, ◌+◌, ◌∷◌, ◌≡◌}
use prv_application.Imports.{
  BatchItem, ImportJob, ImportTables, ItemCustodian, MatterDocument, counts, failed, primary,
  running, unknown_custodians,
}
use prv_application.Imports.Progress.{
  mark_failed, process_batch, refresh_progress, resume_batch, total,
}
use prv_application.Imports.Replay.{Imported, process_batch-Imported, process_batch-again}

abbrev job_with : ℕ → ℕ → ℕ → ImportJob
job_with processed added duplicate = record {
  id = 1;
  matter_id = 2;
  client_id = 3;
  source_collection_id = 4;
  status = running;
  processed_count = processed;
  added_count = added;
  duplicate_count = duplicate;
  failed_count = 0;
  error_message = none;
  created_by_user_id = 9;
  completed_at = none;
}

abbrev document : ℕ → ℕ → MatterDocument
document i item = record {
  id = i;
  matter_id = 2;
  source_collection_id = 4;
  collection_item_id = item;
  added_by_import_job_id = 1;
}

abbrev tables : ImportTables
tables = record {
  jobs = job_with 0 0 0 ∷ [];
  batches = [];
  documents = document 50 5 ∷ [];
  links = [];
  custodians = record { id = 7; client_id = 3 } ∷ [];
  operations = [];
}

abbrev link_to : ItemCustodian
link_to = record { custodian_id = 7; relationship_type = primary }

abbrev two_items : List BatchItem
two_items =
    record { item_id = 5; custodians = link_to ∷ [] }
    ∷ record { item_id = 6; custodians = link_to ∷ [] }
    ∷ []

abbrev shifted : ℕ → ℕ
shifted i = 100 + i

abbrev imported : ImportTables
imported = record {
  jobs = job_with 2 1 1 ∷ [];
  batches =
      record {
        job_id = 1;
        batch_number = 1;
        is_completed = true;
        item_count = 2;
        added_count = 1;
        duplicate_count = 1;
        failed_count = 0;
      }
      ∷ [];
  documents = document 50 5 ∷ document 106 6 ∷ [];
  links =
      record { document_id = 50; custodian_id = 7; relationship_type = primary }
      ∷ record { document_id = 106; custodian_id = 7; relationship_type = primary }
      ∷ [];
  custodians = record { id = 7; client_id = 3 } ∷ [];
  operations =
      record { matter_id = 2; document_ids = 106 ∷ []; created_by_user_id = 9; priority = 100 }
      ∷ [];
}

batch_ran : process_batch shifted tables 1 1 two_items ≡ ok (imported, counts 2 1 1)
unfolding process_batch resume_batch total refresh_progress
batch_ran = refl

-- A custodian of another client is refused.
unknown_refused :
    process_batch shifted (record tables { custodians = [] }) 1 1 two_items ≡ err unknown_custodians
unfolding process_batch resume_batch
unknown_refused = refl

failure_marked :
    (mark_failed tables 1 (69 ∷ []) 60).jobs
    ≡ record (job_with 0 0 0) {
      status = failed;
      error_message = some (69 ∷ []);
      completed_at = some 60;
    }
      ∷ []
unfolding mark_failed
failure_marked = refl

process_batch-Imported_example :
    Imported shifted tables (job_with 0 0 0) 1 two_items imported (counts 2 1 1)
process_batch-Imported_example =
    process_batch-Imported shifted tables (job_with 0 0 0) 1 two_items imported (counts 2 1 1) refl
      refl refl batch_ran

process_batch-again_example : process_batch shifted imported 1 1 [] ≡ ok (imported, counts 2 1 1)
process_batch-again_example =
    process_batch-again shifted tables (job_with 0 0 0) 1 two_items [] imported (counts 2 1 1) refl
      refl refl batch_ran
