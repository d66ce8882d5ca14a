-- ===== src/Reviews/Examples.antt =====
-- Runs of the review batches on small tables, and the theorems at these inputs.
use prv_application.Metadata.Types.{ValueColumns}
use prv_application.Reviews.{
  DocumentRow, MatterRow, ReviewBatch, ReviewRun, ReviewTables, RunValue, human_run, queued,
  random_matter, ready, review, running, skipped,
}
use prv_application.Reviews.Runs.{batch_run, matter_batch, start_or_resume_review_batch_run}
use prv_application.Reviews.Coding.{
  Progress, get_review_batch_run_progress, skip_review_batch_document,
}
use prv_application.Reviews.Recorded.{IsRecorded}
use prv_application.Reviews.Tracked.{RunTrace-IsRecorded, here, next, passed, started}
use prv_application.Reviews.Progressing.{AddsUp, get_review_batch_run_progress-AddsUp}
use prv_application.Reviews.Comparing.{
  FieldComparison, compare_review_batch_runs, compare_review_batch_runs-swapped,
}
use prv_application.Reviews.Materialize.{Outside, materialize_review_batch}
use prv_application.Reviews.Materialized.{IsMaterialized, materialize_review_batch-IsMaterialized}
use prv_application.Reviews.Paging.{collect_pages, collect_pages-found, page_of}
use prv_application.Prelude.{
  Bool, List, [], ap, arith, negsuc, none, ok, pos, refl, some, true, ℕ, ◌-◌, ◌∷◌, ◌≡◌,
}

abbrev found_ids : List ℕ
found_ids = 2 ∷ 5 ∷ 7 ∷ 8 ∷ 9 ∷ []

collect_pages-found_example : collect_pages (page_of found_ids 2) 2 6 none ≡ some found_ids
collect_pages-found_example =
    collect_pages-found (page_of found_ids 2) found_ids 1 (λ a. refl) (omega arith)

abbrev documents : List DocumentRow
documents =
    record { id = 4; matter_id = 1; created_at = 30 }
    ∷ record { id = 5; matter_id = 1; created_at = 10 }
    ∷ record { id = 6; matter_id = 2; created_at = 10 }
    ∷ record { id = 7; matter_id = 1; created_at = 20 }
    ∷ []

abbrev sample_batch : ReviewBatch
sample_batch = record {
  id = 3;
  matter_id = 1;
  selection_type = random_matter;
  search = none;
  source_batch_id = none;
  search_index_generation_id = none;
  sample_size = some 2;
  random_seed = some "seed";
  assigned_user_id = none;
  status = queued;
  document_count = 0;
  error_message = none;
  completed_at = none;
}

abbrev matter_row : MatterRow
matter_row = record { id = 1; uuid = "m1"; tenant_id = 1; tenant = "t1" }

abbrev tables : ReviewTables
tables = record {
  batches = sample_batch ∷ [];
  members = record { review_batch_id = 2; matter_document_id = 6; sequence_number = 1 } ∷ [];
  documents = documents;
  matters = matter_row ∷ [];
  generations = [];
  fields = λ m. [];
  definitions = [];
  coding_fields = [];
  agents = [];
  versions = [];
  runs = [];
  run_documents = [];
  values = [];
}

-- The order of the sample is that of the ids reversed.
abbrev outside : Outside
outside = record {
  stable_key = λ seed i. 100 - i;
  uuid_text = λ i. "";
  message = λ e. "failed";
  python = record {
    date_fromisoformat = λ s. none;
    datetime_fromisoformat = λ s. none;
    float_of_int = λ n. none;
  };
  formats = record { date_isoformat = λ n. ""; datetime_isoformat = λ t. "" };
  score = λ f. f;
  search = λ index body after. [];
  rounds = 1;
}

abbrev ready_batch : ReviewBatch
ready_batch = record sample_batch { status = ready; document_count = 2; completed_at = some 50 }

abbrev ready_tables : ReviewTables
ready_tables = record tables {
  members =
      record { review_batch_id = 2; matter_document_id = 6; sequence_number = 1 }
      ∷ record { review_batch_id = 3; matter_document_id = 7; sequence_number = 1 }
      ∷ record { review_batch_id = 3; matter_document_id = 5; sequence_number = 2 }
      ∷ [];
  batches = ready_batch ∷ [];
}

materialize_sample : materialize_review_batch outside tables 3 50 ≡ (ready_tables, ok ready_batch)
unfolding materialize_review_batch
materialize_sample = refl

materialize_review_batch-IsMaterialized_example :
    IsMaterialized outside tables sample_batch
      (materialize_review_batch outside tables 3 50).0
      ready_batch
materialize_review_batch-IsMaterialized_example =
    materialize_review_batch-IsMaterialized outside tables sample_batch 50 refl refl ready_batch
      (ap (λ o. o.1) materialize_sample)

abbrev everyone : ℕ → ℕ → Bool
everyone user matter = true

abbrev review_run : ReviewRun
review_run = record {
  id = 20;
  review_batch_id = 3;
  run_type = human_run;
  purpose = review;
  status = running;
  parent_run_id = none;
  actor_user_id = some 9;
  agent_version_id = none;
  processed_document_count = 0;
  created_at = 60;
  completed_at = none;
}

abbrev started_tables : ReviewTables
started_tables = record ready_tables {
  batches = record ready_batch { assigned_user_id = some 9 } ∷ [];
  runs = review_run ∷ [];
}

abbrev skipped_run : ReviewRun
skipped_run = record review_run { processed_document_count = 1 }

abbrev skipped_tables : ReviewTables
skipped_tables = record started_tables {
  runs = skipped_run ∷ [];
  run_documents =
      record {
        run_id = 20;
        document_id = 5;
        status = skipped;
        started_at = 70;
        completed_at = some 70;
      }
      ∷ [];
}

start_run :
    start_or_resume_review_batch_run everyone ready_tables 1 3 9 20 60
    ≡ ok (started_tables, review_run)
unfolding start_or_resume_review_batch_run
start_run = refl

skip_document :
    skip_review_batch_document outside.python everyone started_tables 1 3 20 5 9 70
    ≡ ok skipped_tables
unfolding skip_review_batch_document
skip_document = refl

ready_tables-IsRecorded : IsRecorded ready_tables
ready_tables-IsRecorded = record { counted = tt; one_row = λ i. refl; known = tt }

RunTrace-IsRecorded_example : IsRecorded skipped_tables
RunTrace-IsRecorded_example =
    RunTrace-IsRecorded outside.python everyone ready_tables skipped_tables
      (next (next here (started 1 3 9 20 60 review_run refl start_run))
        (passed 1 3 20 5 9 70 skip_document))
      ready_tables-IsRecorded

abbrev assigned_ready : ReviewBatch
assigned_ready = record ready_batch { assigned_user_id = some 9 }

abbrev shown_progress : Progress
shown_progress = record {
  document_count = 2;
  not_started_count = 1;
  in_progress_count = 0;
  completed_count = 0;
  skipped_count = 1;
}

get_review_batch_run_progress-AddsUp_example : AddsUp skipped_run shown_progress
get_review_batch_run_progress-AddsUp_example =
    get_review_batch_run_progress-AddsUp outside.python everyone skipped_tables assigned_ready
      skipped_run 9 shown_progress
      (RunTrace-IsRecorded outside.python everyone ready_tables skipped_tables
        (next (next here (started 1 3 9 20 60 review_run refl start_run))
          (passed 1 3 20 5 9 70 skip_document))
        ready_tables-IsRecorded)
      (unfold matter_batch in refl) (unfold batch_run in refl) refl refl shown
  where
    shown :
        get_review_batch_run_progress outside.python everyone skipped_tables 1 3 20 9
        ≡ ok shown_progress
    shown = unfold get_review_batch_run_progress in refl

abbrev long_value : (run_id document_id n : ℕ) → RunValue
long_value run_id document_id n = record {
  run_id = run_id;
  document_id = document_id;
  definition_id = 8;
  ordinal = 0;
  columns = record {
    value_text = none;
    value_long = some (pos n);
    value_float = none;
    value_boolean = none;
    value_date = none;
    value_datetime = none;
    value_json = none;
  };
}

abbrev compared_tables : ReviewTables
compared_tables = record ready_tables {
  runs = review_run ∷ record review_run { id = 21 } ∷ [];
  values = long_value 20 5 1 ∷ long_value 21 5 1 ∷ long_value 20 7 2 ∷ [];
}

abbrev long_text_of : ValueColumns → List ℕ
long_text_of c = elim c.value_long [
  | none ↦ []
  | some z ↦ elim z [ pos n ↦ n ∷ [] | negsuc n ↦ [] ]
]

abbrev one_missing : FieldComparison
one_missing = record {
  definition_id = 8;
  compared_count = 1;
  match_count = 1;
  mismatch_count = 0;
  missing_left_count = 0;
  missing_right_count = 1;
  agreement = some (1, 1);
}

compare_runs :
    compare_review_batch_runs long_text_of everyone compared_tables 1 3 20 21 9
    ≡ ok (one_missing ∷ [])
unfolding compare_review_batch_runs
compare_runs = refl

compare_review_batch_runs-swapped_example :
    compare_review_batch_runs long_text_of everyone compared_tables 1 3 21 20 9
    ≡ ok (record one_missing { missing_left_count = 1; missing_right_count = 0 } ∷ [])
compare_review_batch_runs-swapped_example =
    compare_review_batch_runs-swapped long_text_of everyone compared_tables 1 3 20 21 9
      (one_missing ∷ []) compare_runs
