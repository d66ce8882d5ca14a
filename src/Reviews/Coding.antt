-- ===== src/Reviews/Coding.antt =====
-- The calls of app/routers/review_batches.py that record the documents of a run: the values of a
-- document, a skipped document, the end of a run, and its progress.
use prv_application.Metadata.Types.{
  Cardinality, MetadataDefinition, Value, ValueColumns, multiple, single,
}
use prv_application.Metadata.Values.{Conversions, ValueError, value_columns}
use prv_application.Reviews.{
  BatchDocument, CodingField, DocumentStatus, ReviewBatch, ReviewError, ReviewRun, ReviewTables,
  RunDocument, RunValue, completed, in_progress, no_run, not_coding_field, not_member, not_reviewer,
  not_running, one_value, other_document, put_run, refused_value, reviewed, skipped,
}
use prv_application.Reviews.Runs.{
  admitted_matter, batch_run, closed_of, is_barred, is_running, matter_batch,
}
use prv_application.Prelude.{
  Bool, List, Option, Result, [], any_of, err, false, find_first, if◌then◌else◌, leb, length, ltb,
  not, ok, refuse, require, select, some, some_or, suc, true, ℕ, ◌&&◌, ◌++◌, ◌-◌, ◌==◌, ◌>>=◌, ◌>>◌,
  ◌∷◌,
}

abbrev pub row_of : ℕ → ℕ → RunDocument → Bool
row_of run_id document_id d = (d.run_id == run_id) && (d.document_id == document_id)

-- The row that `db.get` finds is changed, or a new one is added.
unfoldable pub marked_rows :
    (run_id document_id : ℕ) → DocumentStatus → ℕ → List RunDocument → List RunDocument
marked_rows run_id document_id status now [] =
    record {
      run_id = run_id;
      document_id = document_id;
      status = status;
      started_at = now;
      completed_at = some now;
    }
    ∷ []
marked_rows run_id document_id status now (d ∷ ds) =
    let rest = marked_rows run_id document_id status now ds in
    if row_of run_id document_id d
    then record d { status = status; completed_at = some now } ∷ ds
    else d ∷ rest

-- `refresh_run_document_count` on the row of the run.
unfoldable pub refreshed : List RunDocument → ReviewRun → ReviewRun
refreshed rows r = record r { processed_document_count = length (select (closed_of r.id) rows) }

unfoldable pub refresh_run_document_count : ReviewTables → ℕ → Result ReviewError (ReviewTables × ℕ)
unfolding refreshed put_run
refresh_run_document_count db run_id = do
  r ← some_or (find_first (λ (r : ReviewRun). r.id == run_id) db.runs) no_run
  let s = refreshed db.run_documents r
  ok (record db { runs = put_run s db.runs }, s.processed_document_count)

-- A run with all documents of its batch processed is completed.
unfoldable pub ended : ReviewBatch → ℕ → ReviewRun → ReviewRun
ended b now r =
    if leb b.document_count r.processed_document_count
    then record r { status = completed; completed_at = some now }
    else r

-- What a saved or skipped document changes: its row, the count of the run, and its end.
unfoldable pub record_document :
    ReviewTables → ReviewBatch → ReviewRun → ℕ → DocumentStatus → ℕ → ReviewTables
unfolding marked_rows refreshed ended put_run
record_document db b r document_id status now =
    let rows = marked_rows r.id document_id status now db.run_documents in
    record db { run_documents = rows; runs = put_run (ended b now (refreshed rows r)) db.runs }

-- ReviewBatchRunFieldValue
pub record FieldValues : Type 0 where
  pub definition_id : ℕ
  pub values : List Value

abbrev pub value_of : (run_id document_id definition_id : ℕ) → RunValue → Bool
value_of run_id document_id definition_id v =
    (v.run_id == run_id) && (v.document_id == document_id) && (v.definition_id == definition_id)

abbrev pub is_single : Cardinality → Bool
is_single single = true
is_single multiple = false

abbrev pub is_row_in : ℕ → ℕ → BatchDocument → Bool
is_row_in batch_id document_id m =
    (m.review_batch_id == batch_id) && (m.matter_document_id == document_id)

abbrev pub is_coding_field : ReviewTables → ℕ → ℕ → Bool
is_coding_field db batch_id definition_id =
    any_of
      (λ (c : CodingField). (c.review_batch_id == batch_id) && (c.definition_id == definition_id))
      db.coding_fields

abbrev pub matter_definition : ReviewTables → ℕ → ℕ → Option MetadataDefinition
matter_definition db matter_id definition_id =
    find_first (λ (d : MetadataDefinition). (d.id == definition_id) && (d.matter_id == matter_id))
      db.definitions

abbrev pub columns_or : Result ValueError ValueColumns → Result ReviewError ValueColumns
columns_or (err e) = err (refused_value e)
columns_or (ok c) = ok c

-- ReviewBatchRunProgressRead
pub record Progress : Type 0 where
  pub document_count : ℕ
  pub not_started_count : ℕ
  pub in_progress_count : ℕ
  pub completed_count : ℕ
  pub skipped_count : ℕ

abbrev pub is_in_progress : DocumentStatus → Bool
is_in_progress in_progress = true
is_in_progress _ = false

abbrev pub is_reviewed : DocumentStatus → Bool
is_reviewed reviewed = true
is_reviewed _ = false

abbrev pub is_skipped : DocumentStatus → Bool
is_skipped skipped = true
is_skipped _ = false

-- One group of the count by status.
abbrev pub status_count : (DocumentStatus → Bool) → ℕ → List RunDocument → ℕ
status_count p run_id rows =
    length (select (λ (d : RunDocument). (d.run_id == run_id) && p d.status) rows)

-- `max(0, n)` of a difference is the difference of natural numbers.
unfoldable pub progress_of : ReviewBatch → ReviewRun → List RunDocument → Progress
progress_of b r rows =
    let open_rows = status_count is_in_progress r.id rows in
    let coded = status_count is_reviewed r.id rows in
    let left = status_count is_skipped r.id rows in
    record {
      document_count = b.document_count;
      not_started_count = b.document_count - open_rows - coded - left;
      in_progress_count = open_rows;
      completed_count = coded;
      skipped_count = left;
    }

module _ (python : Conversions) (may_admin : ℕ → ℕ → Bool) where
  -- `enumerate(field.values)` from `n`.
  unfoldable pub value_rows :
      (run_id document_id : ℕ)
      → MetadataDefinition
      → ℕ
      → List Value
      → Result ReviewError (List RunValue)
  unfolding value_columns
  value_rows run_id document_id d n [] = ok []
  value_rows run_id document_id d n (v ∷ vs) = do
    columns ← columns_or (value_columns python v d)
    rest ← value_rows run_id document_id d (suc n) vs
    ok (
        record {
          run_id = run_id;
          document_id = document_id;
          definition_id = d.id;
          ordinal = n;
          columns = columns;
        }
        ∷ rest)

  unfoldable pub replace_fields :
      ReviewTables
      → (matter_id batch_id run_id document_id : ℕ) → List FieldValues
      → List RunValue
      → Result ReviewError (List RunValue)
  unfolding value_rows
  replace_fields db matter_id batch_id run_id document_id [] values = ok values
  replace_fields db matter_id batch_id run_id document_id (f ∷ fs) values = do
    require (is_coding_field db batch_id f.definition_id) not_coding_field
    d ← some_or (matter_definition db matter_id f.definition_id) not_coding_field
    refuse (is_single d.cardinality && ltb 1 (length f.values)) one_value
    rows ← value_rows run_id document_id d 0 f.values
    replace_fields db matter_id batch_id run_id document_id fs
        (select (λ v. not (value_of run_id document_id d.id v)) values ++ rows)

  unfoldable pub replace_review_batch_run_values :
      ReviewTables
      → (matter_id batch_id run_id document_id : ℕ) → (body_document_id : ℕ) → List FieldValues
      → (user now : ℕ) → Result ReviewError ReviewTables
  unfolding admitted_matter matter_batch batch_run replace_fields record_document
  replace_review_batch_run_values db matter_id batch_id run_id document_id body_document_id fields
        user now =
      do
        matter ← admitted_matter may_admin db user matter_id
        b ← matter_batch db matter_id batch_id
        r ← batch_run db b.id run_id
        require (is_running r.status) not_running
        refuse (is_barred r user) not_reviewer
        require (body_document_id == document_id) other_document
        require (any_of (is_row_in b.id document_id) db.members) not_member
        values ← replace_fields db matter_id b.id r.id document_id fields db.values
        ok (record_document (record db { values = values }) b r document_id reviewed now)

  unfoldable pub skip_review_batch_document :
      ReviewTables
      → (matter_id batch_id run_id document_id : ℕ) → (user now : ℕ)
      → Result ReviewError ReviewTables
  unfolding admitted_matter matter_batch batch_run record_document
  skip_review_batch_document db matter_id batch_id run_id document_id user now = do
    matter ← admitted_matter may_admin db user matter_id
    b ← matter_batch db matter_id batch_id
    r ← batch_run db b.id run_id
    require (is_running r.status) not_running
    refuse (is_barred r user) not_reviewer
    require (any_of (is_row_in b.id document_id) db.members) not_member
    ok (record_document db b r document_id skipped now)

  unfoldable pub complete_review_batch_run :
      ReviewTables
      → (matter_id batch_id run_id : ℕ) → (user now : ℕ)
      → Result ReviewError (ReviewTables × ReviewRun)
  unfolding admitted_matter matter_batch batch_run put_run
  complete_review_batch_run db matter_id batch_id run_id user now = do
    matter ← admitted_matter may_admin db user matter_id
    b ← matter_batch db matter_id batch_id
    r ← batch_run db b.id run_id
    refuse (is_barred r user) not_reviewer
    let s = record r { status = completed; completed_at = some now }
    ok (if is_running r.status then (record db { runs = put_run s db.runs }, s) else (db, r))

  unfoldable pub get_review_batch_run_progress :
      ReviewTables → (matter_id batch_id run_id user : ℕ) → Result ReviewError Progress
  unfolding admitted_matter matter_batch batch_run progress_of
  get_review_batch_run_progress db matter_id batch_id run_id user = do
    matter ← admitted_matter may_admin db user matter_id
    b ← matter_batch db matter_id batch_id
    r ← batch_run db b.id run_id
    refuse (is_barred r user) not_reviewer
    ok (progress_of b r db.run_documents)
