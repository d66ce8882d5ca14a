-- ===== src/Metadata/Batch/Examples.antt =====
-- A run of the batch command on a field of tags, and its theorems at this input.
use prv_application.Prelude.{
  Bool, List, Option, [], false, inl, none, ok, pos, refl, some, sort_by, true, ℕ, ◌+◌, ◌==◌, ◌∷◌,
  ◌≡◌,
}
use prv_application.Metadata.Types.{
  MetadataDefinition, MetadataEvent, Operation, Value, ValueColumns, add, agent, asserted, clear,
  explicit_only, immediate, int, integer, multiple,
}
use prv_application.Metadata.Values.{Conversions, no_columns}
use prv_application.Metadata.Store.{Db, project_field}
use prv_application.Metadata.Store.Projection.{IsProjected}
use prv_application.Metadata.Batch.{BatchOutcome, BatchRequest, apply_metadata_values}
use prv_application.Metadata.Batch.Applying.{
  AppliesBatch, apply_metadata_values-AppliesBatch, apply_metadata_values-IsProjected,
}

abbrev tags : MetadataDefinition
tags = record {
  id = 1;
  matter_id = 1;
  key = "tags";
  type = integer;
  cardinality = multiple;
  allowed_values = [];
  value_source = asserted;
  assertion_policy = immediate;
  resolution_policy = explicit_only;
  is_active = true;
}

abbrev no_parser : Conversions
no_parser = record {
  date_fromisoformat = λ _. none;
  datetime_fromisoformat = λ _. none;
  float_of_int = λ _. none;
}

abbrev number_text : Option Value → List ℕ
number_text (some (int (pos n))) = n ∷ []
number_text _ = []

abbrev same_number : Value → Value → Bool
same_number (int (pos m)) (int (pos n)) = m == n
same_number _ _ = false

abbrev offset : ℕ → ℕ
offset i = 10 + i

abbrev long_column : ℕ → ValueColumns
long_column n = record {
  value_text = none;
  value_long = some (pos n);
  value_float = none;
  value_boolean = none;
  value_date = none;
  value_datetime = none;
  value_json = none;
}

abbrev tables : Db
tables = record {
  documents = record { id = 1; matter_id = 1 } ∷ [];
  definitions = tags ∷ [];
  events = [];
  current = [];
}

abbrev request : BatchRequest
request = record {
  matter_id = 1;
  document_id = 1;
  definition_id = 1;
  values = int (pos 7) ∷ int (pos 5) ∷ int (pos 7) ∷ [];
  replace = true;
  source_type = agent;
}

abbrev event_of : Operation → ℕ → ValueColumns → MetadataEvent
event_of op index columns = record {
  id = 10 + index;
  document_id = 1;
  definition_id = 1;
  operation = op;
  source_type = agent;
  created_at = 100 + index;
  target_event_id = none;
  supersedes_id = none;
  columns = columns;
}

abbrev new_events : List MetadataEvent
new_events =
    event_of clear 0 no_columns
    ∷ event_of add 1 (long_column 7)
    ∷ event_of add 2 (long_column 5)
    ∷ []

abbrev result : BatchOutcome no_parser number_text same_number offset 100
result =
    let (projected, resolution) =
      project_field number_text (record tables { events = new_events })
        (record { id = 1; matter_id = 1 }) tags in
    (projected, new_events, some resolution)

applied :
    apply_metadata_values no_parser number_text same_number offset 100 tables request ≡ ok result
unfolding apply_metadata_values no_columns
applied = refl

tables-IsProjected : IsProjected number_text tables
unfolding sort_by
tables-IsProjected = record { unique = refl; agrees = λ d definition member. inl refl }

apply_metadata_values-IsProjected_example : IsProjected number_text result.0
apply_metadata_values-IsProjected_example =
    apply_metadata_values-IsProjected no_parser number_text same_number offset 100 tables request
      result tables-IsProjected applied

apply_metadata_values-AppliesBatch_example :
    AppliesBatch no_parser number_text same_number offset 100 tables request result
apply_metadata_values-AppliesBatch_example =
    apply_metadata_values-AppliesBatch no_parser number_text same_number offset 100 tables request
      result refl applied
