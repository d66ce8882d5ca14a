-- ===== src/Metadata/Examples.antt =====
-- Runs of the metadata model on small histories, and its theorems at these inputs.
use prv_application.Metadata.Store.Reading.{Shows, current_rows, current_rows-Shows}
use prv_application.Prelude.{
  All, List, Memᴰ, Option, [], any_of, codes_eq, codes_lt, flat_map, inl, inr, map, none, ok, pos,
  refl, some, sort_by, true, ℕ, ◌∷◌, ◌≡◌,
}
use prv_application.Metadata.Types.{
  AssertionPolicy, Cardinality, MetadataDefinition, MetadataEvent, Operation, ResolutionPolicy,
  SourceType, Value, ValueColumns, add, agent, asserted, clear, confirm, explicit_only, human,
  immediate, int, integer, latest_valid, multiple, reject, requires_confirmation, set, single,
}
use prv_application.Metadata.Resolve.{
  FieldResolution, ResolvedValue, alone, before, event_value, resolve_field, value_state,
}
use prv_application.Metadata.Resolve.Standing.{IsStanding, resolve_field-IsStanding}
use prv_application.Metadata.Resolve.Policies.{
  IsConfirmed, resolve_field-IsConfirmed, resolve_field-after_clear,
}
use prv_application.Metadata.Resolve.Grouping.{IsIncreasing}
use prv_application.Metadata.Resolve.Coverage.{carries}
use prv_application.Metadata.Resolve.Fields.{
  IsLatest, field_candidates, resolve_field-latest_valid, resolve_field-multiple,
}
use prv_application.Metadata.Values.{Conversions, value_columns}
use prv_application.Metadata.Values.Storing.{Stores, value_columns-Stores, value_columns-round_trip}
use prv_application.Metadata.Store.{
  Db, EventRequest, add_metadata_event, validate_event_relationships,
}
use prv_application.Metadata.Store.Projection.{IsProjected}
use prv_application.Metadata.Store.Appending.{
  Appends, add_metadata_event-Appends, add_metadata_event-IsProjected,
}
use prv_application.Metadata.Store.Checks.{IsAdmissible, validate_event_relationships-IsAdmissible}

-- Numbers stand for their own canonical text.
abbrev number_text : Option Value → List ℕ
number_text (some (int (pos n))) = n ∷ []
number_text _ = []

abbrev number : ℕ → ValueColumns
number n = record {
  value_text = none;
  value_long = some (pos n);
  value_float = none;
  value_boolean = none;
  value_date = none;
  value_datetime = none;
  value_json = none;
}

abbrev event_at : ℕ → Operation → SourceType → Option ℕ → ℕ → MetadataEvent
event_at n op source target value = record {
  id = n;
  document_id = 1;
  definition_id = 1;
  operation = op;
  source_type = source;
  created_at = n;
  target_event_id = target;
  supersedes_id = none;
  columns = number value;
}

abbrev field : Cardinality → AssertionPolicy → ResolutionPolicy → MetadataDefinition
field c a r = record {
  id = 1;
  matter_id = 1;
  key = "pages";
  type = integer;
  cardinality = c;
  allowed_values = [];
  value_source = asserted;
  assertion_policy = a;
  resolution_policy = r;
  is_active = true;
}

-- A rejected value, a CLEAR, then two values.
abbrev history : List MetadataEvent
history =
    event_at 1 set human none 4
    ∷ event_at 2 reject human (some 1) 0
    ∷ event_at 3 clear human none 0
    ∷ event_at 4 set human none 5
    ∷ event_at 5 set agent none 6
    ∷ event_at 6 confirm human (some 5) 0
    ∷ event_at 7 confirm human (some 3) 0
    ∷ []

abbrev additions : List MetadataEvent
additions =
    event_at 1 add human none 9 ∷ event_at 2 add agent none 4 ∷ event_at 3 add agent none 9 ∷ []

abbrev explicit : MetadataDefinition
explicit = field single immediate explicit_only

conflict : (resolve_field number_text history explicit).conflicting_event_ids ≡ 4 ∷ 5 ∷ []
unfolding resolve_field flat_map codes_eq codes_lt event_value
conflict = refl

two_numbers :
    map
      (λ (v : ResolvedValue). v.supporting_event_ids)
      (resolve_field number_text additions (field multiple immediate explicit_only)).values
    ≡ (2 ∷ []) ∷ (1 ∷ 3 ∷ []) ∷ []
unfolding resolve_field flat_map codes_eq codes_lt event_value
two_numbers = refl

resolve_field-IsStanding_example :
    let r = resolve_field number_text history explicit in
    All
      (λ v. IsStanding history v.event.id × All (IsStanding history) v.supporting_event_ids)
      r.values
    × All (λ e. IsStanding history e.id) r.pending_events
    × All (IsStanding history) r.conflicting_event_ids
resolve_field-IsStanding_example = resolve_field-IsStanding number_text history explicit

abbrev confirmed_field : MetadataDefinition
confirmed_field = field single requires_confirmation latest_valid

resolve_field-IsConfirmed_example :
    let r = resolve_field number_text history confirmed_field in
    All
      (λ v. IsConfirmed history v.event.id × All (IsConfirmed history) v.supporting_event_ids)
      r.values
    × All (IsConfirmed history) r.conflicting_event_ids
unfolding resolve_field flat_map codes_eq codes_lt event_value
resolve_field-IsConfirmed_example =
    resolve_field-IsConfirmed number_text history confirmed_field refl refl

abbrev the_clear : MetadataEvent
the_clear = event_at 3 clear human none 0

resolve_field-after_clear_example :
    All
      (λ v. before the_clear v.event ≡ true)
      (resolve_field number_text history confirmed_field).values
unfolding resolve_field flat_map codes_eq codes_lt event_value
resolve_field-after_clear_example =
    resolve_field-after_clear number_text history confirmed_field {c = the_clear} refl
      (Memᴰ.tail (Memᴰ.tail (Memᴰ.head refl))) refl
      (record { not_rejected = refl; not_removed = refl; not_superseded = refl })
      (inr (record { confirmed = refl; not_rejected = refl })) refl

resolve_field-multiple_example :
    let definition = field multiple immediate explicit_only in
    IsIncreasing number_text (resolve_field number_text additions definition).values
    × All
        (λ e.
          any_of (carries number_text e) (resolve_field number_text additions definition).values
          ≡ true)
        (field_candidates additions definition)
unfolding resolve_field flat_map codes_eq codes_lt event_value
resolve_field-multiple_example =
    resolve_field-multiple number_text additions (field multiple immediate explicit_only) refl refl

resolve_field-latest_valid_example :
    let definition = field single immediate latest_valid in
    (m : MetadataEvent) × ((resolve_field number_text history definition).state ≡ value_state)
    × ((resolve_field number_text history definition).values ≡ alone m ∷ [])
    × IsLatest number_text m (field_candidates history definition)
unfolding resolve_field flat_map codes_eq codes_lt event_value
resolve_field-latest_valid_example =
    resolve_field-latest_valid number_text history (field single immediate latest_valid) refl refl
      refl

abbrev no_parser : Conversions
no_parser = record {
  date_fromisoformat = λ s. none;
  datetime_fromisoformat = λ s. none;
  float_of_int = λ n. none;
}

value_columns-Stores_example : Stores explicit (number 7)
unfolding value_columns
value_columns-Stores_example = value_columns-Stores no_parser explicit (int (pos 7)) (number 7) refl

value_columns-round_trip_example :
    (c : ValueColumns) × (value_columns no_parser (int (pos 7)) explicit ≡ ok c)
    × (event_value c ≡ some (int (pos 7)))
value_columns-round_trip_example = value_columns-round_trip no_parser explicit (int (pos 7)) refl

abbrev tables : Db
tables = record {
  documents = record { id = 1; matter_id = 1 } ∷ [];
  definitions = explicit ∷ [];
  events = [];
  current = [];
}

abbrev request : EventRequest
request = record {
  matter_id = 1;
  document_id = 1;
  definition_id = 1;
  operation = set;
  value = int (pos 7);
  source_type = human;
  target_event_id = none;
  supersedes_id = none;
}

abbrev stored_event : MetadataEvent
stored_event = event_at 10 set human none 7

abbrev outcome : Db × MetadataEvent × FieldResolution
outcome = (
  record tables {
    events = stored_event ∷ [];
    current =
        record {
          document_id = 1;
          definition_id = 1;
          value_ordinal = 0;
          resolution_state = value_state;
          source_event_id = some 10;
          supporting_event_ids = 10 ∷ [];
          pending_event_ids = [];
          conflicting_event_ids = [];
          columns = number 7;
        }
        ∷ [];
  },
  stored_event,
  record {
    state = value_state;
    values = alone stored_event ∷ [];
    pending_events = [];
    conflicting_event_ids = [];
  },
)

added : add_metadata_event no_parser number_text tables request 10 10 ≡ ok outcome
unfolding add_metadata_event resolve_field flat_map
added = refl

tables-IsProjected : IsProjected number_text tables
unfolding sort_by
tables-IsProjected = record { unique = refl; agrees = λ d definition member. inl refl }

add_metadata_event-IsProjected_example : IsProjected number_text outcome.0
add_metadata_event-IsProjected_example =
    add_metadata_event-IsProjected no_parser number_text tables request 10 10 outcome
      tables-IsProjected added

add_metadata_event-Appends_example : Appends no_parser number_text tables request 10 10 outcome
add_metadata_event-Appends_example =
    add_metadata_event-Appends no_parser number_text tables request 10 10 outcome added

current_rows-Shows_example : Shows outcome.2 (current_rows outcome.0 1 1)
current_rows-Shows_example =
    current_rows-Shows no_parser number_text tables request 10 10 outcome added

validate_event_relationships-IsAdmissible_example :
    IsAdmissible
      (record tables { events = history })
      (record { id = 1; matter_id = 1 })
      explicit
      reject
      (some 4)
      none
unfolding validate_event_relationships
validate_event_relationships-IsAdmissible_example =
    validate_event_relationships-IsAdmissible (record tables { events = history })
      (record { id = 1; matter_id = 1 }) explicit reject (some 4) none refl
