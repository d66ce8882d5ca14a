-- ===== src/Metadata/Store.antt =====
-- The transactional half of app/document_metadata.py: the event table, the projection of current
-- values, and the command that appends an event.
-- A column that this module stores and never reads (source_id, actor_id, agent_run_id, confidence)
-- is left out. The database's new ids and its clock are arguments. A raise leaves the tables as
-- they were, since every check stands before the first write.
pub mod Projection
pub mod Appending
pub mod Checks
pub mod Reading
use prv_application.Prelude.{
  Bool, List, Option, Result, [], err, false, find_first, if◌then◌else◌, is_empty, map, none, not,
  ok, refuse, require, select, some, sort_by, suc, true, ℕ, ◌&&◌, ◌++◌, ◌==◌, ◌>>=◌, ◌>>◌, ◌||◌,
  ◌∷◌,
}
use prv_application.Metadata.Types.{
  Cardinality, MetadataDefinition, MetadataEvent, Operation, SourceType, Value, ValueColumns,
  ValueSource, add, asserted, clear, confirm, in_assertion_operations, in_value_operations, is_op,
  multiple, reject, remove, set, single,
}
use prv_application.Metadata.Resolve.{
  FieldResolution, ResolutionState, ResolvedValue, before, resolve_field,
}
use prv_application.Metadata.Values.{Conversions, ValueError, no_columns, value_columns}

pub record MatterDocument : Type 0 where
  pub id : ℕ
  pub matter_id : ℕ

-- DocumentMetadataCurrent
pub record CurrentRow : Type 0 where
  pub document_id : ℕ
  pub definition_id : ℕ
  pub value_ordinal : ℕ
  pub resolution_state : ResolutionState
  pub source_event_id : Option ℕ
  pub supporting_event_ids : List ℕ
  pub pending_event_ids : List ℕ
  pub conflicting_event_ids : List ℕ
  pub columns : ValueColumns

pub record Db : Type 0 where
  pub documents : List MatterDocument
  pub definitions : List MetadataDefinition
  pub events : List MetadataEvent
  pub current : List CurrentRow

pub data MetadataError : Type 0 where
  document_not_found definition_not_found read_only not_active : MetadataError
  single_uses_set multiple_uses_add : MetadataError
  foreign_target remove_needs_add needs_assertion foreign_superseded : MetadataError
  invalid_value : ValueError → MetadataError

-- The rows of one document and field.
abbrev pub is_event_of : ℕ → ℕ → MetadataEvent → Bool
is_event_of d f e = e.document_id == d && e.definition_id == f

abbrev pub is_row_of : ℕ → ℕ → CurrentRow → Bool
is_row_of d f r = r.document_id == d && r.definition_id == f

abbrev pub event_id : MetadataEvent → ℕ
event_id e = e.id

-- One row for each value, numbered from `ordinal`.
unfoldable pub value_rows : ℕ → ℕ → FieldResolution → ℕ → List ResolvedValue → List CurrentRow
value_rows d f r ordinal [] = []
value_rows d f r ordinal (v ∷ vs) =
    record {
      document_id = d;
      definition_id = f;
      value_ordinal = ordinal;
      resolution_state = r.state;
      source_event_id = some v.event.id;
      supporting_event_ids = v.supporting_event_ids;
      pending_event_ids = map event_id r.pending_events;
      conflicting_event_ids = r.conflicting_event_ids;
      columns = v.event.columns;
    }
    ∷ value_rows d f r (suc ordinal) vs

-- The rows of a resolution: a single empty one if it has no values.
unfoldable pub projected_rows : ℕ → ℕ → FieldResolution → List CurrentRow
unfolding value_rows no_columns
projected_rows d f r =
    if is_empty r.values
    then record {
      document_id = d;
      definition_id = f;
      value_ordinal = 0;
      resolution_state = r.state;
      source_event_id = none;
      supporting_event_ids = [];
      pending_event_ids = map event_id r.pending_events;
      conflicting_event_ids = r.conflicting_event_ids;
      columns = no_columns;
    }
      ∷ []
    else value_rows d f r 0 r.values

-- `db.get(MetadataEvent, id)`
abbrev pub get_event : Db → ℕ → Option MetadataEvent
get_event db i = find_first (λ (e : MetadataEvent). e.id == i) db.events

abbrev is_single : Cardinality → Bool
is_single single = true
is_single multiple = false

abbrev is_asserted : ValueSource → Bool
is_asserted asserted = true
is_asserted _ = false

abbrev is_decision : Operation → Bool
is_decision op = is_op op confirm || is_op op reject

check_target_event : ℕ → ℕ → Operation → Option MetadataEvent → Result MetadataError (Unit {0})
check_target_event d f op none = err foreign_target
check_target_event d f op (some target) = do
  require (is_event_of d f target) foreign_target
  refuse (is_op op remove && not (is_op target.operation add)) remove_needs_add
  refuse (is_decision op && not (in_assertion_operations target.operation)) needs_assertion
  ok tt

check_superseded_event : ℕ → ℕ → Option MetadataEvent → Result MetadataError (Unit {0})
check_superseded_event d f none = err foreign_superseded
check_superseded_event d f (some e) =
    require (is_event_of d f e && (is_op e.operation set || is_op e.operation clear))
      foreign_superseded

check_target : Db → ℕ → ℕ → Operation → Option ℕ → Result MetadataError (Unit {0})
unfolding check_target_event
check_target db d f op none = ok tt
check_target db d f op (some i) = check_target_event d f op (get_event db i)

check_superseded : Db → ℕ → ℕ → Option ℕ → Result MetadataError (Unit {0})
unfolding check_superseded_event
check_superseded db d f none = ok tt
check_superseded db d f (some i) = check_superseded_event d f (get_event db i)

unfoldable pub validate_event_relationships :
    Db
    → MatterDocument
    → MetadataDefinition
    → Operation
    → Option ℕ
    → Option ℕ
    → Result MetadataError (Unit {0})
unfolding check_target check_superseded
validate_event_relationships db document definition operation target_event_id supersedes_id = do
  require (is_asserted definition.value_source) read_only
  require definition.is_active not_active
  refuse (is_single definition.cardinality && (is_op operation add || is_op operation remove))
      single_uses_set
  refuse (not (is_single definition.cardinality) && is_op operation set) multiple_uses_add
  check_target db document.id definition.id operation target_event_id
  check_superseded db document.id definition.id supersedes_id

-- The arguments of `add_metadata_event`.
pub record EventRequest : Type 0 where
  pub matter_id : ℕ
  pub document_id : ℕ
  pub definition_id : ℕ
  pub operation : Operation
  pub value : Value
  pub source_type : SourceType
  pub target_event_id : Option ℕ
  pub supersedes_id : Option ℕ

abbrev pub find_document : Db → ℕ → ℕ → Option MatterDocument
find_document db i m =
    find_first (λ (d : MatterDocument). d.id == i && d.matter_id == m) db.documents

abbrev pub find_definition : Db → ℕ → ℕ → Option MetadataDefinition
find_definition db i m =
    find_first (λ (f : MetadataDefinition). f.id == i && f.matter_id == m) db.definitions

abbrev pub found {ℓ} : {A : Type ℓ} → Option A → MetadataError → Result MetadataError A
found none e = err e
found (some a) e = ok a

abbrev pub as_invalid : Result ValueError ValueColumns → Result MetadataError ValueColumns
as_invalid (ok c) = ok c
as_invalid (err e) = err (invalid_value e)

-- The events of the document and field, `ORDER BY created_at, id`.
abbrev pub field_events : Db → ℕ → ℕ → List MetadataEvent
field_events db d f = sort_by before (select (is_event_of d f) db.events)

module _ (canonical : Option Value → List ℕ) where
  unfoldable pub project_field : Db → MatterDocument → MetadataDefinition → Db × FieldResolution
  unfolding projected_rows sort_by
  project_field db document definition =
      let resolution =
        resolve_field canonical (field_events db document.id definition.id) definition in
      (
        record db {
          current =
              select (λ r. not (is_row_of document.id definition.id r)) db.current
              ++ projected_rows document.id definition.id resolution;
        },
        resolution,
      )

module _ (python : Conversions) (canonical : Option Value → List ℕ) where
  abbrev event_columns : EventRequest → MetadataDefinition → Result MetadataError ValueColumns
  event_columns q definition =
      if in_value_operations q.operation
      then as_invalid (value_columns python q.value definition)
      else ok no_columns

  abbrev pub new_event :
      EventRequest → MatterDocument → MetadataDefinition → ℕ → ℕ → ValueColumns → MetadataEvent
  new_event q document definition id now columns = record {
    id = id;
    document_id = document.id;
    definition_id = definition.id;
    operation = q.operation;
    source_type = q.source_type;
    created_at = now;
    target_event_id = q.target_event_id;
    supersedes_id = q.supersedes_id;
    columns = columns;
  }

  unfoldable pub add_metadata_event :
      Db → EventRequest → (id now : ℕ) → Result MetadataError (Db × MetadataEvent × FieldResolution)
  unfolding validate_event_relationships project_field value_columns
  add_metadata_event db q id now = do
    document ← found (find_document db q.document_id q.matter_id) document_not_found
    definition ← found (find_definition db q.definition_id q.matter_id) definition_not_found
    validate_event_relationships db document definition q.operation q.target_event_id
        q.supersedes_id
    columns ← event_columns q definition
    let event = new_event q document definition id now columns
    let stored = record db { events = db.events ++ event ∷ [] }
    let (projected, resolution) = project_field canonical stored document definition
    ok (projected, event, resolution)
