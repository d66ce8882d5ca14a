-- ===== src/Metadata/Batch.antt =====
-- `apply_metadata_values` of app/document_metadata.py: the command that appends several values to a
-- multi-valued field, or replaces them, and resolves the field once.
pub mod Applying
mod Examples
use prv_application.Prelude.{
  Bool, List, Option, Result, [], any_of, err, false, if◌then◌else◌, is_empty, none, not, ok,
  refuse, require, select, some, suc, true, ℕ, ◌&&◌, ◌++◌, ◌+◌, ◌>>=◌, ◌>>◌, ◌∷◌,
}
use prv_application.Metadata.Types.{
  Cardinality, MetadataDefinition, MetadataEvent, Operation, SourceType, Value, ValueColumns, add,
  clear, container, multiple, single,
}
use prv_application.Metadata.Resolve.{FieldResolution}
use prv_application.Metadata.Values.{Conversions, no_columns, value_columns}
use prv_application.Metadata.Store.{
  Db, MatterDocument, MetadataError, as_invalid, definition_not_found, document_not_found,
  find_definition, find_document, found, project_field, validate_event_relationships,
}

-- The arguments of the command.
pub record BatchRequest : Type 0 where
  pub matter_id : ℕ
  pub document_id : ℕ
  pub definition_id : ℕ
  pub values : List Value
  pub replace : Bool
  pub source_type : SourceType

-- The errors of the single command, and the two that only this one raises: the field is not
-- multi-valued, and the TypeError of `dict.fromkeys` on a dict or a list.
pub data BatchError : Type 0 where
  refused : MetadataError → BatchError
  needs_multiple unhashable : BatchError

abbrev pub lifted {ℓ} : {A : Type ℓ} → Result MetadataError A → Result BatchError A
lifted (ok a) = ok a
lifted (err e) = err (refused e)

abbrev pub is_multiple : Cardinality → Bool
is_multiple multiple = true
is_multiple single = false

abbrev pub is_container : Value → Bool
is_container (container j) = true
is_container _ = false

-- `same` is Python's `==` on values, by which a dict tells its keys apart, `new_id` gives the id of
-- the event of an index, and `now` is `base_time` in microseconds.
module _ (python : Conversions) (canonical : Option Value → List ℕ) (same : Value → Value → Bool)
    (new_id : ℕ → ℕ) (now : ℕ) where
  -- The keys that `dict.fromkeys(values)` adds to those of `seen`.
  unfoldable pub new_keys : List Value → List Value → List Value
  new_keys seen [] = []
  new_keys seen (v ∷ vs) =
      let is_old = any_of (λ u. same u v) seen in
      let rest = new_keys (if is_old then seen else v ∷ seen) vs in
      if is_old then rest else v ∷ rest

  -- `dict.fromkeys(values)`: each value at its first place.
  unfoldable pub unique_values : List Value → List Value
  unfolding new_keys
  unique_values vs = new_keys [] vs

  abbrev pub batch_event :
      BatchRequest
      → MatterDocument
      → MetadataDefinition
      → Operation
      → ℕ
      → ValueColumns
      → MetadataEvent
  batch_event q document definition op index columns = record {
    id = new_id index;
    document_id = document.id;
    definition_id = definition.id;
    operation = op;
    source_type = q.source_type;
    created_at = now + index;
    target_event_id = none;
    supersedes_id = none;
    columns = columns;
  }

  -- The CLEAR of a replacement.
  unfoldable pub clear_events :
      Db
      → BatchRequest
      → MatterDocument
      → MetadataDefinition
      → Result BatchError (List MetadataEvent)
  unfolding validate_event_relationships no_columns
  clear_events db q document definition =
      if q.replace
      then lifted (validate_event_relationships db document definition clear none none)
        >> ok (batch_event q document definition clear 0 no_columns ∷ [])
      else ok []

  -- The loop over the values, from an index on.
  unfoldable pub add_events :
      Db
      → BatchRequest
      → MatterDocument
      → MetadataDefinition
      → ℕ
      → List Value
      → Result BatchError (List MetadataEvent)
  unfolding validate_event_relationships value_columns
  add_events db q document definition index [] = ok []
  add_events db q document definition index (v ∷ vs) = do
    lifted (validate_event_relationships db document definition add none none)
    columns ← lifted (as_invalid (value_columns python v definition))
    rest ← add_events db q document definition (suc index) vs
    ok (batch_event q document definition add index columns ∷ rest)

  abbrev pub BatchOutcome : Type 0
  BatchOutcome = Db × List MetadataEvent × Option FieldResolution

  unfoldable pub apply_events :
      Db → BatchRequest → MatterDocument → MetadataDefinition → Result BatchError BatchOutcome
  unfolding clear_events add_events unique_values project_field
  apply_events db q document definition = do
    cleared ← clear_events db q document definition
    refuse (any_of is_container q.values) unhashable
    added ← add_events db q document definition 1 (unique_values q.values)
    let new = cleared ++ added
    let (projected, resolution) =
        project_field canonical (record db { events = db.events ++ new }) document definition
    ok (projected, new, some resolution)

  unfoldable pub apply_metadata_values : Db → BatchRequest → Result BatchError BatchOutcome
  unfolding apply_events
  apply_metadata_values db q = do
    document ← lifted (found (find_document db q.document_id q.matter_id) document_not_found)
    definition ←
        lifted (found (find_definition db q.definition_id q.matter_id) definition_not_found)
    require (is_multiple definition.cardinality) needs_multiple
    (if not q.replace && is_empty q.values
        then ok (db, [], none)
        else apply_events db q document definition)
