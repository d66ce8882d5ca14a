-- ===== src/Metadata/Store/Appending.antt =====
-- The command that appends an event: what it checks, what it writes, and what it keeps.
use prv_application.Prelude.{
  Ensures, Ensures-at, Ensures-bind, List, Option, Result, [], ap, arith, err, err≢ok,
  find_first-Memᴰ, find_first-holds, if◌then◌else◌, none, ok, ok-injective, refl, some, sym, ℕ,
  ◌&&◌, ◌++◌, ◌==◌, ◌∷◌, ◌≡◌,
}
use prv_application.Metadata.Types.{
  MetadataDefinition, MetadataEvent, Operation, Value, ValueColumns, add, clear, confirm,
  in_value_operations, reject, remove, set,
}
use prv_application.Metadata.Resolve.{FieldResolution}
use prv_application.Metadata.Values.{Conversions, ValueError, no_columns, value_columns}
use prv_application.Metadata.Store.{
  Db, EventRequest, MatterDocument, MetadataError, add_metadata_event, as_invalid,
  definition_not_found, document_not_found, event_columns, find_definition, find_document, found,
  new_event, project_field, validate_event_relationships,
}
use prv_application.Metadata.Store.Projection.{IsProjected, appended-IsProjected}

pub found-ok :
    {A : Type 0} (o : Option A) (e : MetadataError) {a : A} → found o e ≡ ok a → o ≡ some a
found-ok none e h = absurd (err≢ok h)
found-ok (some a) e h = ap some (ok-injective h)

module _ (python : Conversions) (canonical : Option Value → List ℕ) (db : Db) (q : EventRequest)
    (id now : ℕ) where
  abbrev pub Outcome : Type 0
  Outcome = Db × MetadataEvent × FieldResolution

  -- A property of the result holds if it holds of what is stored for any document, definition and
  -- columns that pass the checks.
  pub add_metadata_event-Ensures :
      (P : Outcome → Type 0)
      → ((document : MatterDocument) (definition : MetadataDefinition) (columns : ValueColumns)
          → find_document db q.document_id q.matter_id ≡ some document
          → find_definition db q.definition_id q.matter_id ≡ some definition
          → validate_event_relationships db document definition q.operation q.target_event_id
              q.supersedes_id
            ≡ ok tt
          → let event = new_event python canonical q document definition id now columns in
            let after =
              project_field canonical
                (record db { events = db.events ++ event ∷ [] })
                document
                definition in
            event_columns python canonical q definition ≡ ok columns → P (after.0, event, after.1))
      → Ensures P (add_metadata_event python canonical db q id now)
  unfolding add_metadata_event
  add_metadata_event-Ensures P holds =
      Ensures-bind P (found (find_document db q.document_id q.matter_id) document_not_found) _
        λ document hd.
          Ensures-bind P
            (found (find_definition db q.definition_id q.matter_id) definition_not_found) _
            λ definition hf.
              Ensures-bind P
                (validate_event_relationships db document definition q.operation q.target_event_id
                  q.supersedes_id)
                _
                λ t hc. Ensures-bind P (event_columns python canonical q definition) _ λ columns hv.
                  holds document definition columns (found-ok _ _ hd) (found-ok _ _ hf) hc hv

  -- If every field that has events shows what they resolve to, and definitions have different ids,
  -- then this is so after any event has been appended.
  pub add_metadata_event-IsProjected :
      (r : Outcome)
      → IsProjected canonical db
      → add_metadata_event python canonical db q id now ≡ ok r
      → IsProjected canonical r.0
  add_metadata_event-IsProjected r v h =
      Ensures-at (λ x. IsProjected canonical x.0) (add_metadata_event python canonical db q id now)
        h
        (add_metadata_event-Ensures (λ x. IsProjected canonical x.0)
          λ document definition columns hd hf hc hv.
            appended-IsProjected canonical db document definition
              (new_event python canonical q document definition id now columns ∷ [])
              (find_first-Memᴰ
                (λ (f : MetadataDefinition). f.id == q.definition_id && f.matter_id == q.matter_id)
                db.definitions hf)
              (ground arith, tt) v)

  -- A SET or an ADD carries the columns of the given value, and any other event none.
  abbrev pub CarriesFor : Operation → MetadataDefinition → MetadataEvent → Type 0
  CarriesFor set f e = value_columns python q.value f ≡ ok e.columns
  CarriesFor add f e = value_columns python q.value f ≡ ok e.columns
  CarriesFor _ f e = e.columns ≡ no_columns

  abbrev pub Carries : MetadataDefinition → MetadataEvent → Type 0
  Carries f e = CarriesFor q.operation f e

  as_invalid-ok :
      (r : Result ValueError ValueColumns) {columns : ValueColumns}
      → as_invalid r ≡ ok columns
      → r ≡ ok columns
  as_invalid-ok (ok b) h = ap ok (ok-injective h)
  as_invalid-ok (err e) h = absurd (err≢ok h)

  carries_columns :
      (o : Operation) (f : MetadataDefinition) (e : MetadataEvent)
      → (if in_value_operations o
          then as_invalid (value_columns python q.value f)
          else ok no_columns)
        ≡ ok e.columns
      → CarriesFor o f e
  carries_columns set f e h = as_invalid-ok (value_columns python q.value f) h
  carries_columns add f e h = as_invalid-ok (value_columns python q.value f) h
  carries_columns remove f e h = sym (ok-injective h)
  carries_columns clear f e h = sym (ok-injective h)
  carries_columns confirm f e h = sym (ok-injective h)
  carries_columns reject f e h = sym (ok-injective h)

  pub record Appends (r : Outcome) : Type 0 where
    pub log : r.0.events ≡ db.events ++ r.1 ∷ []
    pub event_id : r.1.id ≡ id
    pub document : r.1.document_id ≡ q.document_id
    pub definition : r.1.definition_id ≡ q.definition_id
    pub operation : r.1.operation ≡ q.operation
    pub source : r.1.source_type ≡ q.source_type
    pub target : r.1.target_event_id ≡ q.target_event_id
    pub superseded : r.1.supersedes_id ≡ q.supersedes_id
    pub time : r.1.created_at ≡ now
    pub value :
        (f : MetadataDefinition) × (find_definition db q.definition_id q.matter_id ≡ some f)
        × Carries f r.1
    pub documents : r.0.documents ≡ db.documents
    pub definitions : r.0.definitions ≡ db.definitions

  -- A successful call appends one event, with the id, time, document, field, operation, source,
  -- target and superseded event that were asked for; a SET or an ADD has the checked columns of the
  -- given value, any other event has no value. No earlier event, document or definition changes.
  pub add_metadata_event-Appends :
      (r : Outcome) → add_metadata_event python canonical db q id now ≡ ok r → Appends r
  add_metadata_event-Appends r h =
      Ensures-at Appends (add_metadata_event python canonical db q id now) h (
        add_metadata_event-Ensures Appends λ document definition columns hd hf hc hv.
          unfold project_field in
          let d =
            find_first-holds
              (λ (x : MatterDocument). x.id == q.document_id && x.matter_id == q.matter_id)
              db.documents hd in
          let f =
            find_first-holds
              (λ (x : MetadataDefinition). x.id == q.definition_id && x.matter_id == q.matter_id)
              db.definitions hf in
          record {
            log = refl;
            event_id = refl;
            document = ground arith;
            definition = ground arith;
            operation = refl;
            source = refl;
            target = refl;
            superseded = refl;
            time = refl;
            value = (
              definition,
              hf,
              carries_columns q.operation definition
                  (new_event python canonical q document definition id now columns) hv,
            );
            documents = refl;
            definitions = refl;
          })
