-- ===== src/Metadata/Store/Checks.antt =====
-- What `validate_event_relationships` lets through.
use prv_application.Prelude.{
  Option, arith, err≢ok, none, ok, refl, some, some-injective, subst, true, ℕ, ◌≡◌, ◌≢◌, ◌⊎◌,
}
use prv_application.Metadata.Types.{
  MetadataDefinition, MetadataEvent, Operation, add, asserted, clear, in_assertion_operations,
  multiple, remove, set, single,
}
use prv_application.Metadata.Store.{
  Db, MatterDocument, check_superseded, check_superseded_event, check_target, check_target_event,
  get_event, is_decision, is_event_of, validate_event_relationships,
}

-- What an event may name as its target.
pub record TargetFits (db : Db) (d f : ℕ) (op : Operation) (i : ℕ) : Type 0 where
  pub target : MetadataEvent
  pub stored : get_event db i ≡ some target
  pub same_field : is_event_of d f target ≡ true
  pub remove_takes_add : op ≡ remove → target.operation ≡ add
  pub decision_takes_assertion :
      is_decision op ≡ true → in_assertion_operations target.operation ≡ true

pub record SupersededFits (db : Db) (d f : ℕ) (i : ℕ) : Type 0 where
  pub superseded : MetadataEvent
  pub stored : get_event db i ≡ some superseded
  pub same_field : is_event_of d f superseded ≡ true
  pub set_or_clear : (superseded.operation ≡ set) ⊎ (superseded.operation ≡ clear)

-- The rules for a new event.
pub record IsAdmissible (db : Db) (document : MatterDocument) (definition : MetadataDefinition)
    (op : Operation) (target_event_id supersedes_id : Option ℕ) : Type 0 where
  pub matter_owned : definition.value_source ≡ asserted
  pub active_field : definition.is_active ≡ true
  pub single_operations : definition.cardinality ≡ single → (op ≢ add) × (op ≢ remove)
  pub multiple_operations : definition.cardinality ≡ multiple → op ≢ set
  pub target_fits :
      (i : ℕ) → target_event_id ≡ some i → TargetFits db document.id definition.id op i
  pub superseded_fits :
      (i : ℕ) → supersedes_id ≡ some i → SupersededFits db document.id definition.id i

module _ (db : Db) (d f : ℕ) (op : Operation) where
  target_event-Fits :
      (i : ℕ) (o : Option MetadataEvent)
      → get_event db i ≡ o
      → check_target_event d f op o ≡ ok tt
      → TargetFits db d f op i
  unfolding check_target_event
  target_event-Fits i none e h = absurd (err≢ok h)
  target_event-Fits i (some x) e h = record {
    target = x;
    stored = e;
    same_field = ground arith;
    remove_takes_add = λ r. ground arith;
    decision_takes_assertion = λ r. ground arith;
  }

  target-Fits :
      (o : Option ℕ)
      → check_target db d f op o ≡ ok tt
      → (i : ℕ) → o ≡ some i
      → TargetFits db d f op i
  unfolding check_target
  target-Fits none h i e = cc
  target-Fits (some j) h i e =
      subst (TargetFits db d f op) (some-injective j i e)
        (target_event-Fits j (get_event db j) refl h)

  superseded_event-Fits :
      (i : ℕ) (o : Option MetadataEvent)
      → get_event db i ≡ o
      → check_superseded_event d f o ≡ ok tt
      → SupersededFits db d f i
  unfolding check_superseded_event
  superseded_event-Fits i none e h = absurd (err≢ok h)
  superseded_event-Fits i (some x) e h = record {
    superseded = x;
    stored = e;
    same_field = ground arith;
    set_or_clear = ground arith;
  }

  superseded-Fits :
      (o : Option ℕ)
      → check_superseded db d f o ≡ ok tt
      → (i : ℕ) → o ≡ some i
      → SupersededFits db d f i
  unfolding check_superseded
  superseded-Fits none h i e = cc
  superseded-Fits (some j) h i e =
      subst (SupersededFits db d f) (some-injective j i e)
        (superseded_event-Fits j (get_event db j) refl h)

-- An event that passes the checks is on an active, matter-owned field, has an operation that the
-- field's cardinality allows, and names as target or as superseded only a stored event of the same
-- document and field whose own operation it may act on.
pub validate_event_relationships-IsAdmissible :
    (db : Db) (document : MatterDocument) (definition : MetadataDefinition) (op : Operation)
    (target_event_id supersedes_id : Option ℕ)
    → validate_event_relationships db document definition op target_event_id supersedes_id ≡ ok tt
    → IsAdmissible db document definition op target_event_id supersedes_id
unfolding validate_event_relationships
validate_event_relationships-IsAdmissible db document definition op target_event_id supersedes_id
      h =
    record {
      matter_owned = ground arith;
      active_field = ground arith;
      single_operations = λ s. (λ e. ground arith, λ e. ground arith);
      multiple_operations = λ s. λ e. ground arith;
      target_fits = target-Fits db document.id definition.id op target_event_id (ground arith);
      superseded_fits =
          superseded-Fits db document.id definition.id op supersedes_id (ground arith);
    }
