-- ===== src/Metadata/Batch/Applying.antt =====
-- What a batch of values appends, and that it keeps the projection.
use prv_application.Metadata.Store.Projection.{IsProjected, appended-IsProjected}
use prv_application.Metadata.Store.Appending.{found-ok}
use prv_application.Prelude.{
  >>=-eq-ok, All, All-append, All-mono, AllPairs, Memᴰ, find_first-holds, ◌⊎◌, Bool, Bool-cases,
  List, Option, Result, [], any_of, ap, arith, err, err≢ok, false, find_first-Memᴰ, if◌then◌else◌,
  inl, inr, is_empty, none, not, ok, ok-injective, refl, refuse, require, some, subst, suc, true, ℕ,
  ◌&&◌, ◌++◌, ◌+◌, ◌==◌, ◌∷◌, ◌≡◌,
}
use prv_application.Metadata.Types.{
  MetadataDefinition, MetadataEvent, Value, ValueColumns, add, clear,
}
use prv_application.Metadata.Values.{Conversions, ValueError, no_columns, value_columns}
use prv_application.Metadata.Store.{
  Db, MatterDocument, MetadataError, as_invalid, definition_not_found, document_not_found,
  find_definition, find_document, found, is_event_of, project_field, validate_event_relationships,
}
use prv_application.Metadata.Batch.{
  BatchOutcome, BatchRequest, add_events, apply_events, apply_metadata_values, batch_event,
  new_keys, clear_events, is_container, is_multiple, lifted, needs_multiple, unhashable,
  unique_values,
}

pub lifted-ok : {A : Type 0} (r : Result MetadataError A) {a : A} → lifted r ≡ ok a → r ≡ ok a
lifted-ok (ok b) h = ap ok (ok-injective h)
lifted-ok (err e) h = absurd (err≢ok h)

as_invalid-ok :
    (r : Result ValueError ValueColumns) {columns : ValueColumns}
    → as_invalid r ≡ ok columns
    → r ≡ ok columns
as_invalid-ok (ok b) h = ap ok (ok-injective h)
as_invalid-ok (err e) h = absurd (err≢ok h)

module _ (python : Conversions) (canonical : Option Value → List ℕ) (same : Value → Value → Bool)
    (new_id : ℕ → ℕ) (now : ℕ) where
  -- The first list is the second with some values left out.
  pub data IsPart : List Value → List Value → Type 0 where
    part_nil : IsPart [] []
    part_keep : (v : Value) (us vs : List Value) → IsPart us vs → IsPart (v ∷ us) (v ∷ vs)
    part_drop : (v : Value) (us vs : List Value) → IsPart us vs → IsPart us (v ∷ vs)

  abbrev pub Differ : Value → Value → Type 0
  Differ u v = same u v ≡ false

  -- The value, or one that Python takes for the same.
  abbrev pub Occurs : List Value → Value → Type 0
  Occurs us v = (u : Value) × Memᴰ u us × ((u ≡ v) ⊎ (same u v ≡ true))

  -- The values in their order, without those that are the same as an earlier one.
  pub record Uniques (vs us : List Value) : Type 0 where
    pub part : IsPart us vs
    pub differ : AllPairs Differ us
    pub complete : All (Occurs us) vs

  record NewKeys (seen vs us : List Value) : Type 0 where
    within : IsPart us vs
    fresh : All (λ w. any_of (λ u. same u w) seen ≡ false) us
    distinct_keys : AllPairs Differ us
    kept : All (λ v. (any_of (λ u. same u v) seen ≡ true) ⊎ Occurs us v) vs

  any_of-cons :
      (v w : Value) (seen : List Value)
      → any_of (λ u. same u w) (v ∷ seen) ≡ false
      → (same v w ≡ false) × (any_of (λ u. same u w) seen ≡ false)
  any_of-cons v w seen h = (ground arith, ground arith)

  later_key :
      (v : Value) (seen us : List Value) (w : Value)
      → (any_of (λ u. same u w) (v ∷ seen) ≡ true) ⊎ Occurs us w
      → (any_of (λ u. same u w) seen ≡ true) ⊎ Occurs (v ∷ us) w
  later_key v seen us w (inl h) = elim (Bool-cases (same v w)) [
    | inl e ↦ inr (v, Memᴰ.head refl, inr e)
    | inr e ↦ inl (ground (arith, e))
  ]
  later_key v seen us w (inr (u, m, e)) = inr (u, Memᴰ.tail m, e)

  new_keys-NewKeys :
      (seen vs : List Value) → NewKeys seen vs (new_keys python canonical same new_id now seen vs)
  unfolding new_keys
  new_keys-NewKeys seen [] = record { within = part_nil; fresh = tt; distinct_keys = tt; kept = tt }
  new_keys-NewKeys seen (v ∷ vs) = elim (Bool-cases (any_of (λ u. same u v) seen)) [
    | inl e ↦
        let rest = new_keys-NewKeys seen vs in
        rw e (record {
          within = part_drop v _ vs rest.within;
          fresh = rest.fresh;
          distinct_keys = rest.distinct_keys;
          kept = (inl e, rest.kept);
        })
    | inr e ↦
        let rest = new_keys-NewKeys (v ∷ seen) vs in
        let us = new_keys python canonical same new_id now (v ∷ seen) vs in
        rw e (record {
          within = part_keep v us vs rest.within;
          fresh = (
            e,
            All-mono (λ w. any_of (λ u. same u w) (v ∷ seen) ≡ false)
                (λ w. any_of (λ u. same u w) seen ≡ false) us (λ w h. (any_of-cons v w seen h).1)
                rest.fresh,
          );
          distinct_keys = (
            All-mono (λ w. any_of (λ u. same u w) (v ∷ seen) ≡ false) (Differ v) us
                (λ w h. (any_of-cons v w seen h).0) rest.fresh,
            rest.distinct_keys,
          );
          kept = (
            inr (v, Memᴰ.head refl, inl refl),
            All-mono _ (λ w. (any_of (λ u. same u w) seen ≡ true) ⊎ Occurs (v ∷ us) w) vs
                (later_key v seen us) rest.kept,
          );
        })
  ]

  unique_values-Uniques :
      (vs : List Value) → Uniques vs (unique_values python canonical same new_id now vs)
  unfolding unique_values
  unique_values-Uniques vs =
      let keys = new_keys-NewKeys [] vs in
      let us = new_keys python canonical same new_id now [] vs in
      record {
        part = keys.within;
        differ = keys.distinct_keys;
        complete = All-mono _ (Occurs us) vs (λ v h. elim h [ inl e ↦ cc e | inr o ↦ o ]) keys.kept;
      }

  -- One ADD for each value, in the order of the values, each later than the one before.
  abbrev pub AddsFrom : MetadataDefinition → ℕ → List Value → List MetadataEvent → Type 0
  AddsFrom definition index [] [] = Unit
  AddsFrom definition index [] (e ∷ es) = ⊥
  AddsFrom definition index (v ∷ vs) [] = ⊥
  AddsFrom definition index (v ∷ vs) (e ∷ es) =
      ((e.operation ≡ add)
        × (e.created_at ≡ now + index)
        × (value_columns python v definition ≡ ok e.columns))
      × AddsFrom definition (suc index) vs es

  -- A replacement has a CLEAR first, at the base time.
  abbrev pub Applies : MetadataDefinition → List Value → Bool → List MetadataEvent → Type 0
  Applies definition vs false es = AddsFrom definition 1 vs es
  Applies definition vs true [] = ⊥
  Applies definition vs true (e ∷ es) =
      ((e.operation ≡ clear) × (e.created_at ≡ now + 0)) × AddsFrom definition 1 vs es

  abbrev OfField : MatterDocument → MetadataDefinition → List MetadataEvent → Type 0
  OfField document definition es = All (λ e. is_event_of document.id definition.id e ≡ true) es

  module _ (db : Db) (q : BatchRequest) (document : MatterDocument)
      (definition : MetadataDefinition) where
    -- What the loop gives: events of the field, one for each value.
    add_events-AddsFrom :
        (index : ℕ) (vs : List Value) (es : List MetadataEvent)
        → add_events python canonical same new_id now db q document definition index vs ≡ ok es
        → AddsFrom definition index vs es × OfField document definition es
    unfolding add_events
    add_events-AddsFrom index [] [] h = (tt, tt)
    add_events-AddsFrom index [] (e ∷ es) h = cc (ok-injective h)
    add_events-AddsFrom index (v ∷ vs) es h =
        let (t, admitted, h1) =
          >>=-eq-ok (lifted (validate_event_relationships db document definition add none none)) _
            h in
        let (columns, checked, h2) =
          >>=-eq-ok (lifted (as_invalid (value_columns python v definition))) _ h1 in
        let (rest, ran, h3) =
          >>=-eq-ok
            (add_events python canonical same new_id now db q document definition (suc index) vs) _
            h2 in
        let (later, of_field) = add_events-AddsFrom (suc index) vs rest ran in
        subst (λ xs. AddsFrom definition index (v ∷ vs) xs × OfField document definition xs)
          (ok-injective h3)
          (
            ((refl, refl, valid_columns v columns (lifted-ok _ checked)), later),
            (ground arith, of_field),
          )
      where
        valid_columns :
            (w : Value) (columns : ValueColumns)
            → as_invalid (value_columns python w definition) ≡ ok columns
            → value_columns python w definition ≡ ok columns
        valid_columns w columns e = as_invalid-ok (value_columns python w definition) e

    clear_events-shape :
        (es : List MetadataEvent)
        → clear_events python canonical same new_id now db q document definition ≡ ok es
        → OfField document definition es
          × ((vs : List Value) (rest : List MetadataEvent)
              → AddsFrom definition 1 vs rest
              → Applies definition vs q.replace (es ++ rest))
    unfolding clear_events
    clear_events-shape es h = elim (Bool-cases q.replace) [
      | inl e ↦
          let (t, admitted, found) =
            >>=-eq-ok (lifted (validate_event_relationships db document definition clear none none))
              (λ _. ok (
                batch_event python canonical same new_id now q document definition clear 0
                  no_columns
                ∷ []))
              (rw e at h) in
          subst
            (λ (xs : List MetadataEvent).
              OfField document definition xs
              × ((vs : List Value) (rest : List MetadataEvent)
                  → AddsFrom definition 1 vs rest
                  → Applies definition vs q.replace (xs ++ rest)))
            (ok-injective found) ((ground arith, tt), (λ vs rest a. rw e ((refl, refl), a)))
      | inr e ↦
          subst
            (λ (xs : List MetadataEvent).
              OfField document definition xs
              × ((vs : List Value) (rest : List MetadataEvent)
                  → AddsFrom definition 1 vs rest
                  → Applies definition vs q.replace (xs ++ rest)))
            (ok-injective (rw e at h)) (tt, (λ vs rest a. rw e a))
    ]

    -- The result when these events are stored.
    abbrev outcome_of : List MetadataEvent → BatchOutcome python canonical same new_id now
    outcome_of new =
        let (projected, resolution) =
          project_field canonical (record db { events = db.events ++ new }) document definition in
        (projected, new, some resolution)

    apply_events-Applies :
        (r : BatchOutcome python canonical same new_id now)
        → apply_events python canonical same new_id now db q document definition ≡ ok r
        → (new : List MetadataEvent) × (outcome_of new ≡ r)
          × Applies definition
              (unique_values python canonical same new_id now q.values)
              q.replace
              new
          × OfField document definition new
    unfolding apply_events
    apply_events-Applies r h =
        let (cleared, hc, h1) =
          >>=-eq-ok (clear_events python canonical same new_id now db q document definition) _ h in
        let (t, hashable, h2) = >>=-eq-ok (refuse (any_of is_container q.values) unhashable) _ h1 in
        let vs = unique_values python canonical same new_id now q.values in
        let (added, ha, h3) =
          >>=-eq-ok (add_events python canonical same new_id now db q document definition 1 vs) _
            h2 in
        let (of_field, shape) = clear_events-shape cleared hc in
        let (adds, of_field') = add_events-AddsFrom 1 vs added ha in
        (
          cleared ++ added,
          ok-injective h3,
          shape vs added adds,
          All-append (λ e. is_event_of document.id definition.id e ≡ true) cleared added of_field
              of_field',
        )

  module _ (db : Db) (q : BatchRequest) (r : BatchOutcome python canonical same new_id now) where
    -- What a successful call found and stored.
    record Ran : Type 0 where
      document : MatterDocument
      definition : MetadataDefinition
      found_definition : find_definition db q.definition_id q.matter_id ≡ some definition
      found_document : find_document db q.document_id q.matter_id ≡ some document
      ran :
          (if not q.replace && is_empty q.values
            then ok (db, [], none)
            else apply_events python canonical same new_id now db q document definition)
          ≡ ok r

    ran_of : apply_metadata_values python canonical same new_id now db q ≡ ok r → Ran
    unfolding apply_metadata_values
    ran_of h =
        let (document, hd, h1) =
          >>=-eq-ok (lifted (found (find_document db q.document_id q.matter_id) document_not_found))
            _ h in
        let (definition, hf, h2) =
          >>=-eq-ok
            (lifted (found (find_definition db q.definition_id q.matter_id) definition_not_found)) _
            h1 in
        let (t, many, h3) =
          >>=-eq-ok (require (is_multiple definition.cardinality) needs_multiple) _ h2 in
        record {
          document = document;
          definition = definition;
          found_definition =
              found-ok (find_definition db q.definition_id q.matter_id) definition_not_found
                (lifted-ok _ hf);
          found_document =
              found-ok (find_document db q.document_id q.matter_id) document_not_found
                (lifted-ok _ hd);
          ran = h3;
        }

    -- If every field that has events shows what they resolve to, and definitions have different
    -- ids, then this is so after a batch of values has been applied.
    pub apply_metadata_values-IsProjected :
        IsProjected canonical db
        → apply_metadata_values python canonical same new_id now db q ≡ ok r
        → IsProjected canonical r.0
    apply_metadata_values-IsProjected v h =
        let w = ran_of h in
        elim (Bool-cases (not q.replace && is_empty q.values)) [
          | inl e ↦ subst (λ x. IsProjected canonical x.0) (ok-injective (rw e at w.ran)) v
          | inr e ↦
              let (new, stored, shape, of_field) =
                apply_events-Applies db q w.document w.definition r (rw e at w.ran) in
              subst (λ x. IsProjected canonical x.0) stored
                (appended-IsProjected canonical db w.document w.definition new
                  (find_first-Memᴰ
                    (λ (f : MetadataDefinition).
                      f.id == q.definition_id && f.matter_id == q.matter_id)
                    db.definitions w.found_definition)
                  of_field v)
        ]

    pub record AppliesBatch : Type 0 where
      pub definition : MetadataDefinition
      pub found_definition : find_definition db q.definition_id q.matter_id ≡ some definition
      pub log : r.0.events ≡ db.events ++ r.1
      pub values : List Value
      pub distinct_values : Uniques q.values values
      pub shape : Applies definition values q.replace r.1
      pub of_field :
          All (λ e. (e.document_id ≡ q.document_id) × (e.definition_id ≡ q.definition_id)) r.1

    asked_for :
        (w : Ran) (e : MetadataEvent)
        → is_event_of w.document.id w.definition.id e ≡ true
        → (e.document_id ≡ q.document_id) × (e.definition_id ≡ q.definition_id)
    asked_for w e h =
        let d =
          find_first-holds
            (λ (x : MatterDocument). x.id == q.document_id && x.matter_id == q.matter_id)
            db.documents w.found_document in
        let f =
          find_first-holds
            (λ (x : MetadataDefinition). x.id == q.definition_id && x.matter_id == q.matter_id)
            db.definitions w.found_definition in
        (ground (arith, d, h), ground (arith, f, h))

    -- A successful call that has values or replaces appends its events to the log: a CLEAR at the
    -- base time if it replaces, then one ADD for each of the values in their order, without those
    -- that are the same as an earlier one, with the checked columns of the value and each one
    -- microsecond after the one before. All are events of the document and the field asked for.
    pub apply_metadata_values-AppliesBatch :
        (not q.replace && is_empty q.values) ≡ false
        → apply_metadata_values python canonical same new_id now db q ≡ ok r
        → AppliesBatch
    apply_metadata_values-AppliesBatch busy h =
        let w = ran_of h in
        let (new, stored, shape, of_field) =
          apply_events-Applies db q w.document w.definition r (rw busy at w.ran) in
        record {
          definition = w.definition;
          found_definition = w.found_definition;
          log =
              subst
                (λ (x : BatchOutcome python canonical same new_id now).
                  x.0.events ≡ db.events ++ x.1)
                stored (unfold project_field in refl);
          values = unique_values python canonical same new_id now q.values;
          distinct_values = unique_values-Uniques q.values;
          of_field =
              subst
                (λ (x : BatchOutcome python canonical same new_id now).
                  All (λ e. (e.document_id ≡ q.document_id) × (e.definition_id ≡ q.definition_id))
                    x.1)
                stored
                (All-mono (λ e. is_event_of w.document.id w.definition.id e ≡ true) _ new
                  (asked_for w) of_field);
          shape =
              subst
                (λ (x : BatchOutcome python canonical same new_id now).
                  Applies w.definition (unique_values python canonical same new_id now q.values)
                    q.replace x.1)
                stored shape;
        }
