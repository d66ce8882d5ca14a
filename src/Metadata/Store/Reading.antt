-- ===== src/Metadata/Store/Reading.antt =====
-- current_rows of app/document_metadata.py: what a reader of a projected field sees.
use prv_application.Metadata.Types.{MetadataEvent, Value, ValueColumns}
use prv_application.Metadata.Values.{Conversions, no_columns}
use prv_application.Metadata.Resolve.{FieldResolution, ResolvedValue}
use prv_application.Metadata.Store.{
  CurrentRow, Db, EventRequest, add_metadata_event, is_row_of, new_event, project_field,
  projected_rows, value_rows,
}
use prv_application.Metadata.Store.Projection.{project_field-Agrees, resolved}
use prv_application.Metadata.Store.Appending.{add_metadata_event-Ensures}
use prv_application.Prelude.{
  All, Bool, Bool-cases, Ensures-at, List, Option, [], ap, arith, false, find_first-holds,
  if◌then◌else◌, inl, inr, insert_by, is_empty, ltb, map, ok, refl, select, sort_by, subst, suc,
  sym, ℕ, ◌++◌, ◌<◌, ◌∷◌, ◌≡◌,
}

abbrev pub ordinal_before : CurrentRow → CurrentRow → Bool
ordinal_before r s = ltb r.value_ordinal s.value_ordinal

unfoldable pub current_rows : Db → ℕ → ℕ → List CurrentRow
unfolding sort_by
current_rows db d f = sort_by ordinal_before (select (is_row_of d f) db.current)

insert_by_first :
    (row : CurrentRow) (rows : List CurrentRow)
    → All (λ s. row.value_ordinal < s.value_ordinal) rows
    → insert_by ordinal_before row rows ≡ row ∷ rows
unfolding insert_by
insert_by_first row [] h = refl
insert_by_first row (s ∷ ss) (later, h) =
    let not_before : ordinal_before s row ≡ false = ground arith in rw not_before refl

value_rows_later :
    (d f : ℕ) (r : FieldResolution) (n m : ℕ) (vs : List ResolvedValue)
    → n < m
    → All (λ s. n < s.value_ordinal) (value_rows d f r m vs)
unfolding value_rows
value_rows_later d f r n m [] h = tt
value_rows_later d f r n m (v ∷ vs) h = (h, value_rows_later d f r n (suc m) vs (omega arith))

sort_by-value_rows :
    (d f : ℕ) (r : FieldResolution) (n : ℕ) (vs : List ResolvedValue)
    → sort_by ordinal_before (value_rows d f r n vs) ≡ value_rows d f r n vs
unfolding value_rows sort_by
sort_by-value_rows d f r n [] = refl
sort_by-value_rows d f r n (v ∷ vs) = rw (sort_by-value_rows d f r (suc n) vs) (
    insert_by_first _ (value_rows d f r (suc n) vs)
      (value_rows_later d f r n (suc n) vs (omega arith)))

abbrev columns_of : CurrentRow → ValueColumns
columns_of row = row.columns

map-value_rows :
    (d f : ℕ) (r : FieldResolution) (n : ℕ) (vs : List ResolvedValue)
    → map columns_of (value_rows d f r n vs) ≡ map (λ (v : ResolvedValue). v.event.columns) vs
unfolding value_rows
map-value_rows d f r n [] = refl
map-value_rows d f r n (v ∷ vs) = ap (◌∷◌ v.event.columns) (map-value_rows d f r (suc n) vs)

-- The state of a resolution in every row, and the columns of its values in their order; a
-- resolution without values shows one row with empty columns.
pub record Shows (r : FieldResolution) (rows : List CurrentRow) : Type 0 where
  pub states : All (λ (row : CurrentRow). row.resolution_state ≡ r.state) rows
  pub contents : map columns_of rows ≡ (
      if is_empty r.values
      then no_columns ∷ []
      else map (λ (v : ResolvedValue). v.event.columns) r.values)

value_rows-states :
    (d f : ℕ) (r : FieldResolution) (n : ℕ) (vs : List ResolvedValue)
    → All (λ (row : CurrentRow). row.resolution_state ≡ r.state) (value_rows d f r n vs)
unfolding value_rows
value_rows-states d f r n [] = tt
value_rows-states d f r n (v ∷ vs) = (refl, value_rows-states d f r (suc n) vs)

projected_rows-Shows :
    (d f : ℕ) (r : FieldResolution) → Shows r (sort_by ordinal_before (projected_rows d f r))
unfolding projected_rows
projected_rows-Shows d f r = elim (Bool-cases (is_empty r.values)) [
  | inl empty ↦ rw empty (record {
    states = unfold sort_by in (refl, tt);
    contents = rw empty (unfold sort_by in refl);
  })
  | inr full ↦ rw full (
      rw (sort_by-value_rows d f r 0 r.values) (record {
        states = value_rows-states d f r 0 r.values;
        contents = rw full (map-value_rows d f r 0 r.values);
      }))
]

module _ (python : Conversions) (canonical : Option Value → List ℕ) (db : Db) (q : EventRequest)
    (id now : ℕ) where
  abbrev ShowsNow : Db × MetadataEvent × FieldResolution → Type 0
  ShowsNow r = Shows r.2 (current_rows r.0 q.document_id q.definition_id)

  -- After an event has been appended, the rows of its field show what the call returns, in order:
  -- the state of the resolution in every row, and the columns of its values, or no columns in a
  -- single row if it has no value.
  pub current_rows-Shows :
      (r : Db × MetadataEvent × FieldResolution)
      → add_metadata_event python canonical db q id now ≡ ok r
      → Shows r.2 (current_rows r.0 q.document_id q.definition_id)
  current_rows-Shows r h = Ensures-at ShowsNow (add_metadata_event python canonical db q id now) h (
      add_metadata_event-Ensures python canonical db q id now ShowsNow
        λ document definition columns hd hf hc hv.
          let d : document.id ≡ q.document_id =
            ground (arith, find_first-holds _ db.documents hd) in
          let f : definition.id ≡ q.definition_id =
            ground (arith, find_first-holds _ db.definitions hf) in
          let stored = record db {
            events =
                db.events ++ new_event python canonical q document definition id now columns ∷ [];
          } in
          let after = project_field canonical stored document definition in
          subst (λ (i : ℕ). Shows after.1 (current_rows after.0 i q.definition_id)) d
            (subst (λ (i : ℕ). Shows after.1 (current_rows after.0 document.id i)) f
              (unfold current_rows in
                subst (λ (rows : List CurrentRow). Shows after.1 (sort_by ordinal_before rows))
                  (sym (project_field-Agrees canonical stored document definition))
                  (unfold project_field in
                    projected_rows-Shows document.id definition.id
                      (resolved canonical stored document.id definition)))))
