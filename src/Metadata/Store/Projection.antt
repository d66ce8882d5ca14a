-- ===== src/Metadata/Store/Projection.antt =====
-- The projection of current values agrees with the events, before and after every command.
use prv_application.Prelude.{
  All, All-mono, Bool-cases, List, Memᴰ, Option, [], ap, arith, distinct, distinct-same, false, inl,
  inr, is_empty, map, not, select, select-append, select-append_other, select-select_none,
  select-select_other, select-All, sort_by, subst, suc, sym, true, ℕ, ◌&&◌, ◌++◌, ◌==◌, ◌∙◌, ◌∷◌,
  ◌≡◌, ◌⊎◌,
}
use prv_application.Metadata.Types.{MetadataDefinition, MetadataEvent, Value}
use prv_application.Metadata.Resolve.{FieldResolution, ResolvedValue, before, resolve_field}
use prv_application.Metadata.Store.{
  CurrentRow, Db, MatterDocument, field_events, is_event_of, is_row_of, project_field,
  projected_rows, value_rows,
}

value_rows-IsRow :
    (d f : ℕ) (r : FieldResolution) (n : ℕ) (vs : List ResolvedValue)
    → All (λ row. is_row_of d f row ≡ true) (value_rows d f r n vs)
unfolding value_rows
value_rows-IsRow d f r n [] = tt
value_rows-IsRow d f r n (v ∷ vs) = (ground arith, value_rows-IsRow d f r (suc n) vs)

projected_rows-IsRow :
    (d f : ℕ) (r : FieldResolution) → All (λ row. is_row_of d f row ≡ true) (projected_rows d f r)
unfolding projected_rows
projected_rows-IsRow d f r = elim (Bool-cases (is_empty r.values)) [
  | inl empty ↦ rw empty (ground arith, tt)
  | inr full ↦ rw full (value_rows-IsRow d f r 0 r.values)
]

-- The rows of a document and field.
abbrev pub rows_for : Db → ℕ → ℕ → List CurrentRow
rows_for db d f = select (is_row_of d f) db.current

module _ (canonical : Option Value → List ℕ) where
  abbrev pub resolved : Db → ℕ → MetadataDefinition → FieldResolution
  resolved db d definition = resolve_field canonical (field_events db d definition.id) definition

  -- A field shows what its events resolve to.
  abbrev pub Agrees : Db → ℕ → MetadataDefinition → Type 0
  Agrees db d definition =
      rows_for db d definition.id ≡ projected_rows d definition.id (resolved db d definition)

  pub project_field-Agrees :
      (db : Db) (document : MatterDocument) (definition : MetadataDefinition)
      → Agrees (project_field canonical db document definition).0 document.id definition
  unfolding project_field
  project_field-Agrees db document definition =
      let mine = is_row_of document.id definition.id in
      let r = resolved db document.id definition in
      select-append mine (select (λ r. not (mine r)) db.current)
        (projected_rows document.id definition.id r)
      ∙ rw (select-select_none mine (λ r. not (mine r)) db.current (λ r h. ap not h)) (
          select-All mine (projected_rows document.id definition.id r)
            (projected_rows-IsRow document.id definition.id r))

  -- Two fields, of one document or of two.
  abbrev OtherField : ℕ → ℕ → ℕ → ℕ → Type 0
  OtherField d f d' f' = (d == d' && f == f') ≡ false

  other_row :
      (d f d' f' : ℕ) (r : CurrentRow)
      → OtherField d f d' f'
      → is_row_of d f r ≡ true
      → is_row_of d' f' r ≡ false
  other_row d f d' f' r differ h = ground arith

  -- Projecting one field leaves the rows of every other as they were.
  project_field-other :
      (db : Db) (document : MatterDocument) (definition : MetadataDefinition) (d' f' : ℕ)
      → OtherField document.id definition.id d' f'
      → rows_for (project_field canonical db document definition).0 d' f' ≡ rows_for db d' f'
  unfolding project_field
  project_field-other db document definition d' f' differ =
      let d = document.id in
      let f = definition.id in
      let r = resolved db d definition in
      select-append_other (is_row_of d' f') (select (λ r. not (is_row_of d f r)) db.current)
        (projected_rows d f r)
        (All-mono (λ row. is_row_of d f row ≡ true) (λ row. is_row_of d' f' row ≡ false)
          (projected_rows d f r) (λ row. other_row d f d' f' row differ)
          (projected_rows-IsRow d f r))
      ∙ select-select_other (is_row_of d' f') (λ r. not (is_row_of d f r)) db.current
          (λ row h. ground (arith, other_row d f d' f' row differ))

  -- Definitions have their own ids, and each field that has events shows what they resolve to.
  pub record IsProjected (db : Db) : Type 0 where
    pub unique : distinct (map (λ (f : MetadataDefinition). f.id) db.definitions) ≡ true
    pub agrees :
        (d : ℕ) (definition : MetadataDefinition)
        → Memᴰ definition db.definitions
        → (field_events db d definition.id ≡ []) ⊎ Agrees db d definition

  abbrev append_events : Db → List MetadataEvent → Db
  append_events db new = record db { events = db.events ++ new }

  module _ (db : Db) (document : MatterDocument) (definition : MetadataDefinition)
      (new : List MetadataEvent) where
    -- The tables after events of the field are stored and it is projected.
    abbrev pub appended : Db
    appended = (project_field canonical (append_events db new) document definition).0

    appended_here :
        (d : ℕ) (other_definition : MetadataDefinition)
        → document.id ≡ d
        → definition ≡ other_definition
        → Agrees appended d other_definition
    unfolding project_field
    appended_here d other_definition p q =
        subst (λ i. Agrees appended i other_definition) p
          (subst (λ f. Agrees appended document.id f) q
            (project_field-Agrees (append_events db new) document definition))

    appended_there :
        (d : ℕ) (other_definition : MetadataDefinition)
        → All (λ e. is_event_of document.id definition.id e ≡ true) new
        → OtherField document.id definition.id d other_definition.id
        → (field_events db d other_definition.id ≡ []) ⊎ Agrees db d other_definition
        → (field_events appended d other_definition.id ≡ []) ⊎ Agrees appended d other_definition
    unfolding project_field
    appended_there d other_definition mine differ was =
        let f = other_definition.id in
        let events : field_events appended d f ≡ field_events db d f = ap (sort_by before) (
          select-append_other (is_event_of d f) db.events new (
            All-mono (λ e. is_event_of document.id definition.id e ≡ true) _ new
              (λ e of_field. ground (arith, of_field, differ)) mine)) in
        let rows = project_field-other (append_events db new) document definition d f differ in
        elim was [
          | inl none_yet ↦ inl (events ∙ none_yet)
          | inr agreed ↦ inr (
              rows
              ∙ agreed
              ∙ ap (λ es. projected_rows d f (resolve_field canonical es other_definition))
                  (sym events))
        ]

    -- Storing events of a field and projecting it keeps the projection in agreement.
    pub appended-IsProjected :
        Memᴰ definition db.definitions
        → All (λ e. is_event_of document.id definition.id e ≡ true) new
        → IsProjected db
        → IsProjected appended
    appended-IsProjected member mine v = record {
      unique = unfold project_field in v.unique;
      agrees = λ d other_definition member'.
          elim (Bool-cases (document.id == d && definition.id == other_definition.id)) [
            | inl same ↦ inr (
                appended_here d other_definition (ground arith) (
                  distinct-same (λ (f : MetadataDefinition). f.id) db.definitions v.unique member
                    (unfold project_field in member') (ground arith)))
            | inr differ ↦
                appended_there d other_definition mine differ
                  (v.agrees d other_definition (unfold project_field in member'))
          ];
    }
