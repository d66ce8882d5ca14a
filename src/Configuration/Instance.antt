-- ===== src/Configuration/Instance.antt =====
-- What the rows of an instantiated configuration say.
use prv_application.Prelude.{
  >>=-eq-ok, All, All-mono, AllPairs, Ensures, Ensures-at, Ensures-bind, List, Memᴰ, Option, [], ap,
  arith, codes_eq, codes_eq_refl, codes_eq_sound, false, find_first-Memᴰ, find_first-holds,
  is_empty, ok, ok-injective, refl, refuse, refused-false, require, required-true, some, some_or,
  some_or-some, subst, suc, sym, true, ℕ, ℤ, ◌*◌, ◌++◌, ◌∷◌, ◌≡◌, ◌≢◌,
}
use prv_application.Configuration.{
  ConfigurationRows, DefinitionRow, GroupField, GroupItem, GroupRow, Item, JsonValue, Snapshot,
  boolean, container, definition_of, definition_row, definition_rows, duplicate_definition,
  duplicate_group, entry, field_rows, group_row, group_rows, has_key,
  instantiate_configuration_snapshot, is_nested, is_shared, is_version, no_definitions, null,
  number, personal_group, string, text_of, unhashable, unknown_field, unsupported_version,
}
use prv_application.Configuration.Values.{DefinitionMatches, GroupMatches, entry-Holds}
use prv_application.Configuration.Rows.{definition_row-Matches, group_row-Matches}

-- The rows of the fields of a group: each stands for the definition with the key in its place, and
-- their order counts in tens.
abbrev pub FieldsMatch : List DefinitionRow → ℕ → ℕ → List JsonValue → List GroupField → Type 0
FieldsMatch ds group n [] [] = Unit
FieldsMatch ds group n [] (f ∷ fs) = ⊥
FieldsMatch ds group n (k ∷ ks) [] = ⊥
FieldsMatch ds group n (k ∷ ks) (f ∷ fs) =
    ((d : DefinitionRow) × Memᴰ d ds × (k ≡ string d.key) × (f.definition_id ≡ d.id))
    × (f.group_id ≡ group)
    × (f.sort_order ≡ n * 10)
    × FieldsMatch ds group (suc n) ks fs

definition_of-key :
    (k : JsonValue) (ds : List DefinitionRow) {d : DefinitionRow}
    → definition_of k ds ≡ some d
    → Memᴰ d ds × (k ≡ string d.key)
unfolding definition_of
definition_of-key (string key) ds {d} h =
    let named = λ (e : DefinitionRow). codes_eq e.key key in
    (
      find_first-Memᴰ named ds h,
      ap string (sym (codes_eq_sound d.key key (find_first-holds named ds h))),
    )
definition_of-key null ds h = cc
definition_of-key (boolean b) ds h = cc
definition_of-key (number n) ds h = cc
definition_of-key (container n s) ds h = cc

-- No two rows have one key.
abbrev OtherKeys : DefinitionRow → DefinitionRow → Type 0
OtherKeys d e = d.key ≢ e.key

abbrev OtherGroups : GroupRow → GroupRow → Type 0
OtherGroups g h = g.key ≢ h.key

not_seen :
    (k key : List ℕ) (seen : List (List ℕ))
    → has_key key (k ∷ seen) ≡ false
    → (k ≢ key) × (has_key key seen ≡ false)
unfolding has_key
not_seen k key seen h = (
  (λ same.
      let equal : codes_eq k key ≡ true =
        subst (λ (l : List ℕ). codes_eq k l ≡ true) same (codes_eq_refl k) in
      absurd (ground (arith, h, equal))),
  ground arith,
)

module _ (repr : JsonValue → List ℕ) (parse : List ℕ → Option ℤ) (matter_id user_id : ℕ) where
  abbrev pub DefinitionsMatch : List Item → List DefinitionRow → Type 0
  DefinitionsMatch [] [] = Unit
  DefinitionsMatch [] (d ∷ ds) = ⊥
  DefinitionsMatch (i ∷ is) [] = ⊥
  DefinitionsMatch (i ∷ is) (d ∷ ds) = DefinitionMatches repr matter_id i d × DefinitionsMatch is ds

  abbrev pub GroupsMatch :
      List DefinitionRow → List GroupItem → List GroupRow → List GroupField → Type 0
  GroupsMatch ds [] [] fields = fields ≡ []
  GroupsMatch ds [] (g ∷ gs) fields = ⊥
  GroupsMatch ds (i ∷ is) [] fields = ⊥
  GroupsMatch ds (i ∷ is) (g ∷ gs) fields =
      (own : List GroupField) × (rest : List GroupField) × (fields ≡ own ++ rest)
      × GroupMatches repr parse matter_id user_id i.entries g
      × FieldsMatch ds g.id 1 i.field_keys own
      × GroupsMatch ds is gs rest

  pub record IsInstance (c : Snapshot) (rows : ConfigurationRows) : Type 0 where
    pub definitions : DefinitionsMatch c.definitions rows.definitions
    pub some_definition : is_empty rows.definitions ≡ false
    pub definition_keys : AllPairs OtherKeys rows.definitions
    pub group_keys : AllPairs OtherGroups rows.groups
    pub groups : GroupsMatch rows.definitions c.groups rows.groups rows.group_fields

module _ (definition_id group_id : ℕ → ℕ) (repr : JsonValue → List ℕ) (parse : List ℕ → Option ℤ)
    (matter_id user_id : ℕ) where
  -- What the loop over the definitions keeps, over the keys seen before it.
  record Defined (seen : List (List ℕ)) (is : List Item) (ds : List DefinitionRow) : Type 0 where
    same : DefinitionsMatch repr parse matter_id user_id is ds
    unseen : All (λ (d : DefinitionRow). has_key d.key seen ≡ false) ds
    distinct_keys : AllPairs OtherKeys ds

  definition_rows-Defined :
      (n : ℕ) (seen : List (List ℕ)) (is : List Item)
      → Ensures
          (Defined seen is)
          (definition_rows definition_id group_id repr parse matter_id user_id n seen is)
  unfolding definition_rows
  definition_rows-Defined n seen [] = record { same = tt; unseen = tt; distinct_keys = tt }
  definition_rows-Defined n seen (i ∷ is) =
      let text = text_of repr in
      let row = definition_row definition_id group_id repr parse matter_id user_id in
      let rows = definition_rows definition_id group_id repr parse matter_id user_id in
      Ensures-bind (Defined seen (i ∷ is)) (entry "key" i) _ λ j there.
        Ensures-bind (Defined seen (i ∷ is)) (refuse (has_key (text j) seen) duplicate_definition) _
          λ u fresh. Ensures-bind (Defined seen (i ∷ is)) (row n (text j) i) _ λ d made.
            Ensures-bind (Defined seen (i ∷ is)) (rows (suc n) (text j ∷ seen) is) _ λ ds ran.
              let (matches, named) =
                definition_row-Matches definition_id group_id repr parse matter_id user_id n j i
                  (entry-Holds "key" i there) made in
              let v =
                Ensures-at (Defined (text j ∷ seen) is) (rows (suc n) (text j ∷ seen) is) ran
                  (definition_rows-Defined (suc n) (text j ∷ seen) is) in
              let new = λ (e : DefinitionRow). has_key e.key (text j ∷ seen) ≡ false in
              record {
                same = (matches, v.same);
                unseen = (
                  subst (λ (k : List ℕ). has_key k seen ≡ false) (sym named)
                      (refused-false _ _ fresh),
                  All-mono new (λ (e : DefinitionRow). has_key e.key seen ≡ false) ds
                      (λ e h. (not_seen (text j) e.key seen h).1) v.unseen,
                );
                distinct_keys = (
                  subst (λ (k : List ℕ). All (λ (e : DefinitionRow). k ≢ e.key) ds) (sym named)
                      (All-mono new (λ (e : DefinitionRow). text j ≢ e.key) ds
                        (λ e h. (not_seen (text j) e.key seen h).0) v.unseen),
                  v.distinct_keys,
                );
              }

  field_rows-Match :
      (ds : List DefinitionRow) (group n : ℕ) (ks : List JsonValue)
      → Ensures
          (FieldsMatch ds group n ks)
          (field_rows definition_id group_id repr parse matter_id user_id ds group n ks)
  unfolding field_rows
  field_rows-Match ds group n [] = tt
  field_rows-Match ds group n (k ∷ ks) =
      let Match = FieldsMatch ds group n (k ∷ ks) in
      Ensures-bind Match (refuse (is_nested k) unhashable) _ λ u hashable.
        Ensures-bind Match (some_or (definition_of k ds) unknown_field) _ λ d found.
          Ensures-bind Match
            (field_rows definition_id group_id repr parse matter_id user_id ds group (suc n) ks) _
            λ fs ran.
              let (there, named) =
                definition_of-key k ds (some_or-some (definition_of k ds) unknown_field found) in
              (
                (d, there, named, refl),
                refl,
                refl,
                Ensures-at (FieldsMatch ds group (suc n) ks) _ ran
                    (field_rows-Match ds group (suc n) ks),
              )

  record Grouped (ds : List DefinitionRow) (seen : List (List ℕ)) (is : List GroupItem)
      (r : List GroupRow × List GroupField) : Type 0 where
    matched : GroupsMatch repr parse matter_id user_id ds is r.0 r.1
    unseen : All (λ (g : GroupRow). has_key g.key seen ≡ false) r.0
    distinct_keys : AllPairs OtherGroups r.0

  -- One more group before those of a run of the loop.
  Grouped-cons :
      (ds : List DefinitionRow) (seen : List (List ℕ)) (key : List ℕ) (i : GroupItem)
      (is : List GroupItem) (g : GroupRow) (own : List GroupField)
      (rest : List GroupRow × List GroupField)
      → GroupMatches repr parse matter_id user_id i.entries g
      → g.key ≡ key
      → has_key key seen ≡ false
      → FieldsMatch ds g.id 1 i.field_keys own
      → Grouped ds (key ∷ seen) is rest
      → Grouped ds seen (i ∷ is) (g ∷ rest.0, own ++ rest.1)
  Grouped-cons ds seen key i is g own rest matches named fresh fields v =
      let new = λ (e : GroupRow). has_key e.key (key ∷ seen) ≡ false in
      record {
        matched = (own, rest.1, refl, matches, fields, v.matched);
        unseen = (
          subst (λ (k : List ℕ). has_key k seen ≡ false) (sym named) fresh,
          All-mono new (λ (e : GroupRow). has_key e.key seen ≡ false) rest.0
              (λ e h. (not_seen key e.key seen h).1) v.unseen,
        );
        distinct_keys = (
          subst (λ (k : List ℕ). All (λ (e : GroupRow). k ≢ e.key) rest.0) (sym named)
              (All-mono new (λ (e : GroupRow). key ≢ e.key) rest.0
                (λ e h. (not_seen key e.key seen h).0) v.unseen),
          v.distinct_keys,
        );
      }

  group_rows-Grouped :
      (ds : List DefinitionRow) (n : ℕ) (seen : List (List ℕ)) (is : List GroupItem)
      → Ensures
          (Grouped ds seen is)
          (group_rows definition_id group_id repr parse matter_id user_id ds n seen is)
  unfolding group_rows
  group_rows-Grouped ds n seen [] = record { matched = refl; unseen = tt; distinct_keys = tt }
  group_rows-Grouped ds n seen (i ∷ is) =
      let text = text_of repr in
      let row = group_row definition_id group_id repr parse matter_id user_id in
      let fields = field_rows definition_id group_id repr parse matter_id user_id ds in
      let rows = group_rows definition_id group_id repr parse matter_id user_id ds in
      let Rest = Grouped ds seen (i ∷ is) in
      Ensures-bind Rest (entry "key" i.entries) _ λ j there.
        Ensures-bind Rest (refuse (has_key (text j) seen) duplicate_group) _ λ u fresh.
          Ensures-bind Rest (entry "scope" i.entries) _ λ scope placed.
            Ensures-bind Rest (refuse (is_nested scope) unhashable) _ λ v hashable.
              Ensures-bind Rest (require (is_shared scope) personal_group) _ λ w shared.
                Ensures-bind Rest (row n (text j) scope i.entries) _ λ g made.
                  Ensures-bind Rest (fields g.id 1 i.field_keys) _ λ own found.
                    Ensures-bind Rest (rows (suc n) (text j ∷ seen) is) _ λ rest ran.
                      let (matches, named) =
                        group_row-Matches definition_id group_id repr parse matter_id user_id n j
                          scope i.entries (entry-Holds "key" i.entries there)
                          (entry-Holds "scope" i.entries placed) (required-true _ _ shared) made in
                      Grouped-cons ds seen (text j) i is g own rest matches named
                        (refused-false _ _ fresh)
                        (Ensures-at (FieldsMatch ds g.id 1 i.field_keys) _ found
                          (field_rows-Match ds g.id 1 i.field_keys))
                        (Ensures-at (Grouped ds (text j ∷ seen) is) _ ran
                          (group_rows-Grouped ds (suc n) (text j ∷ seen) is))

  -- The rows of an instantiated configuration say what it says: one row for each definition and
  -- each group, in order and in the new matter, whose columns are the values at their own keys,
  -- converted by `str`, `int` and `bool` where the column asks for it and None where an optional
  -- key is missing, and for each group its fields in order, each by the row of the definition with
  -- its key. There is a definition, no key occurs twice, and no group is personal.
  pub instantiate_configuration_snapshot-IsInstance :
      (c : Snapshot) (rows : ConfigurationRows)
      → instantiate_configuration_snapshot definition_id group_id repr parse matter_id user_id c
        ≡ ok rows
      → IsInstance repr parse matter_id user_id c rows
  unfolding instantiate_configuration_snapshot
  instantiate_configuration_snapshot-IsInstance c rows h =
      let defs = definition_rows definition_id group_id repr parse matter_id user_id in
      let grps = group_rows definition_id group_id repr parse matter_id user_id in
      let (u, e1, h1) = >>=-eq-ok (require (is_version c.schema_version) unsupported_version) _ h in
      let (ds, e2, h2) = >>=-eq-ok (defs 0 [] c.definitions) _ h1 in
      let (groups, e3, h3) = >>=-eq-ok (grps ds 0 [] c.groups) _ h2 in
      let (w, e4, h4) = >>=-eq-ok (refuse (is_empty ds) no_definitions) _ h3 in
      let defined =
        Ensures-at (Defined [] c.definitions) _ e2 (definition_rows-Defined 0 [] c.definitions) in
      let grouped =
        Ensures-at (Grouped ds [] c.groups) _ e3 (group_rows-Grouped ds 0 [] c.groups) in
      subst (IsInstance repr parse matter_id user_id c) (ok-injective h4) (record {
        definitions = defined.same;
        some_definition = refused-false _ _ e4;
        definition_keys = defined.distinct_keys;
        group_keys = grouped.distinct_keys;
        groups = grouped.matched;
      })
