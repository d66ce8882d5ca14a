-- ===== src/Configuration/Rows.antt =====
-- What the rows of one definition and of one group say.
use prv_application.Prelude.{
  >>=-eq-ok, Ensures-at, List, Option, ok, ok-injective, refl, subst, true, ℕ, ℤ, ◌≡◌,
}
use prv_application.Configuration.{
  DefinitionRow, GroupRow, Item, JsonValue, definition_row, entry, flag, group_row, int_of,
  is_shared, text_of,
}
use prv_application.Configuration.Values.{
  DefinitionMatches, GroupMatches, Holds, IsInteger, entry-Holds, flag-HoldsFlag, int_of-IsInteger,
  is_shared-scope, or_null-HoldsOrNull, text_of-IsText,
}

module _ (definition_id group_id : ℕ → ℕ) (repr : JsonValue → List ℕ) (parse : List ℕ → Option ℤ)
    (matter_id user_id : ℕ) where
  pub definition_row-Matches :
      (n : ℕ) (j : JsonValue) (i : Item) {d : DefinitionRow}
      → Holds "key" i j
      → let key = text_of repr j in
        definition_row definition_id group_id repr parse matter_id user_id n key i ≡ ok d
        → DefinitionMatches repr matter_id i d × (d.key ≡ key)
  unfolding definition_row
  definition_row-Matches n j i there h =
      let (display_name, e0, h0) = >>=-eq-ok (entry "display_name" i) _ h in
      let (type, e1, h1) = >>=-eq-ok (entry "type" i) _ h0 in
      let (cardinality, e2, h2) = >>=-eq-ok (entry "cardinality" i) _ h1 in
      let (value_source, e3, h3) = >>=-eq-ok (entry "value_source" i) _ h2 in
      let (assertion_policy, e4, h4) = >>=-eq-ok (entry "assertion_policy" i) _ h3 in
      let (resolution_policy, e5, h5) = >>=-eq-ok (entry "resolution_policy" i) _ h4 in
      let (searchable, e6, h6) = >>=-eq-ok (flag "searchable" i) _ h5 in
      let (facetable, e7, h7) = >>=-eq-ok (flag "facetable" i) _ h6 in
      let (reviewable, e8, h8) = >>=-eq-ok (flag "reviewable" i) _ h7 in
      let (ai_assignable, e9, h9) = >>=-eq-ok (flag "ai_assignable" i) _ h8 in
      let (status, e10, h10) = >>=-eq-ok (entry "status" i) _ h9 in
      subst (λ (d : DefinitionRow). DefinitionMatches repr matter_id i d × (d.key ≡ text_of repr j))
        (ok-injective h10)
        (
          record {
            in_matter = refl;
            key = (j, there, text_of-IsText repr j);
            display_name = entry-Holds "display_name" i e0;
            description = or_null-HoldsOrNull "description" i;
            type = entry-Holds "type" i e1;
            cardinality = entry-Holds "cardinality" i e2;
            allowed_values = or_null-HoldsOrNull "allowed_values" i;
            value_source = entry-Holds "value_source" i e3;
            reference_target = or_null-HoldsOrNull "reference_target" i;
            template_key = or_null-HoldsOrNull "template_key" i;
            template_version = or_null-HoldsOrNull "template_version" i;
            assertion_policy = entry-Holds "assertion_policy" i e4;
            resolution_policy = entry-Holds "resolution_policy" i e5;
            searchable = flag-HoldsFlag "searchable" i e6;
            facetable = flag-HoldsFlag "facetable" i e7;
            reviewable = flag-HoldsFlag "reviewable" i e8;
            ai_assignable = flag-HoldsFlag "ai_assignable" i e9;
            status = entry-Holds "status" i e10;
          },
          refl,
        )

  pub group_row-Matches :
      (n : ℕ) (j scope : JsonValue) (i : Item) {g : GroupRow}
      → Holds "key" i j
      → Holds "scope" i scope
      → is_shared scope ≡ true
      → let key = text_of repr j in
        group_row definition_id group_id repr parse matter_id user_id n key scope i ≡ ok g
        → GroupMatches repr parse matter_id user_id i g × (g.key ≡ key)
  unfolding group_row
  group_row-Matches n j scope i there placed shared h =
      let (display_name, e0, h0) = >>=-eq-ok (entry "display_name" i) _ h in
      let (order, e1, h1) = >>=-eq-ok (entry "sort_order" i) _ h0 in
      let number_of = int_of parse order in
      let (sort_order, e2, h2) = >>=-eq-ok number_of _ h1 in
      let (in_tables, e3, h3) = >>=-eq-ok (flag "default_table_visible" i) _ h2 in
      let (in_documents, e4, h4) = >>=-eq-ok (flag "default_document_visible" i) _ h3 in
      let (status, e5, h5) = >>=-eq-ok (entry "status" i) _ h4 in
      subst
        (λ (g : GroupRow). GroupMatches repr parse matter_id user_id i g × (g.key ≡ text_of repr j))
        (ok-injective h5)
        (
          record {
            in_matter = (refl, refl);
            key = (j, there, text_of-IsText repr j);
            scope = placed;
            shared = is_shared-scope scope shared;
            owner = refl;
            display_name = entry-Holds "display_name" i e0;
            description = or_null-HoldsOrNull "description" i;
            sort_order = (
              order,
              entry-Holds "sort_order" i e1,
              Ensures-at (IsInteger parse order) number_of e2 (int_of-IsInteger parse order),
            );
            default_table_visible = flag-HoldsFlag "default_table_visible" i e3;
            default_document_visible = flag-HoldsFlag "default_document_visible" i e4;
            status = entry-Holds "status" i e5;
            template_key = or_null-HoldsOrNull "template_key" i;
            template_version = or_null-HoldsOrNull "template_version" i;
          },
          refl,
        )
