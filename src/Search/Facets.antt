-- ===== src/Search/Facets.antt =====
-- What a request for the values of one facet asks for.
use prv_application.Metadata.Types.{Float}
use prv_application.Metadata.Values.{Conversions}
use prv_application.Search.{
  Aggregation, Body, FieldDefinition, Filter, Formats, Include, SearchRequest, anything,
  metadata_query_path, terms_of, unknown_facet,
}
use prv_application.Search.Compile.{
  Catalog, Scope, add_definitions, compile_search_request, default_facet_size, definition_map,
  facet_aggregations,
}
use prv_application.Search.Requests.{
  compile_facet_values_request, included_values, resized, scoped_request,
}
use prv_application.Search.Scoped.{
  Answers, Engine, compile_search_request-Answers, compile_search_request-Compiled,
}
use prv_application.Prelude.{
  >>=-eq-ok, Bool-cases, Memᴰ, inl, inr, arith, dict_get-dict_set, some-injective, ◌⊎◌, ◌&&◌, ◌∙◌,
  List, Option, String, [], ap, dict_get, dict_set, eq_iff, none, not, ok, ok-injective, refl,
  require, required-true, select, some, some_or, some_or-some, str_eq, subst, sym, true, ℕ, ◌∷◌,
  ◌≡◌,
}

-- A definition of the list under its key that is active and searchable.
abbrev pub IsNamed : String → List FieldDefinition → FieldDefinition → Type 0
IsNamed field ds d = Memᴰ d ds × (d.key ≡ field) × (d.is_active ≡ true) × (d.searchable ≡ true)

added-IsNamed :
    (field : String) (ds : List FieldDefinition) (catalog : Catalog) {d : FieldDefinition}
    → dict_get field (add_definitions ds catalog) ≡ some d
    → IsNamed field ds d ⊎ (dict_get field catalog ≡ some d)
unfolding add_definitions
added-IsNamed field [] catalog h = inr h
added-IsNamed field (e ∷ ds) catalog {d} h = elim (Bool-cases (e.is_active && e.searchable)) [
  | inr out ↦ elim (added-IsNamed field ds catalog (rw out at h)) [
    | inl (m, named, active, searched) ↦ inl (Memᴰ.tail m, named, active, searched)
    | inr old ↦ inr old
  ]
  | inl used ↦ elim (added-IsNamed field ds (dict_set e.key e catalog) (rw used at h)) [
    | inl (m, named, active, searched) ↦ inl (Memᴰ.tail m, named, active, searched)
    | inr stored ↦
        let put = sym (dict_get-dict_set e.key field e catalog) ∙ stored in
        elim (Bool-cases (str_eq e.key field)) [
          | inl same ↦ inl (
              subst (IsNamed field (e ∷ ds)) (some-injective _ _ (rw same at put))
                (Memᴰ.head refl, (eq_iff e.key field).0 same, ground arith, ground arith))
          | inr other ↦ inr (rw other at put)
        ]
  ]
]

definition_of-field :
    (field : String) (ds : List FieldDefinition) {d : FieldDefinition}
    → dict_get field (definition_map ds) ≡ some d
    → IsNamed field ds d
unfolding definition_map
definition_of-field field ds h = elim (added-IsNamed field ds [] h) [
  | inl named ↦ named
  | inr nothing ↦ cc nothing
]

module _ (engine : Engine) (python : Conversions) (formats : Formats) (score : Float → Float) where
  -- The body counts one facetable field, over the documents that the search finds without the
  -- filters on this field.
  pub record CountsFacet (ds : List FieldDefinition) (r : SearchRequest) (s : Scope)
      (field : String) (size : ℕ) (included : Include) (body : Body) : Type 0 where
    pub definition : FieldDefinition
    pub found : dict_get field (definition_map ds) ≡ some definition
    pub known : IsNamed field ds definition
    pub facetable : definition.facetable ≡ true
    pub no_hits : (body.size ≡ 0) × (body.highlight ≡ none)
    pub one_field :
        body.aggs ≡ (field, terms_of (metadata_query_path definition true) size included) ∷ []
    pub answers :
        Answers engine python formats score ds
          (record r {
            filters = select (λ (f : Filter). not (str_eq f.field field)) r.filters;
            facets = field ∷ [];
            offset = 0;
            size = 1;
          })
          s
          body.query

  one_facet-eq :
      (catalog : Catalog) (field : String) (d : FieldDefinition)
      (aggs : List (String × Aggregation))
      → dict_get field catalog ≡ some d
      → facet_aggregations catalog (field ∷ []) [] ≡ ok aggs
      → aggs ≡ (field, terms_of (metadata_query_path d true) default_facet_size anything) ∷ []
  unfolding facet_aggregations
  one_facet-eq catalog field d aggs found h =
      let (u, h1, k1) = >>=-eq-ok (require d.facetable unknown_facet) _ (rw found at h) in
      sym (ok-injective k1)

  resized_facet-eq :
      (field path : String) (old size : ℕ) (shown included : Include)
      (aggs : List (String × Aggregation)) {counted : Aggregation}
      → aggs ≡ (field, terms_of path old shown) ∷ []
      → resized size included (dict_get field aggs) ≡ ok counted
      → dict_set field counted aggs ≡ (field, terms_of path size included) ∷ []
  unfolding resized
  resized_facet-eq field path old size shown included aggs e h =
      let same : str_eq field field ≡ true = (eq_iff field field).1 refl in
      rw e (
        rw same
          (ap (λ (a : Aggregation). (field, a) ∷ []) (sym (ok-injective (rw same at (rw e at h))))))

  -- The values of a facet are counted only for an active, searchable and facetable field, without
  -- hits, with the size and the values asked for, over what the search finds in its scope without
  -- its filters on this field.
  pub compile_facet_values_request-CountsFacet :
      (escape : String → String) (r : SearchRequest) (ds : List FieldDefinition) (field : String)
      (value_query : Option String) (size : ℕ) (include_values : Option (List String)) (s : Scope)
      (body : Body)
      → compile_facet_values_request python formats score escape r ds field value_query size
          include_values s
        ≡ ok body
      → CountsFacet ds r s field size (included_values escape include_values value_query) body
  unfolding compile_facet_values_request scoped_request
  compile_facet_values_request-CountsFacet escape r ds field value_query size include_values s body
        h =
      let catalog = definition_map ds in
      let scoped = scoped_request r field (field ∷ []) in
      let included = included_values escape include_values value_query in
      let (d, h1, k1) = >>=-eq-ok (some_or (dict_get field catalog) unknown_facet) _ h in
      let (u, h2, k2) = >>=-eq-ok (require d.facetable unknown_facet) _ k1 in
      let (whole, h3, k3) =
        >>=-eq-ok (compile_search_request python formats score scoped ds s) _ k2 in
      let (counted, h4, k4) = >>=-eq-ok (resized size included (dict_get field whole.aggs)) _ k3 in
      let found = some_or-some (dict_get field catalog) unknown_facet h1 in
      let c = compile_search_request-Compiled python formats score scoped ds s h3 in
      let plain = one_facet-eq catalog field d whole.aggs found c.facets_compiled in
      subst (CountsFacet ds r s field size included) (ok-injective k4) (record {
        definition = d;
        found = found;
        known = definition_of-field field ds found;
        facetable = required-true d.facetable unknown_facet h2;
        no_hits = (refl, refl);
        one_field =
            resized_facet-eq field (metadata_query_path d true) default_facet_size size anything
              included whole.aggs plain h4;
        answers = compile_search_request-Answers engine python formats score scoped ds s whole h3;
      })
