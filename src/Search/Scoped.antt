-- ===== src/Search/Scoped.antt =====
-- Which documents a compiled search can find.
use prv_application.Metadata.Types.{Float, str}
use prv_application.Metadata.Values.{Conversions}
use prv_application.Search.{
  Body, Clause, FieldDefinition, Filter, Formats, Query, SearchMode, SearchRequest, VectorQuery,
  filter_clause, filtered, hybrid, hybrid_mode, keyword, keyword_mode, no_vector, semantic,
  semantic_mode, term, unknown_field,
}
use prv_application.Search.Compile.{
  Catalog, Scope, candidate_count, compile_search_request, definition_map, facet_aggregations,
  filter_clauses, is_keyword, lacks_text, mode_query, query_paths, request_query, scope_clauses,
  semantic_query, sort_clauses, text_or_empty, vector_or_empty,
}
use prv_application.Prelude.{
  &&-true, >>=-eq-ok, All, Bool, Bool-cases, List, Option, String, [], all_of, all_of-append, arith,
  count, dict_get, false, inl, inr, is_some, none, not, ok, ok-injective, refl, refuse,
  refused-false, some, some_or, some_or-some, subst, sym, true, ℕ, ◌&&◌, ◌++◌, ◌||◌, ◌∙◌, ◌∷◌, ◌≡◌,
}

-- What the code relies on in the search engine, as its documentation says: a `bool` query needs
-- every filter, a vector query looks only among the documents that pass its filter, and a hybrid
-- query finds what one of its queries finds.
pub record Engine : Type 1 where
  pub Doc : Type 0
  pub satisfies : Doc → Clause → Bool
  pub matches : Doc → Query → Bool
  pub filtered_matches :
      (d : Doc) (fs : List Clause) → matches d (filtered fs) ≡ all_of (satisfies d) fs
  pub keyword_filters :
      (d : Doc) (fs : List Clause) (words : String) (paths : List String)
      → matches d (keyword fs words paths) ≡ true
      → all_of (satisfies d) fs ≡ true
  pub semantic_filters :
      (d : Doc) (v : VectorQuery)
      → matches d (semantic v) ≡ true
      → all_of (satisfies d) v.filters ≡ true
  pub hybrid_matches :
      (d : Doc) (p q : Query) → matches d (hybrid p q) ≡ (matches d p || matches d q)

module _ (engine : Engine) (python : Conversions) (formats : Formats) (score : Float → Float)
    (doc : engine.Doc) where
  semantic_query-filters :
      (filters : List Clause) (vector : List Float) (count : ℕ) (least : Option Float)
      → engine.matches doc (semantic_query score filters vector count least) ≡ true
      → all_of (engine.satisfies doc) filters ≡ true
  unfolding semantic_query
  semantic_query-filters filters vector count none h = engine.semantic_filters doc _ h
  semantic_query-filters filters vector count (some least) h = engine.semantic_filters doc _ h

  mode_query-filters :
      (mode : SearchMode) (filters : List Clause) (words : String) (paths : List String)
      (vectors : Query)
      → (engine.matches doc vectors ≡ true → all_of (engine.satisfies doc) filters ≡ true)
      → engine.matches doc (mode_query mode filters words paths vectors) ≡ true
      → all_of (engine.satisfies doc) filters ≡ true
  unfolding mode_query
  mode_query-filters keyword_mode filters words paths vectors k h =
      engine.keyword_filters doc filters words paths h
  mode_query-filters semantic_mode filters words paths vectors k h = k h
  mode_query-filters hybrid_mode filters words paths vectors k h =
      elim (Bool-cases (engine.matches doc vectors)) [
        | inl near ↦ k near
        | inr far ↦
            engine.keyword_filters doc filters words paths
              (ground (arith, engine.hybrid_matches doc (keyword filters words paths) vectors))
      ]

  request_query-filters :
      (r : SearchRequest) (s : Scope) (filters : List Clause) (paths : List String)
      → engine.matches doc (request_query python formats score r s filters paths) ≡ true
      → all_of (engine.satisfies doc) filters ≡ true
  unfolding request_query
  request_query-filters r s filters paths h = elim (Bool-cases (lacks_text r.query)) [
    | inl e ↦ sym (engine.filtered_matches doc filters) ∙ (rw e at h)
    | inr e ↦
        mode_query-filters r.search_mode filters (text_or_empty r.query) paths _
          (semantic_query-filters filters (vector_or_empty s.query_vector) (candidate_count r)
            r.minimum_similarity)
          (rw e at h)
  ]

  wordless_query-matches :
      (r : SearchRequest) (s : Scope) (filters : List Clause) (paths : List String)
      → lacks_text r.query ≡ true
      → all_of (engine.satisfies doc) filters ≡ true
      → engine.matches doc (request_query python formats score r s filters paths) ≡ true
  unfolding request_query
  wordless_query-matches r s filters paths e h = rw e (engine.filtered_matches doc filters ∙ h)

  -- The document satisfies the clause of a filter on a field of the catalog.
  pub record Holds (catalog : Catalog) (f : Filter) : Type 0 where
    pub definition : FieldDefinition
    pub clause : Clause
    pub found : dict_get f.field catalog ≡ some definition
    pub compiled : filter_clause python formats f definition ≡ ok clause
    pub satisfied : engine.satisfies doc clause ≡ true

  filter_clauses-Holds :
      (catalog : Catalog) (fs : List Filter) (cs : List Clause)
      → filter_clauses python formats score catalog fs ≡ ok cs
      → all_of (engine.satisfies doc) cs ≡ true
      → All (Holds catalog) fs
  unfolding filter_clauses
  filter_clauses-Holds catalog [] cs h k = tt
  filter_clauses-Holds catalog (f ∷ fs) cs h k =
      let (d, h1, h2) = >>=-eq-ok (some_or (dict_get f.field catalog) unknown_field) _ h in
      let (c, h3, h4) = >>=-eq-ok (filter_clause python formats f d) _ h2 in
      let (rest, h5, h6) = >>=-eq-ok (filter_clauses python formats score catalog fs) _ h4 in
      let both : (engine.satisfies doc c && all_of (engine.satisfies doc) rest) ≡ true =
        subst (λ (l : List Clause). all_of (engine.satisfies doc) l ≡ true) (sym (ok-injective h6))
          k in
      let (one, others) = &&-true _ _ both in
      (
        record {
          definition = d;
          clause = c;
          found = some_or-some _ _ h1;
          compiled = h3;
          satisfied = one;
        },
        filter_clauses-Holds catalog fs rest h5 others,
      )

  Holds-filter_clauses :
      (catalog : Catalog) (fs : List Filter) (cs : List Clause)
      → filter_clauses python formats score catalog fs ≡ ok cs
      → All (Holds catalog) fs
      → all_of (engine.satisfies doc) cs ≡ true
  unfolding filter_clauses
  Holds-filter_clauses catalog [] cs h k =
      subst (λ (l : List Clause). all_of (engine.satisfies doc) l ≡ true) (ok-injective h) refl
  Holds-filter_clauses catalog (f ∷ fs) cs h (w, ws) =
      let (rest, h5, h6) =
        >>=-eq-ok (filter_clauses python formats score catalog fs) (λ rest. ok (w.clause ∷ rest))
          (rw w.compiled at (rw w.found at h)) in
      subst (λ (l : List Clause). all_of (engine.satisfies doc) l ≡ true) (ok-injective h6)
        (rw w.satisfied (Holds-filter_clauses catalog fs rest h5 ws))

  -- The document is the matter's and the tenant's, and passes the required filters and those of
  -- the request.
  pub record IsWithin (ds : List FieldDefinition) (r : SearchRequest) (s : Scope) : Type 0 where
    pub tenant : engine.satisfies doc (term "tenant_id" (str s.tenant_id)) ≡ true
    pub matter : engine.satisfies doc (term "matter_id" (str s.matter_id)) ≡ true
    pub required : all_of (engine.satisfies doc) s.required_filters ≡ true
    pub requested : All (Holds (definition_map ds)) r.filters

-- The parts of a compiled body.
pub record Compiled (python : Conversions) (formats : Formats) (score : Float → Float)
    (ds : List FieldDefinition) (r : SearchRequest) (s : Scope) (body : Body) : Type 0 where
  pub clauses : List Clause
  pub paths : List String
  pub filters_compiled :
      filter_clauses python formats score (definition_map ds) r.filters ≡ ok clauses
  pub paths_compiled : query_paths (definition_map ds) r.query_fields ≡ ok paths
  pub has_vector : (not (is_keyword r.search_mode) && not (is_some s.query_vector)) ≡ false
  pub facets_compiled : facet_aggregations (definition_map ds) r.facets [] ≡ ok body.aggs
  pub sort_compiled : sort_clauses (definition_map ds) r.sort ≡ ok body.sort
  pub query : body.query ≡ request_query python formats score r s (scope_clauses s ++ clauses) paths

module _ (python : Conversions) (formats : Formats) (score : Float → Float) where
  pub compile_search_request-Compiled :
      (r : SearchRequest) (ds : List FieldDefinition) (s : Scope) {body : Body}
      → compile_search_request python formats score r ds s ≡ ok body
      → Compiled python formats score ds r s body
  unfolding compile_search_request
  compile_search_request-Compiled r ds s h =
      let catalog = definition_map ds in
      let (cs, h1, k1) = >>=-eq-ok (filter_clauses python formats score catalog r.filters) _ h in
      let (paths, h2, k2) = >>=-eq-ok (query_paths catalog r.query_fields) _ k1 in
      let (u, h3, k3) =
        >>=-eq-ok
          (refuse (not (is_keyword r.search_mode) && not (is_some s.query_vector)) no_vector) _
          k2 in
      let (aggs, h4, k4) = >>=-eq-ok (facet_aggregations catalog r.facets []) _ k3 in
      let (sort, h5, k5) = >>=-eq-ok (sort_clauses catalog r.sort) _ k4 in
      subst (Compiled python formats score ds r s) (ok-injective k5) (record {
        clauses = cs;
        paths = paths;
        filters_compiled = h1;
        paths_compiled = h2;
        has_vector = refused-false _ _ h3;
        facets_compiled = h4;
        sort_compiled = h5;
        query = refl;
      })

-- What the query of a body finds: nothing outside the scope and the filters of the request, and,
-- where the request has no words, all within them.
pub record Answers (engine : Engine) (python : Conversions) (formats : Formats)
    (score : Float → Float) (ds : List FieldDefinition) (r : SearchRequest) (s : Scope) (q : Query)
    : Type 0 where
  pub sound :
      (doc : engine.Doc)
      → engine.matches doc q ≡ true
      → IsWithin engine python formats score doc ds r s
  pub complete :
      lacks_text r.query ≡ true
      → (doc : engine.Doc) → IsWithin engine python formats score doc ds r s
      → engine.matches doc q ≡ true

module _ (engine : Engine) (python : Conversions) (formats : Formats) (score : Float → Float) where
  -- Whatever the mode of the search, a compiled query finds only documents of its tenant and its
  -- matter that satisfy the required filters and every filter of the request; without words it
  -- finds all of these.
  pub compile_search_request-Answers :
      (r : SearchRequest) (ds : List FieldDefinition) (s : Scope) (body : Body)
      → compile_search_request python formats score r ds s ≡ ok body
      → Answers engine python formats score ds r s body.query
  compile_search_request-Answers r ds s body h = record {
    sound = λ doc m.
        let c = compile_search_request-Compiled python formats score r ds s h in
        let every : all_of (engine.satisfies doc) (scope_clauses s ++ c.clauses) ≡ true =
          request_query-filters engine python formats score doc r s _ c.paths
            (subst (λ (q : Query). engine.matches doc q ≡ true) c.query m) in
        let (tenant, later) = &&-true _ _ every in
        let (matter, rest) = &&-true _ _ later in
        let (required, requested) =
          &&-true _ _
            (sym (all_of-append (engine.satisfies doc) s.required_filters c.clauses) ∙ rest) in
        record {
          tenant = tenant;
          matter = matter;
          required = required;
          requested =
              filter_clauses-Holds engine python formats score doc (definition_map ds) r.filters
                c.clauses c.filters_compiled requested;
        };
    complete = λ wordless doc w.
        let c = compile_search_request-Compiled python formats score r ds s h in
        let requested =
          Holds-filter_clauses engine python formats score doc (definition_map ds) r.filters
            c.clauses c.filters_compiled w.requested in
        subst (λ (q : Query). engine.matches doc q ≡ true) (sym c.query)
          (wordless_query-matches engine python formats score doc r s _ c.paths wordless (
            ground (
              arith,
              w.tenant,
              w.matter,
              w.required,
              requested,
              all_of-append (engine.satisfies doc) s.required_filters c.clauses,
            )));
  }
