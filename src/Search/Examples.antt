-- ===== src/Search/Examples.antt =====
-- Runs of the search compiler on a small catalog, and its theorems at these inputs.
use prv_application.Metadata.Types.{FieldType, Float, enum, str, text}
use prv_application.Metadata.Values.{Conversions}
use prv_application.Search.{
  Body, Clause, FieldDefinition, Filter, Formats, Query, SearchMode, SearchRequest, VectorQuery,
  anything, containing, equals, filter_clause, filtered, hybrid, hybrid_mode, keyword, keyword_mode,
  not_active_value, semantic, term, terms_of,
}
use prv_application.Search.Compile.{Scope, compile_search_request, default_query_fields}
use prv_application.Search.Requests.{compile_facet_values_request}
use prv_application.Search.Scoped.{Answers, Engine, compile_search_request-Answers}
use prv_application.Search.Accepted.{
  IsBounded, IsTyped, clause_values, compile_search_request-IsBounded, filter_clause-IsTyped,
  vector_queries,
}
use prv_application.Search.Facets.{CountsFacet, compile_facet_values_request-CountsFacet}
use prv_application.Prelude.{
  All, Bool, List, Option, String, [], all_of, err, false, if◌then◌else◌, none, ok, refl, some,
  str_eq, true, ◌&&◌, ◌++◌, ◌||◌, ◌∷◌, ◌≡◌,
}

abbrev field_named : String → FieldType → Bool → FieldDefinition
field_named key type facetable = record {
  key = key;
  type = type;
  allowed_values =
      record { key = "open"; label = "Open"; description = none; active = true }
      ∷ record { key = "gone"; label = "Gone"; description = none; active = false }
      ∷ [];
  is_active = true;
  searchable = true;
  facetable = facetable;
}

abbrev catalog_rows : List FieldDefinition
catalog_rows = field_named "state" enum true ∷ field_named "title" text false ∷ []

abbrev state_is : String → Filter
state_is s = record {
  field = "state";
  operator = equals;
  value = some (str s);
  values = [];
  from_value = none;
  to_value = none;
}

abbrev request_of : Option String → SearchMode → String → SearchRequest
request_of words mode state = record {
  query = words;
  search_mode = mode;
  minimum_similarity = none;
  query_fields = [];
  filters = state_is state ∷ [];
  facets = "state" ∷ [];
  sort = [];
  offset = 40;
  size = 100;
}

abbrev scope : Scope
scope = record {
  tenant_id = "t1";
  matter_id = "m1";
  query_vector = some (1 ∷ 2 ∷ []);
  required_filters = [];
}

abbrev no_dates : Conversions
no_dates = record {
  date_fromisoformat = λ s. none;
  datetime_fromisoformat = λ s. none;
  float_of_int = λ n. none;
}

abbrev no_formats : Formats
no_formats = record { date_isoformat = λ n. ""; datetime_isoformat = λ t. "" }

abbrev same_score : Float → Float
same_score f = f

abbrev scope_terms : List Clause
scope_terms =
    term "tenant_id" (str "t1")
    ∷ term "matter_id" (str "m1")
    ∷ term "metadata.state" (str "open")
    ∷ []

abbrev keyword_paths : List String
keyword_paths = default_query_fields ++ "metadata.title" ∷ []

abbrev near : VectorQuery
near = record { vector = 1 ∷ 2 ∷ []; filters = scope_terms; k = some 140; min_score = none }

abbrev hybrid_body : Body
hybrid_body = record {
  from = 40;
  size = 100;
  query = hybrid (keyword scope_terms "fraud" keyword_paths) (semantic near);
  highlight = some (
      "original_filename" ∷ "email_subject" ∷ "email_from" ∷ "email_to" ∷ "email_cc" ∷ "email_bcc"
      ∷ "custodian_names" ∷ "source_path" ∷ "body_text" ∷ "metadata.title" ∷ []);
  aggs = ("state", terms_of "metadata.state" 8 anything) ∷ [];
  sort = [];
}

abbrev hybrid_request : SearchRequest
hybrid_request = request_of (some "fraud") hybrid_mode "open"

compile_hybrid :
    compile_search_request no_dates no_formats same_score hybrid_request catalog_rows scope
    ≡ ok hybrid_body
unfolding compile_search_request
compile_hybrid = refl

compile_inactive :
    compile_search_request no_dates no_formats same_score
      (request_of none keyword_mode "gone")
      catalog_rows
      scope
    ≡ err not_active_value
unfolding compile_search_request
compile_inactive = refl

-- An engine over documents that are lists of the clauses that they satisfy.
unfoldable has_clause : Clause → List (String × String) → Bool
has_clause (term path (str s)) [] = false
has_clause (term path (str s)) ((p, v) ∷ pairs) =
    let rest = has_clause (term path (str s)) pairs in
    if str_eq p path && str_eq v s then true else rest
has_clause _ _ = false

unfoldable matches_query : List (String × String) → Query → Bool
unfolding has_clause
matches_query doc (filtered fs) = all_of (λ c. has_clause c doc) fs
matches_query doc (keyword fs words paths) = all_of (λ c. has_clause c doc) fs
matches_query doc (semantic v) = all_of (λ c. has_clause c doc) v.filters
matches_query doc (hybrid p q) = matches_query doc p || matches_query doc q

pair_engine : Engine
unfolding matches_query
pair_engine = record {
  Doc = List (String × String);
  satisfies = λ doc c. has_clause c doc;
  matches = matches_query;
  filtered_matches = λ doc fs. refl;
  keyword_filters = λ doc fs words paths h. h;
  semantic_filters = λ doc v h. h;
  hybrid_matches = λ doc p q. refl;
}

compile_search_request-Answers_example :
    Answers pair_engine no_dates no_formats same_score catalog_rows hybrid_request scope
      (hybrid (keyword scope_terms "fraud" keyword_paths) (semantic near))
compile_search_request-Answers_example =
    compile_search_request-Answers pair_engine no_dates no_formats same_score hybrid_request
      catalog_rows scope hybrid_body compile_hybrid

filter_clause-IsTyped_example :
    All
      (IsTyped no_formats (field_named "state" enum true) enum)
      (clause_values (term "metadata.state" (str "open")))
filter_clause-IsTyped_example =
    filter_clause-IsTyped no_dates no_formats (state_is "open") (field_named "state" enum true)
      (term "metadata.state" (str "open")) open_clause
  where
    open_clause :
        filter_clause no_dates no_formats (state_is "open") (field_named "state" enum true)
        ≡ ok (term "metadata.state" (str "open"))
    open_clause = unfold filter_clause in refl

compile_search_request-IsBounded_example :
    All (IsBounded hybrid_request scope) (vector_queries hybrid_body.query)
compile_search_request-IsBounded_example =
    compile_search_request-IsBounded no_dates no_formats same_score hybrid_request catalog_rows
      scope hybrid_body compile_hybrid

abbrev facet_body : Body
facet_body = record {
  from = 0;
  size = 0;
  query = filtered (term "tenant_id" (str "t1") ∷ term "matter_id" (str "m1") ∷ []);
  highlight = none;
  aggs = ("state", terms_of "metadata.state" 20 (containing ".*op.*")) ∷ [];
  sort = [];
}

abbrev wordless : SearchRequest
wordless = request_of none keyword_mode "open"

compile_facet :
    compile_facet_values_request no_dates no_formats same_score
      (λ s. s)
      wordless
      catalog_rows
      "state"
      (some "op")
      20
      none
      scope
    ≡ ok facet_body
unfolding compile_facet_values_request
compile_facet = refl

compile_facet_values_request-CountsFacet_example :
    CountsFacet pair_engine no_dates no_formats same_score catalog_rows wordless scope "state" 20
      (containing ".*op.*")
      facet_body
compile_facet_values_request-CountsFacet_example =
    compile_facet_values_request-CountsFacet pair_engine no_dates no_formats same_score (λ s. s)
      wordless catalog_rows "state" (some "op") 20 none scope facet_body compile_facet
