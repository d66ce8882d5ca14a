-- ===== src/Search/Compile.antt =====
-- compile_search_request of app/search/query.py.
use Prim.Native.Char.{code}
use prv_application.Prelude.{
  Bool, List, Option, Result, String, [], count, dict_get, dict_set, false, has_text, if◌then◌else◌,
  is_some, max, min, none, not, ok, refuse, require, some, some_or, str_eq, true, ℕ, ◌&&◌, ◌++◌,
  ◌+◌, ◌==◌, ◌>>=◌, ◌>>◌, ◌||◌, ◌∷◌,
}
use prv_application.Metadata.Types.{FieldType, Float, json, long_text, str}
use prv_application.Metadata.Values.{Conversions}
use prv_application.Search.{
  Aggregation, Body, Clause, FieldDefinition, Filter, Formats, Query, SearchError, SearchMode,
  SearchRequest, SortClause, SortItem, anything, by_field, by_score, filter_clause, filtered,
  hybrid, hybrid_mode, is_text, is_text_type, keyword, keyword_mode, metadata_query_path, no_vector,
  not_a_text_field, not_sortable, semantic, semantic_mode, term, terms_of, text_not_sortable,
  unknown_facet, unknown_field,
}

abbrev pub Catalog : Type 0
Catalog = List (String × FieldDefinition)

-- The dictionary of the active and searchable definitions by their keys.
unfoldable pub add_definitions : List FieldDefinition → Catalog → Catalog
add_definitions [] catalog = catalog
add_definitions (d ∷ ds) catalog =
    add_definitions ds (if d.is_active && d.searchable then dict_set d.key d catalog else catalog)

unfoldable pub definition_map : List FieldDefinition → Catalog
unfolding add_definitions
definition_map ds = add_definitions ds []

abbrev pub default_query_fields : List String
default_query_fields =
    "original_filename^2" ∷ "email_subject^2" ∷ "email_from" ∷ "email_to" ∷ "email_cc" ∷ "email_bcc"
    ∷ "custodian_names" ∷ "source_path" ∷ "body_text" ∷ []

abbrev pub semantic_candidate_floor : ℕ
semantic_candidate_floor = 100

abbrev pub default_facet_size : ℕ
default_facet_size = 8

-- `field.split("^")[0]`
unfoldable pub before_caret : String → String
before_caret String.[] = String.[]
before_caret (String.◌∷◌ c s) =
    let rest = before_caret s in if code c == b'^' then String.[] else String.◌∷◌ c rest

-- The keys of `{field.split("^")[0]: {} for field in query_fields}`.
unfoldable pub highlight_fields : List String → List String → List String
unfolding before_caret
highlight_fields [] seen = seen
highlight_fields (f ∷ fs) seen =
    highlight_fields fs
      (if has_text (before_caret f) seen then seen else seen ++ before_caret f ∷ [])

-- `catalog.values()` that are texts, as paths.
unfoldable pub text_paths : Catalog → List String
unfolding metadata_query_path
text_paths [] = []
text_paths ((key, d) ∷ entries) =
    let rest = text_paths entries in
    if is_text_type d.type then metadata_query_path d false ∷ rest else rest

unfoldable pub named_paths : Catalog → List String → Result SearchError (List String)
unfolding metadata_query_path
named_paths catalog [] = ok []
named_paths catalog (key ∷ keys) = do
  d ← some_or (dict_get key catalog) not_a_text_field
  require (is_text_type d.type) not_a_text_field
  rest ← named_paths catalog keys
  ok (metadata_query_path d false ∷ rest)

unfoldable pub query_paths : Catalog → List String → Result SearchError (List String)
unfolding named_paths text_paths
query_paths catalog [] = ok (default_query_fields ++ text_paths catalog)
query_paths catalog (key ∷ keys) = named_paths catalog (key ∷ keys)

unfoldable pub facet_aggregations :
    Catalog
    → List String
    → List (String × Aggregation)
    → Result SearchError (List (String × Aggregation))
unfolding metadata_query_path
facet_aggregations catalog [] aggs = ok aggs
facet_aggregations catalog (key ∷ keys) aggs = do
  d ← some_or (dict_get key catalog) unknown_facet
  require d.facetable unknown_facet
  facet_aggregations catalog keys
      (dict_set key (terms_of (metadata_query_path d true) default_facet_size anything) aggs)

-- `definition.type in {"LONG_TEXT", "JSON"}`
abbrev pub is_unsorted_type : FieldType → Bool
is_unsorted_type long_text = true
is_unsorted_type json = true
is_unsorted_type _ = false

unfoldable pub sort_path : Catalog → String → Result SearchError String
unfolding metadata_query_path
sort_path catalog field =
    if str_eq field "_score" || str_eq field "created_at" then ok field else (do
      d ← some_or (dict_get field catalog) not_sortable
      refuse (is_unsorted_type d.type) not_sortable
      refuse (is_text d.type && not d.facetable) text_not_sortable
      ok (metadata_query_path d (is_text d.type)))

unfoldable pub sort_clauses : Catalog → List SortItem → Result SearchError (List SortClause)
unfolding sort_path
sort_clauses catalog [] = ok []
sort_clauses catalog (item ∷ items) = do
  path ← sort_path catalog item.field
  rest ← sort_clauses catalog items
  ok (
      (if str_eq path "_score" then by_score item.descending else by_field path item.descending)
      ∷ rest)

abbrev pub is_keyword : SearchMode → Bool
is_keyword keyword_mode = true
is_keyword _ = false

abbrev pub is_semantic : SearchMode → Bool
is_semantic semantic_mode = true
is_semantic _ = false

-- `min(10_000, max(SEMANTIC_CANDIDATE_FLOOR, request.offset + request.size))`
unfoldable pub candidate_count : SearchRequest → ℕ
candidate_count r = min 10000 (max semantic_candidate_floor (r.offset + r.size))

-- `not request.query`
abbrev pub lacks_text : Option String → Bool
lacks_text none = true
lacks_text (some s) = str_eq s ""

abbrev pub text_or_empty : Option String → String
text_or_empty none = ""
text_or_empty (some s) = s

abbrev pub vector_or_empty : Option (List Float) → List Float
vector_or_empty none = []
vector_or_empty (some v) = v

-- `score` is cosine_similarity_to_opensearch_score, an expression on floats.
unfoldable pub semantic_query :
    (score : Float → Float) → List Clause → List Float → ℕ → Option Float → Query
semantic_query score filters vector count none =
    semantic (record { vector = vector; filters = filters; k = some count; min_score = none })
semantic_query score filters vector count (some similarity) =
    semantic
      (record { vector = vector; filters = filters; k = none; min_score = some (score similarity) })

unfoldable pub mode_query :
    SearchMode → (filters : List Clause) → String → List String → (vectors : Query) → Query
mode_query keyword_mode filters words paths vectors = keyword filters words paths
mode_query semantic_mode filters words paths vectors = vectors
mode_query hybrid_mode filters words paths vectors = hybrid (keyword filters words paths) vectors

-- The arguments of `compile_search_request` beside the request and the definitions.
pub record Scope : Type 0 where
  pub tenant_id : String
  pub matter_id : String
  pub query_vector : Option (List Float)
  pub required_filters : List Clause

abbrev pub scope_clauses : Scope → List Clause
scope_clauses s =
    term "tenant_id" (str s.tenant_id) ∷ term "matter_id" (str s.matter_id) ∷ s.required_filters

module _ (python : Conversions) (formats : Formats) (score : Float → Float) where
  unfoldable pub filter_clauses : Catalog → List Filter → Result SearchError (List Clause)
  unfolding filter_clause
  filter_clauses catalog [] = ok []
  filter_clauses catalog (f ∷ fs) = do
    d ← some_or (dict_get f.field catalog) unknown_field
    c ← filter_clause python formats f d
    rest ← filter_clauses catalog fs
    ok (c ∷ rest)

  unfoldable pub request_query : SearchRequest → Scope → List Clause → List String → Query
  unfolding mode_query semantic_query candidate_count
  request_query r s filters paths =
      if lacks_text r.query
      then filtered filters
      else mode_query r.search_mode filters (text_or_empty r.query) paths (
          semantic_query score filters (vector_or_empty s.query_vector) (candidate_count r)
            r.minimum_similarity)

  unfoldable pub compile_search_request :
      SearchRequest → List FieldDefinition → Scope → Result SearchError Body
  unfolding definition_map filter_clauses query_paths facet_aggregations sort_clauses
      highlight_fields request_query
  compile_search_request r definitions s = do
    let catalog = definition_map definitions
    clauses ← filter_clauses catalog r.filters
    paths ← query_paths catalog r.query_fields
    refuse (not (is_keyword r.search_mode) && not (is_some s.query_vector)) no_vector
    aggs ← facet_aggregations catalog r.facets []
    sort ← sort_clauses catalog r.sort
    ok (record {
      from = r.offset;
      size = r.size;
      query = request_query r s (scope_clauses s ++ clauses) paths;
      highlight = if is_semantic r.search_mode then none else some (highlight_fields paths []);
      aggs = aggs;
      sort = sort;
    })
