-- ===== src/Search/Requests.antt =====
-- compile_facet_values_request and compile_date_histogram_request of app/search/query.py.
use prv_application.Metadata.Types.{FieldType, Float, date_type, datetime_type}
use prv_application.Metadata.Values.{Conversions}
use prv_application.Search.{
  Aggregation, Body, FieldDefinition, Filter, Formats, Include, Interval, SearchError,
  SearchRequest, anything, containing, histogram_of, listed, metadata_query_path, terms_of,
  unknown_date_field, unknown_facet,
}
use prv_application.Search.Compile.{Scope, compile_search_request, definition_map}
use prv_application.Prelude.{
  Bool, List, Option, Result, String, [], dict_get, dict_set, err, false, if◌then◌else◌, none, not,
  ok, require, select, some, some_or, str_append, str_eq, true, ℕ, ◌>>=◌, ◌>>◌, ◌∷◌,
}

-- `[item for item in request.filters if item.field != field]`
unfoldable pub without_field : String → List Filter → List Filter
without_field field fs = select (λ (f : Filter). not (str_eq f.field field)) fs

unfoldable pub scoped_request : SearchRequest → String → List String → SearchRequest
unfolding without_field
scoped_request r field facets = record r {
  filters = without_field field r.filters;
  facets = facets;
  offset = 0;
  size = 1;
}

-- `include` and `size` of the terms aggregation, which `body["aggs"][field]` must be.
unfoldable pub resized : ℕ → Include → Option Aggregation → Result SearchError Aggregation
resized size included (some (terms_of path old shown)) = ok (terms_of path size included)
resized size included (some (histogram_of path interval)) = err unknown_facet
resized size included none = err unknown_facet

-- `escape` is `re.escape`; an empty `value_query` counts as None.
abbrev pub included_values :
    (escape : String → String) → Option (List String) → Option String → Include
included_values escape (some values) value_query = listed values
included_values escape none none = anything
included_values escape none (some words) =
    if str_eq words ""
    then anything
    else containing (str_append ".*" (str_append (escape words) ".*"))

abbrev pub is_date_type : FieldType → Bool
is_date_type date_type = true
is_date_type datetime_type = true
is_date_type _ = false

module _ (python : Conversions) (formats : Formats) (score : Float → Float) where
  unfoldable pub compile_facet_values_request :
      (escape : String → String)
      → SearchRequest
      → List FieldDefinition
      → String
      → Option String
      → ℕ
      → Option (List String)
      → Scope
      → Result SearchError Body
  unfolding definition_map scoped_request compile_search_request resized
  compile_facet_values_request escape r ds field value_query size include_values s = do
    d ← some_or (dict_get field (definition_map ds)) unknown_facet
    require d.facetable unknown_facet
    body ← compile_search_request python formats score (scoped_request r field (field ∷ [])) ds s
    counted ←
        resized size (included_values escape include_values value_query) (dict_get field body.aggs)
    ok (record body { size = 0; highlight = none; aggs = dict_set field counted body.aggs })

  unfoldable pub compile_date_histogram_request :
      SearchRequest → List FieldDefinition → String → Interval → Scope → Result SearchError Body
  unfolding definition_map scoped_request compile_search_request metadata_query_path
  compile_date_histogram_request r ds field interval s = do
    d ← some_or (dict_get field (definition_map ds)) unknown_date_field
    require (is_date_type d.type) unknown_date_field
    body ← compile_search_request python formats score (scoped_request r field []) ds s
    ok (record body {
      size = 0;
      highlight = none;
      aggs = (field, histogram_of (metadata_query_path d false) interval) ∷ [];
    })
