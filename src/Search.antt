-- ===== src/Search.antt =====
-- app/search/query.py: the request of a search, the body of the query that it compiles to, and the
-- clause of one filter, with metadata_query_path of app/search/mappings.py.
pub mod Compile
pub mod Requests
pub mod Scoped
pub mod Accepted
pub mod Facets
mod Examples
use prv_application.Prelude.{
  Bool, List, Option, Result, String, [], err, false, if◌then◌else◌, none, not, ok, refuse, require,
  some, some_or, str_append, true, ℕ, ◌&&◌, ◌>>=◌, ◌>>◌, ◌∷◌,
}
use prv_application.Metadata.Types.{
  Datetime, EnumValue, FieldType, Float, Value, bool, boolean, date, date_type, datetime,
  datetime_type, decimal, enum, float, int, integer, json, long_text, other, str, text, unsupported,
}
use prv_application.Metadata.Values.{Conversions, is_active_key}

-- The columns of MetadataDefinition that a search reads.
pub record FieldDefinition : Type 0 where
  pub key : String
  pub type : FieldType
  pub allowed_values : List EnumValue
  pub is_active : Bool  -- status == "ACTIVE"
  pub searchable : Bool
  pub facetable : Bool

pub data Operator : Type 0 where
  equals is_in range exists : Operator

-- MatterSearchFilter, whose `values or []` is a list.
pub record Filter : Type 0 where
  pub field : String
  pub operator : Operator
  pub value : Option Value
  pub values : List Value
  pub from_value : Option Value
  pub to_value : Option Value

pub data SearchMode : Type 0 where
  keyword_mode semantic_mode hybrid_mode : SearchMode

pub record SortItem : Type 0 where
  pub field : String
  pub descending : Bool

pub record SearchRequest : Type 0 where
  pub query : Option String
  pub search_mode : SearchMode
  pub minimum_similarity : Option Float
  pub query_fields : List String
  pub filters : List Filter
  pub facets : List String
  pub sort : List SortItem
  pub offset : ℕ
  pub size : ℕ

-- A clause of a `filter` list.
pub data Clause : Type 0 where
  term : String → Value → Clause
  terms : String → List Value → Clause
  match_phrase : String → Value → Clause
  range_of : String → Option Value → Option Value → Clause
  exists_at : String → Clause

-- The `knn` query on the chunks: exactly one of `k` and `min_score` is there.
pub record VectorQuery : Type 0 where
  pub vector : List Float
  pub filters : List Clause
  pub k : Option ℕ
  pub min_score : Option Float

pub data Query : Type 0 where
  filtered : List Clause → Query
  keyword : List Clause → String → List String → Query
  semantic : VectorQuery → Query
  hybrid : Query → Query → Query

pub data Include : Type 0 where
  anything : Include
  listed : List String → Include
  containing : String → Include

pub data Interval : Type 0 where
  week month year : Interval

pub data Aggregation : Type 0 where
  terms_of : String → ℕ → Include → Aggregation
  histogram_of : String → Interval → Aggregation

pub data SortClause : Type 0 where
  by_score : Bool → SortClause
  by_field : String → Bool → SortClause

pub record Body : Type 0 where
  pub from : ℕ
  pub size : ℕ
  pub query : Query
  pub highlight : Option (List String)
  pub aggs : List (String × Aggregation)
  pub sort : List SortClause

-- The details of the 422 answers.
pub data SearchError : Type 0 where
  not_active_value invalid_value no_search_values no_search_filters not_facetable : SearchError
  no_range unknown_field not_a_text_field no_vector unknown_facet not_sortable : SearchError
  text_not_sortable unknown_date_field : SearchError

-- `definition.type in {"TEXT", "LONG_TEXT"}`
abbrev pub is_text_type : FieldType → Bool
is_text_type text = true
is_text_type long_text = true
is_text_type _ = false

abbrev pub is_range_type : FieldType → Bool
is_range_type integer = true
is_range_type decimal = true
is_range_type date_type = true
is_range_type datetime_type = true
is_range_type _ = false

abbrev pub is_text : FieldType → Bool
is_text text = true
is_text _ = false

abbrev pub is_json : FieldType → Bool
is_json json = true
is_json _ = false

unfoldable pub metadata_query_path : FieldDefinition → Bool → String
metadata_query_path d exact =
    let path = str_append "metadata." d.key in
    if exact && is_text d.type then str_append path ".exact" else path

-- `isoformat` of Python's dates and datetimes.
pub record Formats : Type 0 where
  pub date_isoformat : ℕ → String
  pub datetime_isoformat : Datetime → String

-- None fails the test of every class.
abbrev pub value_or_none : Option Value → Value
value_or_none none = other
value_or_none (some v) = v

module _ (python : Conversions) (formats : Formats) where
  -- The tests on the type of the field, each with its tests on the value's class.
  unfoldable pub typed_value_of : FieldDefinition → FieldType → Value → Result SearchError Value
  unfolding is_active_key
  typed_value_of d text (str s) = ok (str s)
  typed_value_of d long_text (str s) = ok (str s)
  typed_value_of d enum (str s) =
      if is_active_key d.allowed_values s then ok (str s) else err not_active_value
  typed_value_of d integer (int n) = ok (int n)
  typed_value_of d decimal (int n) = ok (int n)
  typed_value_of d decimal (float f) = ok (float f)
  typed_value_of d boolean (bool b) = ok (bool b)
  typed_value_of d date_type (date n) = ok (str (formats.date_isoformat n))
  typed_value_of d date_type (str s) = do
    n ← some_or (python.date_fromisoformat s) invalid_value
    ok (str (formats.date_isoformat n))
  typed_value_of d datetime_type (datetime t) = ok (str (formats.datetime_isoformat t))
  typed_value_of d datetime_type (str s) = do
    t ← some_or (python.datetime_fromisoformat s) invalid_value
    ok (str (formats.datetime_isoformat t))
  typed_value_of d json v = err no_search_values
  typed_value_of d unsupported v = err no_search_values
  typed_value_of d _ _ = err invalid_value

  unfoldable pub typed_value : FieldDefinition → Value → Result SearchError Value
  unfolding typed_value_of
  typed_value d v = typed_value_of d d.type v

  unfoldable pub typed_values : FieldDefinition → List Value → Result SearchError (List Value)
  unfolding typed_value
  typed_values d [] = ok []
  typed_values d (v ∷ vs) = do t ← typed_value d v; ts ← typed_values d vs; ok (t ∷ ts)

  -- A bound that is not None.
  unfoldable pub typed_bound : FieldDefinition → Option Value → Result SearchError (Option Value)
  unfolding typed_value
  typed_bound d none = ok none
  typed_bound d (some v) = do t ← typed_value d v; ok (some t)

  unfoldable pub operator_clause : Operator → Filter → FieldDefinition → Result SearchError Clause
  unfolding metadata_query_path typed_value typed_values typed_bound
  operator_clause exists f d = ok (exists_at (metadata_query_path d false))
  operator_clause equals f d = do
    t ← typed_value d (value_or_none f.value)
    ok (
        if is_text_type d.type && not d.facetable
        then match_phrase (metadata_query_path d false) t
        else term (metadata_query_path d d.facetable) t)
  operator_clause is_in f d = do
    refuse (is_text_type d.type && not d.facetable) not_facetable
    ts ← typed_values d f.values
    ok (terms (metadata_query_path d d.facetable) ts)
  operator_clause range f d = do
    require (is_range_type d.type) no_range
    gte ← typed_bound d f.from_value
    lte ← typed_bound d f.to_value
    ok (range_of (metadata_query_path d false) gte lte)

  unfoldable pub filter_clause : Filter → FieldDefinition → Result SearchError Clause
  unfolding operator_clause
  filter_clause f d = do refuse (is_json d.type) no_search_filters; operator_clause f.operator f d
