-- ===== src/Search/Accepted.antt =====
-- What the values, the vector queries and the aggregations of a compiled body are.
use prv_application.Search.Compile.{
  Scope, candidate_count, compile_search_request, is_keyword, lacks_text, mode_query, request_query,
  scope_clauses, semantic_query, text_or_empty, vector_or_empty,
}
use prv_application.Search.Scoped.{compile_search_request-Compiled}
use prv_application.Metadata.Types.{
  Datetime, EnumValue, FieldType, Float, Value, bool, boolean, date, date_type, datetime,
  datetime_type, decimal, enum, float, int, integer, json, long_text, str, text, unsupported,
}
use prv_application.Metadata.Values.{Conversions, is_active_key}
use prv_application.Search.{
  Body, Clause, FieldDefinition, Filter, Formats, Operator, Query, SearchMode, SearchRequest,
  VectorQuery, equals, exists, exists_at, filter_clause, filtered, hybrid, hybrid_mode,
  invalid_value, is_in, is_json, is_range_type, is_text_type, keyword, keyword_mode, match_phrase,
  no_range, no_search_filters, not_facetable, operator_clause, range, range_of, semantic,
  semantic_mode, term, terms, typed_bound, typed_value, typed_value_of, typed_values, value_or_none,
}
use prv_application.Prelude.{
  >>=-eq-ok, Memᴰ, eq_iff, str_eq, All, All-append, Bool-cases, Ensures, Ensures-at, List, Option,
  String, [], arith, false, if_holds, inl, inr, is_some, min, none, not, ok, ok-injective, refl,
  refuse, require, some, some_or, subst, sym, true, ℕ, ◌&&◌, ◌++◌, ◌+◌, ◌>>=◌, ◌∷◌, ◌≡◌, ◌≤◌,
}

-- A value that a filter on a field of the type may carry; dates are texts that isoformat gave.
abbrev pub IsTyped : Formats → FieldDefinition → FieldType → Value → Type 0
IsTyped formats d text (str s) = Unit
IsTyped formats d long_text (str s) = Unit
IsTyped formats d enum (str s) =
    (v : EnumValue) × Memᴰ v d.allowed_values × (v.active ≡ true) × (v.key ≡ s)
IsTyped formats d integer (int n) = Unit
IsTyped formats d decimal (int n) = Unit
IsTyped formats d decimal (float f) = Unit
IsTyped formats d boolean (bool b) = Unit
IsTyped formats d date_type (str s) = (n : ℕ) × (s ≡ formats.date_isoformat n)
IsTyped formats d datetime_type (str s) = (t : Datetime) × (s ≡ formats.datetime_isoformat t)
IsTyped formats d _ _ = ⊥

active_value :
    (vs : List EnumValue) (s : String)
    → is_active_key vs s ≡ true
    → (v : EnumValue) × Memᴰ v vs × (v.active ≡ true) × (v.key ≡ s)
unfolding is_active_key
active_value [] s h = cc
active_value (v ∷ vs) s h = elim (Bool-cases (v.active && str_eq v.key s)) [
  | inl e ↦ (v, Memᴰ.head refl, ground arith, (eq_iff v.key s).0 (ground arith))
  | inr e ↦
      let (w, m, active, named) = active_value vs s (ground (arith, e)) in
      (w, Memᴰ.tail m, active, named)
]

unfoldable pub optional_values : Option Value → List Value
optional_values none = []
optional_values (some v) = v ∷ []

-- The values that a clause names.
unfoldable pub clause_values : Clause → List Value
unfolding optional_values
clause_values (term path v) = v ∷ []
clause_values (terms path vs) = vs
clause_values (match_phrase path v) = v ∷ []
clause_values (range_of path gte lte) = optional_values gte ++ optional_values lte
clause_values (exists_at path) = []

module _ (python : Conversions) (formats : Formats) where
  parsed-Typed :
      {A : Type 0} (o : Option A) (show : A → String) (P : Value → Type 0)
      → ((a : A) → P (str (show a)))
      → Ensures P (some_or o invalid_value >>= λ a. ok (str (show a)))
  parsed-Typed none show P p = tt
  parsed-Typed (some a) show P p = p a

  typed_value_of-IsTyped :
      (d : FieldDefinition) (type : FieldType) (v : Value)
      → Ensures (IsTyped formats d type) (typed_value_of python formats d type v)
  unfolding typed_value_of
  typed_value_of-IsTyped d text (str s) = tt
  typed_value_of-IsTyped d text _ = tt
  typed_value_of-IsTyped d long_text (str s) = tt
  typed_value_of-IsTyped d long_text _ = tt
  typed_value_of-IsTyped d enum (str s) = elim (Bool-cases (is_active_key d.allowed_values s)) [
    | inl e ↦ rw e (active_value d.allowed_values s e)
    | inr e ↦ rw e tt
  ]
  typed_value_of-IsTyped d enum _ = tt
  typed_value_of-IsTyped d integer (int n) = tt
  typed_value_of-IsTyped d integer _ = tt
  typed_value_of-IsTyped d decimal (int n) = tt
  typed_value_of-IsTyped d decimal (float f) = tt
  typed_value_of-IsTyped d decimal _ = tt
  typed_value_of-IsTyped d boolean (bool b) = tt
  typed_value_of-IsTyped d boolean _ = tt
  typed_value_of-IsTyped d date_type (date n) = (n, refl)
  typed_value_of-IsTyped d date_type (str s) =
      parsed-Typed (python.date_fromisoformat s) formats.date_isoformat
        (IsTyped formats d date_type) (λ a. (a, refl))
  typed_value_of-IsTyped d date_type _ = tt
  typed_value_of-IsTyped d datetime_type (datetime t) = (t, refl)
  typed_value_of-IsTyped d datetime_type (str s) =
      parsed-Typed (python.datetime_fromisoformat s) formats.datetime_isoformat
        (IsTyped formats d datetime_type) (λ a. (a, refl))
  typed_value_of-IsTyped d datetime_type _ = tt
  typed_value_of-IsTyped d json v = tt
  typed_value_of-IsTyped d unsupported v = tt

  typed_value-IsTyped :
      (d : FieldDefinition) (v : Value) {t : Value}
      → typed_value python formats d v ≡ ok t
      → IsTyped formats d d.type t
  unfolding typed_value
  typed_value-IsTyped d v h =
      Ensures-at (IsTyped formats d d.type) (typed_value python formats d v) h
        (typed_value_of-IsTyped d d.type v)

  typed_values-IsTyped :
      (d : FieldDefinition) (vs : List Value) {ts : List Value}
      → typed_values python formats d vs ≡ ok ts
      → All (IsTyped formats d d.type) ts
  unfolding typed_values
  typed_values-IsTyped d [] h = subst (All (IsTyped formats d d.type)) (ok-injective h) tt
  typed_values-IsTyped d (v ∷ vs) h =
      let (t, h1, k1) = >>=-eq-ok (typed_value python formats d v) _ h in
      let (ts, h2, k2) = >>=-eq-ok (typed_values python formats d vs) _ k1 in
      subst (All (IsTyped formats d d.type)) (ok-injective k2)
        (typed_value-IsTyped d v h1, typed_values-IsTyped d vs h2)

  typed_bound-IsTyped :
      (d : FieldDefinition) (o : Option Value) {t : Option Value}
      → typed_bound python formats d o ≡ ok t
      → All (IsTyped formats d d.type) (optional_values t)
  unfolding typed_bound optional_values
  typed_bound-IsTyped d none h =
      subst (λ (t : Option Value). All (IsTyped formats d d.type) (optional_values t))
        (ok-injective h) tt
  typed_bound-IsTyped d (some v) h =
      let (t, h1, k1) = >>=-eq-ok (typed_value python formats d v) _ h in
      subst (λ (o : Option Value). All (IsTyped formats d d.type) (optional_values o))
        (ok-injective k1) (typed_value-IsTyped d v h1, tt)

  abbrev ClauseTyped : FieldDefinition → Clause → Type 0
  ClauseTyped d c = All (IsTyped formats d d.type) (clause_values c)

  operator_clause-Typed :
      (o : Operator) (f : Filter) (d : FieldDefinition) {c : Clause}
      → operator_clause python formats o f d ≡ ok c
      → ClauseTyped d c
  unfolding operator_clause clause_values optional_values
  operator_clause-Typed exists f d h = subst (ClauseTyped d) (ok-injective h) tt
  operator_clause-Typed equals f d h =
      let (t, h1, k1) = >>=-eq-ok (typed_value python formats d (value_or_none f.value)) _ h in
      let typed = typed_value-IsTyped d (value_or_none f.value) h1 in
      subst (ClauseTyped d) (ok-injective k1) (
        if_holds (ClauseTyped d) (is_text_type d.type && not d.facetable) _ _ (typed, tt)
          (typed, tt))
  operator_clause-Typed is_in f d h =
      let (u, h1, k1) =
        >>=-eq-ok (refuse (is_text_type d.type && not d.facetable) not_facetable) _ h in
      let (ts, h2, k2) = >>=-eq-ok (typed_values python formats d f.values) _ k1 in
      subst (ClauseTyped d) (ok-injective k2) (typed_values-IsTyped d f.values h2)
  operator_clause-Typed range f d h =
      let (u, h1, k1) = >>=-eq-ok (require (is_range_type d.type) no_range) _ h in
      let (gte, h2, k2) = >>=-eq-ok (typed_bound python formats d f.from_value) _ k1 in
      let (lte, h3, k3) = >>=-eq-ok (typed_bound python formats d f.to_value) _ k2 in
      subst (ClauseTyped d) (ok-injective k3) (
        All-append (IsTyped formats d d.type) (optional_values gte) (optional_values lte)
          (typed_bound-IsTyped d f.from_value h2) (typed_bound-IsTyped d f.to_value h3))

  -- Every value in the clause of an accepted filter has the type of the field: a text or an active
  -- key for a text or an ENUM, an integer, a number or a truth value for such a field, and for a
  -- date a text that `isoformat` gives for some date.
  pub filter_clause-IsTyped :
      (f : Filter) (d : FieldDefinition) (c : Clause)
      → filter_clause python formats f d ≡ ok c
      → All (IsTyped formats d d.type) (clause_values c)
  unfolding filter_clause
  filter_clause-IsTyped f d c h =
      let (u, h1, k1) = >>=-eq-ok (refuse (is_json d.type) no_search_filters) _ h in
      operator_clause-Typed f.operator f d k1

unfoldable pub vector_queries : Query → List VectorQuery
vector_queries (filtered fs) = []
vector_queries (keyword fs words paths) = []
vector_queries (semantic v) = v ∷ []
vector_queries (hybrid p q) = vector_queries p ++ vector_queries q

-- A vector query has the vector that was given; it asks for a number of candidates or for a least
-- score, and the candidates cover the page of the request up to the limit of 10,000.
pub data IsBounded (r : SearchRequest) (s : Scope) (v : VectorQuery) : Type 0 where
  counted :
      (k : ℕ)
      → v.k ≡ some k
      → v.min_score ≡ none
      → 100 ≤ k
      → k ≤ 10000
      → min 10000 (r.offset + r.size) ≤ k
      → s.query_vector ≡ some v.vector
      → IsBounded r s v
  scored :
      (least : Float)
      → v.k ≡ none
      → v.min_score ≡ some least
      → s.query_vector ≡ some v.vector
      → IsBounded r s v

module _ (python : Conversions) (formats : Formats) (score : Float → Float) where
  given_vector : (o : Option (List Float)) → is_some o ≡ true → o ≡ some (vector_or_empty o)
  given_vector none h = cc
  given_vector (some v) h = refl

  semantic_query-IsBounded :
      (r : SearchRequest) (s : Scope) (filters : List Clause) (least : Option Float)
      → is_some s.query_vector ≡ true
      → All (IsBounded r s) (
          vector_queries (
            semantic_query score filters
              (vector_or_empty s.query_vector)
              (candidate_count r)
              least))
  unfolding semantic_query vector_queries candidate_count
  semantic_query-IsBounded r s filters none h = (
    counted _ refl refl (omega arith) (omega arith) (omega arith) (given_vector s.query_vector h),
    tt,
  )
  semantic_query-IsBounded r s filters (some least) h =
      (scored _ refl refl (given_vector s.query_vector h), tt)

  mode_query-IsBounded :
      (r : SearchRequest) (s : Scope) (mode : SearchMode) (filters : List Clause) (words : String)
      (paths : List String) (vectors : Query)
      → (is_keyword mode ≡ false → All (IsBounded r s) (vector_queries vectors))
      → All (IsBounded r s) (vector_queries (mode_query mode filters words paths vectors))
  unfolding mode_query vector_queries
  mode_query-IsBounded r s keyword_mode filters words paths vectors h = tt
  mode_query-IsBounded r s semantic_mode filters words paths vectors h = h refl
  mode_query-IsBounded r s hybrid_mode filters words paths vectors h = h refl

  -- Every vector query of a compiled body has the vector that the caller gave, and asks either for
  -- a least score or for between 100 and 10,000 candidates, which are as many as the page of the
  -- request reaches, up to 10,000.
  pub compile_search_request-IsBounded :
      (r : SearchRequest) (ds : List FieldDefinition) (s : Scope) (body : Body)
      → compile_search_request python formats score r ds s ≡ ok body
      → All (IsBounded r s) (vector_queries body.query)
  unfolding request_query vector_queries
  compile_search_request-IsBounded r ds s body h =
      let c = compile_search_request-Compiled python formats score r ds s h in
      let filters = scope_clauses s ++ c.clauses in
      subst (λ (q : Query). All (IsBounded r s) (vector_queries q)) (sym c.query)
        (if_holds (λ (q : Query). All (IsBounded r s) (vector_queries q)) (lacks_text r.query) _ _
          tt
          (mode_query-IsBounded r s r.search_mode filters (text_or_empty r.query) c.paths _ λ m.
            semantic_query-IsBounded r s filters r.minimum_similarity
              (ground (arith, c.has_vector))))
