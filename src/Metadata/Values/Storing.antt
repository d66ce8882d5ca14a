-- ===== src/Metadata/Values/Storing.antt =====
-- A value that passes the check is stored in one column, and read back from it.
use prv_application.Prelude.{
  Bool-cases, Option, arith, count, err≢ok, inl, inr, ltb, ltb→ge, none, ok, ok-injective, refl,
  some, subst, ℕ, ◌+◌, ◌≡◌,
}
use prv_application.Metadata.Types.{
  Datetime, FieldType, Float, MetadataDefinition, Value, ValueColumns, aware, bool, boolean,
  container, date, date_type, datetime, datetime_type, decimal, enum, float, int, integer, json,
  long_text, naive, str, text, unsupported,
}
use prv_application.Metadata.Resolve.{event_value}
use prv_application.Metadata.Values.{
  Conversions, Fits, date_columns, datetime_columns, decimal_columns, in_int64, is_active_key,
  is_finite, no_columns, text_columns, typed_columns, value_columns,
}

abbrev filled : {A : Type 0} → Option A → ℕ
filled none = 0
filled (some a) = 1

-- How many of the seven columns are not null.
abbrev pub filled_columns : ValueColumns → ℕ
filled_columns c =
    filled c.value_text
    + filled c.value_long
    + filled c.value_float
    + filled c.value_boolean
    + filled c.value_date
    + filled c.value_datetime
    + filled c.value_json

-- The columns hold one value, and it fits the field.
abbrev pub Stores : MetadataDefinition → ValueColumns → Type 0
Stores definition c =
    (w : Value) × (event_value c ≡ some w)
    × Fits definition definition.type w
    × (filled_columns c ≡ 1)

module _ (python : Conversions) (definition : MetadataDefinition) where
  abbrev StoresAs : FieldType → ValueColumns → Type 0
  StoresAs t c =
      (w : Value) × (event_value c ≡ some w) × Fits definition t w × (filled_columns c ≡ 1)

  decimal-Stores :
      (f : Option Float) (c : ValueColumns) → decimal_columns python f ≡ ok c → StoresAs decimal c
  unfolding event_value no_columns
  decimal-Stores none c h = cc
  decimal-Stores (some f) c h = elim (Bool-cases (is_finite f)) [
    | inl finite ↦
        subst (StoresAs decimal) (ok-injective (rw finite at h)) (float f, refl, finite, refl)
    | inr infinite ↦ absurd (err≢ok (rw infinite at h))
  ]

  date-Stores :
      (d : Option ℕ) (c : ValueColumns) → date_columns python d ≡ ok c → StoresAs date_type c
  unfolding event_value no_columns
  date-Stores none c h = cc
  date-Stores (some d) c h = subst (StoresAs date_type) (ok-injective h) (date d, refl, tt, refl)

  datetime-Stores :
      (t : Option Datetime) (c : ValueColumns)
      → datetime_columns python t ≡ ok c
      → StoresAs datetime_type c
  unfolding event_value no_columns
  datetime-Stores none c h = cc
  datetime-Stores (some (naive t)) c h = cc
  datetime-Stores (some (aware t)) c h =
      subst (StoresAs datetime_type) (ok-injective h) (datetime (aware t), refl, tt, refl)

  typed-Stores :
      (t : FieldType) (v : Value) (c : ValueColumns)
      → typed_columns python definition t v ≡ ok c
      → StoresAs t c
  unfolding typed_columns text_columns event_value no_columns
  typed-Stores text (str s) c h = elim (Bool-cases (ltb 4000 (count s))) [
    | inl long ↦ absurd (err≢ok (rw long at h))
    | inr short ↦
        subst (StoresAs text) (ok-injective (rw short at h))
          (str s, refl, ltb→ge 4000 (count s) short, refl)
  ]
  typed-Stores text _ c h = absurd (err≢ok h)
  typed-Stores long_text (str s) c h =
      subst (StoresAs long_text) (ok-injective h) (str s, refl, tt, refl)
  typed-Stores long_text _ c h = absurd (err≢ok h)
  typed-Stores enum (str s) c h = elim (Bool-cases (is_active_key definition.allowed_values s)) [
    | inl allowed ↦
        subst (StoresAs enum) (ok-injective (rw allowed at h)) (str s, refl, allowed, refl)
    | inr unknown ↦ absurd (err≢ok (rw unknown at h))
  ]
  typed-Stores enum _ c h = absurd (err≢ok h)
  typed-Stores integer (int n) c h = elim (Bool-cases (in_int64 n)) [
    | inl fits ↦ subst (StoresAs integer) (ok-injective (rw fits at h)) (int n, refl, fits, refl)
    | inr large ↦ absurd (err≢ok (rw large at h))
  ]
  typed-Stores integer _ c h = absurd (err≢ok h)
  typed-Stores decimal (int n) c h = decimal-Stores (python.float_of_int n) c h
  typed-Stores decimal (float f) c h = decimal-Stores (some f) c h
  typed-Stores decimal _ c h = absurd (err≢ok h)
  typed-Stores boolean (bool b) c h =
      subst (StoresAs boolean) (ok-injective h) (bool b, refl, tt, refl)
  typed-Stores boolean _ c h = absurd (err≢ok h)
  typed-Stores date_type (datetime t) c h = absurd (err≢ok h)
  typed-Stores date_type (str s) c h = date-Stores (python.date_fromisoformat s) c h
  typed-Stores date_type (date d) c h = date-Stores (some d) c h
  typed-Stores date_type _ c h = absurd (err≢ok h)
  typed-Stores datetime_type (str s) c h = datetime-Stores (python.datetime_fromisoformat s) c h
  typed-Stores datetime_type (datetime t) c h = datetime-Stores (some t) c h
  typed-Stores datetime_type _ c h = absurd (err≢ok h)
  typed-Stores json (container j) c h =
      subst (StoresAs json) (ok-injective h) (container j, refl, tt, refl)
  typed-Stores json _ c h = absurd (err≢ok h)
  typed-Stores unsupported _ c h = absurd (err≢ok h)

  -- Columns that are accepted for a field have exactly one column filled, and reading them gives a
  -- value that fits the field: a text within 4000 characters, an active key, a 64-bit integer, a
  -- finite number, a date, a datetime with a timezone, and so on.
  pub value_columns-Stores :
      (v : Value) (c : ValueColumns)
      → value_columns python v definition ≡ ok c
      → Stores definition c
  unfolding value_columns
  value_columns-Stores v c h = typed-Stores definition.type v c h

  abbrev Returned : FieldType → Value → Type 0
  Returned t v =
      (c : ValueColumns) × (typed_columns python definition t v ≡ ok c) × (event_value c ≡ some v)

  typed_round_trip : (t : FieldType) (v : Value) → Fits definition t v → Returned t v
  unfolding typed_columns text_columns event_value no_columns
  typed_round_trip text (str s) h = (record no_columns { value_text = some s }, ground arith, refl)
  typed_round_trip long_text (str s) h = (record no_columns { value_text = some s }, refl, refl)
  typed_round_trip enum (str s) h = (record no_columns { value_text = some s }, rw h, refl)
  typed_round_trip integer (int n) h = (record no_columns { value_long = some n }, rw h, refl)
  typed_round_trip decimal (float f) h = (record no_columns { value_float = some f }, rw h, refl)
  typed_round_trip boolean (bool b) h = (record no_columns { value_boolean = some b }, refl, refl)
  typed_round_trip date_type (date d) h = (record no_columns { value_date = some d }, refl, refl)
  typed_round_trip datetime_type (datetime (aware t)) h =
      (record no_columns { value_datetime = some (aware t) }, refl, refl)
  typed_round_trip json (container j) h = (record no_columns { value_json = some j }, refl, refl)
  typed_round_trip _ _ h = elim h [ ]

  -- A value that fits a field is accepted, and is what its columns are read back to.
  pub value_columns-round_trip :
      (v : Value)
      → Fits definition definition.type v
      → (c : ValueColumns) × (value_columns python v definition ≡ ok c) × (event_value c ≡ some v)
  unfolding value_columns
  value_columns-round_trip v h = typed_round_trip definition.type v h
