-- ===== src/Metadata/Values.antt =====
-- `value_columns` of app/document_metadata.py: the check of a value against the type of its field,
-- and the column that stores it.
pub mod Storing
use prv_application.Prelude.{
  Bool, List, Option, Result, String, [], count, err, false, if◌then◌else◌, ltb, negsuc, none, not,
  ok, pos, some, str_eq, true, ℕ, ℤ, ◌%◌, ◌&&◌, ◌/◌, ◌==◌, ◌^◌, ◌||◌, ◌∷◌, ◌≡◌, ◌≤◌,
}
use prv_application.Metadata.Types.{
  Datetime, EnumValue, FieldType, Float, MetadataDefinition, Value, ValueColumns, aware, bool,
  boolean, container, date, date_type, datetime, datetime_type, decimal, enum, float, int, integer,
  json, long_text, naive, str, text, unsupported,
}

-- One constructor for each message of a ValueError; `int_too_large` is the OverflowError of
-- `float(value)`.
pub data ValueError : Type 0 where
  not_a_string text_too_long not_an_active_key not_an_integer out_of_int64 not_a_number : ValueError
  int_too_large not_finite not_a_boolean has_a_time not_an_iso_date not_iso8601 : ValueError
  no_timezone not_a_container unsupported_type : ValueError

unfoldable pub no_columns : ValueColumns
no_columns = record {
  value_text = none;
  value_long = none;
  value_float = none;
  value_boolean = none;
  value_date = none;
  value_datetime = none;
  value_json = none;
}

-- `value in {item["key"] for item in allowed_values if item.get("active", True)}`
unfoldable pub is_active_key : List EnumValue → String → Bool
is_active_key [] s = false
is_active_key (v ∷ vs) s = (v.active && str_eq v.key s) || is_active_key vs s

-- `-(2**63) <= value < 2**63`
abbrev pub in_int64 : ℤ → Bool
in_int64 (pos n) = ltb n (2 ^ 63)
in_int64 (negsuc n) = ltb n (2 ^ 63)

-- `math.isfinite`: the exponent field is not all ones.
abbrev pub is_finite : Float → Bool
is_finite bits = not (bits / 2 ^ 52 % 2 ^ 11 == 2047)

-- The values that a field holds, by its type.
abbrev pub Fits : MetadataDefinition → FieldType → Value → Type 0
Fits definition text (str s) = count s ≤ 4000
Fits definition long_text (str s) = Unit
Fits definition enum (str s) = is_active_key definition.allowed_values s ≡ true
Fits definition integer (int n) = in_int64 n ≡ true
Fits definition decimal (float f) = is_finite f ≡ true
Fits definition boolean (bool b) = Unit
Fits definition date_type (date d) = Unit
Fits definition datetime_type (datetime (aware t)) = Unit
Fits definition json (container j) = Unit
Fits _ _ _ = ⊥

-- What the code takes from Python's library: the ISO parsers, with the replacement of "Z" before
-- the second, and `float` of an integer, which overflows on a large one.
pub record Conversions : Type 0 where
  pub date_fromisoformat : String → Option ℕ
  pub datetime_fromisoformat : String → Option Datetime
  pub float_of_int : ℤ → Option Float

module _ (python : Conversions) where
  text_columns : MetadataDefinition → FieldType → String → Result ValueError ValueColumns
  unfolding no_columns is_active_key
  text_columns definition text s =
      if ltb 4000 (count s)
      then err text_too_long
      else ok (record no_columns { value_text = some s })
  text_columns definition enum s =
      if is_active_key definition.allowed_values s
      then ok (record no_columns { value_text = some s })
      else err not_an_active_key
  text_columns definition _ s = ok (record no_columns { value_text = some s })

  abbrev decimal_columns : Option Float → Result ValueError ValueColumns
  decimal_columns none = err int_too_large
  decimal_columns (some f) =
      if is_finite f then ok (record no_columns { value_float = some f }) else err not_finite

  abbrev date_columns : Option ℕ → Result ValueError ValueColumns
  date_columns none = err not_an_iso_date
  date_columns (some d) = ok (record no_columns { value_date = some d })

  -- `value.astimezone(timezone.utc)` keeps the instant.
  abbrev datetime_columns : Option Datetime → Result ValueError ValueColumns
  datetime_columns none = err not_iso8601
  datetime_columns (some (naive t)) = err no_timezone
  datetime_columns (some (aware t)) = ok (record no_columns { value_datetime = some (aware t) })

  -- The branches of the test on `definition.type`, each with its tests on the value's class.
  typed_columns : MetadataDefinition → FieldType → Value → Result ValueError ValueColumns
  unfolding text_columns no_columns
  typed_columns definition text (str s) = text_columns definition text s
  typed_columns definition text _ = err not_a_string
  typed_columns definition long_text (str s) = text_columns definition long_text s
  typed_columns definition long_text _ = err not_a_string
  typed_columns definition enum (str s) = text_columns definition enum s
  typed_columns definition enum _ = err not_a_string
  typed_columns definition integer (int n) =
      if in_int64 n then ok (record no_columns { value_long = some n }) else err out_of_int64
  typed_columns definition integer _ = err not_an_integer
  typed_columns definition decimal (int n) = decimal_columns (python.float_of_int n)
  typed_columns definition decimal (float f) = decimal_columns (some f)
  typed_columns definition decimal _ = err not_a_number
  typed_columns definition boolean (bool b) = ok (record no_columns { value_boolean = some b })
  typed_columns definition boolean _ = err not_a_boolean
  typed_columns definition date_type (datetime t) = err has_a_time
  typed_columns definition date_type (str s) = date_columns (python.date_fromisoformat s)
  typed_columns definition date_type (date d) = date_columns (some d)
  typed_columns definition date_type _ = err not_an_iso_date
  typed_columns definition datetime_type (str s) =
      datetime_columns (python.datetime_fromisoformat s)
  typed_columns definition datetime_type (datetime t) = datetime_columns (some t)
  typed_columns definition datetime_type _ = err no_timezone
  typed_columns definition json (container j) = ok (record no_columns { value_json = some j })
  typed_columns definition json _ = err not_a_container
  typed_columns definition unsupported _ = err unsupported_type

  unfoldable pub value_columns : Value → MetadataDefinition → Result ValueError ValueColumns
  unfolding typed_columns
  value_columns value definition = typed_columns definition definition.type value
