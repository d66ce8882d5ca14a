-- ===== src/Metadata/Types.antt =====
-- The rows of app/models.py that metadata resolution reads: metadata definitions, events and
-- documents, and the closed sets of strings that their columns hold.
use prv_application.Prelude.{Bool, List, Option, String, false, true, ℕ, ℤ, ◌==◌}

-- MetadataEvent.operation
pub data Operation : Type 0 where
  set add clear remove confirm reject : Operation

abbrev op_code : Operation → ℕ
op_code set = 0
op_code add = 1
op_code clear = 2
op_code remove = 3
op_code confirm = 4
op_code reject = 5

-- `left == right` on operations.
abbrev pub is_op : Operation → Operation → Bool
is_op left right = op_code left == op_code right

-- `operation in ASSERTION_OPERATIONS`
abbrev pub in_assertion_operations : Operation → Bool
in_assertion_operations set = true
in_assertion_operations add = true
in_assertion_operations clear = true
in_assertion_operations _ = false

-- `operation in VALUE_OPERATIONS`
abbrev pub in_value_operations : Operation → Bool
in_value_operations set = true
in_value_operations add = true
in_value_operations _ = false

-- MetadataDefinition.type
pub data FieldType : Type 0 where
  text long_text integer decimal boolean date_type datetime_type enum json unsupported : FieldType

pub data Cardinality : Type 0 where
  single multiple : Cardinality

pub data AssertionPolicy : Type 0 where
  immediate requires_confirmation : AssertionPolicy

pub data ResolutionPolicy : Type 0 where
  latest_valid human_precedence explicit_only : ResolutionPolicy

pub data ValueSource : Type 0 where
  asserted imported system : ValueSource

pub data SourceType : Type 0 where
  human agent extractor import_source rule system_source : SourceType

-- One entry of `allowed_values`, with `item.get("active", True)` read on creation.
pub record EnumValue : Type 0 where
  pub key : String
  pub label : String
  pub description : Option String
  pub active : Bool

pub record MetadataDefinition : Type 0 where
  pub id : ℕ
  pub matter_id : ℕ
  pub key : String
  pub type : FieldType
  pub cardinality : Cardinality
  pub allowed_values : List EnumValue
  pub value_source : ValueSource
  pub assertion_policy : AssertionPolicy
  pub resolution_policy : ResolutionPolicy
  pub is_active : Bool  -- status == "ACTIVE"

-- A float is its IEEE 754 binary64 bit pattern.
abbrev pub Float : Type 0
Float = ℕ

-- A `datetime`: an aware one is the instant that it stands for.
pub data Datetime : Type 0 where
  naive : ℕ → Datetime
  aware : ℕ → Datetime

-- A JSON container with its serialised members.
pub data Json : Type 0 where
  object array : String → Json

-- The seven nullable value columns.
pub record ValueColumns : Type 0 where
  pub value_text : Option String
  pub value_long : Option ℤ
  pub value_float : Option Float
  pub value_boolean : Option Bool
  pub value_date : Option ℕ
  pub value_datetime : Option Datetime
  pub value_json : Option Json

-- A Python value that a caller or a column may hold.
pub data Value : Type 0 where
  str : String → Value
  int : ℤ → Value
  float : Float → Value
  bool : Bool → Value
  date : ℕ → Value
  datetime : Datetime → Value
  container : Json → Value
  other : Value

pub record MetadataEvent : Type 0 where
  pub id : ℕ
  pub document_id : ℕ
  pub definition_id : ℕ
  pub operation : Operation
  pub source_type : SourceType
  pub created_at : ℕ
  pub target_event_id : Option ℕ
  pub supersedes_id : Option ℕ
  pub columns : ValueColumns
