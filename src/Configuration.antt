-- ===== src/Configuration.antt =====
-- instantiate_configuration_snapshot of app/matter_configuration.py: the rows of a new matter from
-- a stored configuration, which is read from JSON. Texts are lists of code points.
mod Examples
pub mod Instance
pub mod Rows
pub mod Values
use prv_application.Prelude.{
  Bool, List, Option, Result, String, [], codes_eq, dict_get, err, false, find_first, if◌then◌else◌,
  is_empty, negsuc, none, not, ok, pos, refuse, require, some, some_or, suc, true, zero, ℕ, ℤ, ◌*◌,
  ◌++◌, ◌==◌, ◌>>=◌, ◌>>◌, ◌||◌, ◌∷◌,
}

-- What the JSON of a configuration holds as a value: `container` is a list or a dict by the number
-- of its entries and its text.
pub data JsonValue : Type 0 where
  null : JsonValue
  boolean : Bool → JsonValue
  number : ℤ → JsonValue
  string : List ℕ → JsonValue
  container : ℕ → List ℕ → JsonValue

-- A dict of such values.
abbrev pub Item : Type 0
Item = List (String × JsonValue)

-- The list at "field_keys", empty where there is none, stands beside the other entries of a group.
pub record GroupItem : Type 0 where
  pub entries : Item
  pub field_keys : List JsonValue

-- A configuration with the lists at "definitions" and "groups", empty where there are none.
pub record Snapshot : Type 0 where
  pub schema_version : Option JsonValue
  pub definitions : List Item
  pub groups : List GroupItem

-- MetadataDefinition
pub record DefinitionRow : Type 0 where
  pub id : ℕ
  pub matter_id : ℕ
  pub key : List ℕ
  pub display_name : JsonValue
  pub description : JsonValue
  pub type : JsonValue
  pub cardinality : JsonValue
  pub allowed_values : JsonValue
  pub value_source : JsonValue
  pub reference_target : JsonValue
  pub template_key : JsonValue
  pub template_version : JsonValue
  pub assertion_policy : JsonValue
  pub resolution_policy : JsonValue
  pub searchable : Bool
  pub facetable : Bool
  pub reviewable : Bool
  pub ai_assignable : Bool
  pub status : JsonValue

-- MetadataGroup
pub record GroupRow : Type 0 where
  pub id : ℕ
  pub matter_id : ℕ
  pub scope : JsonValue
  pub owner_user_id : Option ℕ
  pub created_by_user_id : ℕ
  pub key : List ℕ
  pub display_name : JsonValue
  pub description : JsonValue
  pub sort_order : ℤ
  pub default_table_visible : Bool
  pub default_document_visible : Bool
  pub status : JsonValue
  pub template_key : JsonValue
  pub template_version : JsonValue

-- MetadataGroupField
pub record GroupField : Type 0 where
  pub group_id : ℕ
  pub definition_id : ℕ
  pub sort_order : ℕ

-- MatterConfigurationRows
pub record ConfigurationRows : Type 0 where
  pub definitions : List DefinitionRow
  pub groups : List GroupRow
  pub group_fields : List GroupField

-- The ValueErrors, the KeyError of `item[...]`, the errors of `int`, and the TypeError of a set or
-- a dict that is asked for a list or a dict.
pub data ConfigurationError : Type 0 where
  unsupported_version duplicate_definition duplicate_group personal_group : ConfigurationError
  unknown_field no_definitions missing_key not_a_number unhashable : ConfigurationError

abbrev pub configuration_schema_version : ℕ
configuration_schema_version = 1

-- `version == CONFIGURATION_SCHEMA_VERSION`; in Python also True equals 1.
abbrev pub is_version : Option JsonValue → Bool
is_version (some (number (pos n))) = n == configuration_schema_version
is_version (some (boolean b)) = b
is_version _ = false

abbrev pub nonzero : ℕ → Bool
nonzero zero = false
nonzero (suc n) = true

-- `bool(value)`
unfoldable pub truth : JsonValue → Bool
truth null = false
truth (boolean b) = b
truth (number (pos n)) = nonzero n
truth (number (negsuc n)) = true
truth (string s) = not (is_empty s)
truth (container n s) = nonzero n

-- `item[key]`, `item.get(key)` and `bool(item[key])`
abbrev pub entry : String → Item → Result ConfigurationError JsonValue
entry key i = some_or (dict_get key i) missing_key

abbrev pub or_null : Option JsonValue → JsonValue
or_null none = null
or_null (some j) = j

unfoldable pub flag : String → Item → Result ConfigurationError Bool
unfolding truth
flag key i = do j ← entry key i; ok (truth j)

-- `key in keys`
unfoldable pub has_key : List ℕ → List (List ℕ) → Bool
unfolding codes_eq
has_key key [] = false
has_key key (k ∷ ks) = codes_eq k key || has_key key ks

abbrev pub is_nested : JsonValue → Bool
is_nested (container n s) = true
is_nested _ = false

abbrev pub system_scope : List ℕ
system_scope = 83 ∷ 89 ∷ 83 ∷ 84 ∷ 69 ∷ 77 ∷ []

abbrev pub matter_scope : List ℕ
matter_scope = 77 ∷ 65 ∷ 84 ∷ 84 ∷ 69 ∷ 82 ∷ []

-- `scope in {"SYSTEM", "MATTER"}`
unfoldable pub is_shared : JsonValue → Bool
unfolding codes_eq
is_shared (string s) = codes_eq s system_scope || codes_eq s matter_scope
is_shared _ = false

-- `definitions_by_key.get(key)`
unfoldable pub definition_of : JsonValue → List DefinitionRow → Option DefinitionRow
unfolding codes_eq
definition_of (string key) ds = find_first (λ (d : DefinitionRow). codes_eq d.key key) ds
definition_of _ ds = none

-- `str(item["key"])`, where `repr` is `str` of what is not a text.
abbrev pub text_of : (JsonValue → List ℕ) → JsonValue → List ℕ
text_of repr (string s) = s
text_of repr j = repr j

-- `int(value)`, where `parse` is `int` of a text.
unfoldable pub int_of : (List ℕ → Option ℤ) → JsonValue → Result ConfigurationError ℤ
int_of parse (number n) = ok n
int_of parse (boolean b) = ok (if b then pos 1 else pos 0)
int_of parse (string s) = some_or (parse s) not_a_number
int_of parse _ = err not_a_number

-- `definition_id n` and `group_id n` are the fresh UUIDs of the n-th rows.
module _ (definition_id group_id : ℕ → ℕ) (repr : JsonValue → List ℕ) (parse : List ℕ → Option ℤ)
    (matter_id user_id : ℕ) where
  -- The row of the key, when the key is new.
  unfoldable pub definition_row : ℕ → List ℕ → Item → Result ConfigurationError DefinitionRow
  unfolding flag
  definition_row n key i = do
    display_name ← entry "display_name" i
    type ← entry "type" i
    cardinality ← entry "cardinality" i
    value_source ← entry "value_source" i
    assertion_policy ← entry "assertion_policy" i
    resolution_policy ← entry "resolution_policy" i
    searchable ← flag "searchable" i
    facetable ← flag "facetable" i
    reviewable ← flag "reviewable" i
    ai_assignable ← flag "ai_assignable" i
    status ← entry "status" i
    ok (record {
      id = definition_id n;
      matter_id = matter_id;
      key = key;
      display_name = display_name;
      description = or_null (dict_get "description" i);
      type = type;
      cardinality = cardinality;
      allowed_values = or_null (dict_get "allowed_values" i);
      value_source = value_source;
      reference_target = or_null (dict_get "reference_target" i);
      template_key = or_null (dict_get "template_key" i);
      template_version = or_null (dict_get "template_version" i);
      assertion_policy = assertion_policy;
      resolution_policy = resolution_policy;
      searchable = searchable;
      facetable = facetable;
      reviewable = reviewable;
      ai_assignable = ai_assignable;
      status = status;
    })

  -- The loop over the definitions, with the keys that it has seen.
  unfoldable pub definition_rows :
      ℕ → List (List ℕ) → List Item → Result ConfigurationError (List DefinitionRow)
  unfolding has_key definition_row
  definition_rows n seen [] = ok []
  definition_rows n seen (i ∷ is) = do
    key ← entry "key" i
    refuse (has_key (text_of repr key) seen) duplicate_definition
    row ← definition_row n (text_of repr key) i
    rest ← definition_rows (suc n) (text_of repr key ∷ seen) is
    ok (row ∷ rest)

  -- `enumerate(field_keys, start=n)`
  unfoldable pub field_rows :
      List DefinitionRow → ℕ → ℕ → List JsonValue → Result ConfigurationError (List GroupField)
  unfolding definition_of
  field_rows ds group n [] = ok []
  field_rows ds group n (k ∷ ks) = do
    refuse (is_nested k) unhashable
    d ← some_or (definition_of k ds) unknown_field
    rest ← field_rows ds group (suc n) ks
    ok (record { group_id = group; definition_id = d.id; sort_order = n * 10 } ∷ rest)

  unfoldable pub group_row : ℕ → List ℕ → JsonValue → Item → Result ConfigurationError GroupRow
  unfolding flag int_of
  group_row n key scope i = do
    display_name ← entry "display_name" i
    order ← entry "sort_order" i
    sort_order ← int_of parse order
    default_table_visible ← flag "default_table_visible" i
    default_document_visible ← flag "default_document_visible" i
    status ← entry "status" i
    ok (record {
      id = group_id n;
      matter_id = matter_id;
      scope = scope;
      owner_user_id = none;
      created_by_user_id = user_id;
      key = key;
      display_name = display_name;
      description = or_null (dict_get "description" i);
      sort_order = sort_order;
      default_table_visible = default_table_visible;
      default_document_visible = default_document_visible;
      status = status;
      template_key = or_null (dict_get "template_key" i);
      template_version = or_null (dict_get "template_version" i);
    })

  unfoldable pub group_rows :
      List DefinitionRow
      → ℕ
      → List (List ℕ)
      → List GroupItem
      → Result ConfigurationError (List GroupRow × List GroupField)
  unfolding has_key is_shared group_row field_rows
  group_rows ds n seen [] = ok ([], [])
  group_rows ds n seen (i ∷ is) = do
    key ← entry "key" i.entries
    refuse (has_key (text_of repr key) seen) duplicate_group
    scope ← entry "scope" i.entries
    refuse (is_nested scope) unhashable
    require (is_shared scope) personal_group
    group ← group_row n (text_of repr key) scope i.entries
    own ← field_rows ds group.id 1 i.field_keys
    rest ← group_rows ds (suc n) (text_of repr key ∷ seen) is
    ok (group ∷ rest.0, own ++ rest.1)

  unfoldable pub instantiate_configuration_snapshot :
      Snapshot → Result ConfigurationError ConfigurationRows
  unfolding definition_rows group_rows
  instantiate_configuration_snapshot c = do
    require (is_version c.schema_version) unsupported_version
    ds ← definition_rows 0 [] c.definitions
    groups ← group_rows ds 0 [] c.groups
    refuse (is_empty ds) no_definitions
    ok (record { definitions = ds; groups = groups.0; group_fields = groups.1 })
