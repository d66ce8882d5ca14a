-- ===== src/Configuration/Examples.antt =====
-- A configuration with one definition and one group, in a new matter.
use prv_application.Prelude.{
  List, Option, Result, [], err, false, none, ok, pos, refl, some, true, ℕ, ◌+◌, ◌∷◌, ◌≡◌,
}
use prv_application.Configuration.{
  ConfigurationError, ConfigurationRows, Item, JsonValue, Snapshot, boolean,
  instantiate_configuration_snapshot, matter_scope, null, number, personal_group, string,
  unknown_field, unsupported_version,
}
use prv_application.Configuration.Instance.{
  IsInstance, instantiate_configuration_snapshot-IsInstance,
}

abbrev letters : ℕ → JsonValue
letters n = string (n ∷ [])

abbrev title_entries : Item
title_entries =
    ("key", letters 116)
    ∷ ("display_name", letters 84)
    ∷ ("type", letters 1)
    ∷ ("cardinality", letters 2)
    ∷ ("value_source", letters 3)
    ∷ ("template_key", letters 4)
    ∷ ("assertion_policy", letters 5)
    ∷ ("resolution_policy", letters 6)
    ∷ ("searchable", boolean true)
    ∷ ("facetable", number (pos 0))
    ∷ ("reviewable", null)
    ∷ ("ai_assignable", letters 7)
    ∷ ("status", letters 8)
    ∷ []

abbrev shown_entries : List ℕ → Item
shown_entries scope =
    ("key", letters 103)
    ∷ ("scope", string scope)
    ∷ ("display_name", letters 83)
    ∷ ("sort_order", number (pos 10))
    ∷ ("default_table_visible", boolean true)
    ∷ ("default_document_visible", boolean false)
    ∷ ("status", letters 8)
    ∷ []

abbrev one_group : Option JsonValue → List ℕ → List JsonValue → Snapshot
one_group version scope field_keys = record {
  schema_version = version;
  definitions = title_entries ∷ [];
  groups = record { entries = shown_entries scope; field_keys = field_keys } ∷ [];
}

abbrev instantiated : Snapshot → Result ConfigurationError ConfigurationRows
instantiated c =
    instantiate_configuration_snapshot (λ n. 50 + n) (λ n. 90 + n) (λ j. []) (λ s. none) 7 3 c

abbrev rows_of_one : ConfigurationRows
rows_of_one = record {
  definitions =
      record {
        id = 50;
        matter_id = 7;
        key = 116 ∷ [];
        display_name = letters 84;
        description = null;
        type = letters 1;
        cardinality = letters 2;
        allowed_values = null;
        value_source = letters 3;
        reference_target = null;
        template_key = letters 4;
        template_version = null;
        assertion_policy = letters 5;
        resolution_policy = letters 6;
        searchable = true;
        facetable = false;
        reviewable = false;
        ai_assignable = true;
        status = letters 8;
      }
      ∷ [];
  groups =
      record {
        id = 90;
        matter_id = 7;
        scope = string matter_scope;
        owner_user_id = none;
        created_by_user_id = 3;
        key = 103 ∷ [];
        display_name = letters 83;
        description = null;
        sort_order = pos 10;
        default_table_visible = true;
        default_document_visible = false;
        status = letters 8;
        template_key = null;
        template_version = null;
      }
      ∷ [];
  group_fields = record { group_id = 90; definition_id = 50; sort_order = 10 } ∷ [];
}

abbrev version_one : Option JsonValue
version_one = some (number (pos 1))

instantiate_one :
    instantiate_configuration_snapshot
      (λ n. 50 + n)
      (λ n. 90 + n)
      (λ j. [])
      (λ s. none)
      7
      3
      (one_group version_one matter_scope (letters 116 ∷ []))
    ≡ ok rows_of_one
unfolding instantiate_configuration_snapshot
instantiate_one = refl

-- A version other than 1 is refused, and so are a field that no definition has and a group that is
-- not shared.
instantiate_version : instantiated (one_group none matter_scope []) ≡ err unsupported_version
unfolding instantiate_configuration_snapshot
instantiate_version = refl

instantiate_unknown :
    instantiated (one_group version_one matter_scope (letters 117 ∷ [])) ≡ err unknown_field
unfolding instantiate_configuration_snapshot
instantiate_unknown = refl

instantiate_personal : instantiated (one_group version_one (80 ∷ []) []) ≡ err personal_group
unfolding instantiate_configuration_snapshot
instantiate_personal = refl

instantiate_configuration_snapshot-IsInstance_example :
    IsInstance
      (λ j. [])
      (λ s. none)
      7
      3
      (one_group version_one matter_scope (letters 116 ∷ []))
      rows_of_one
instantiate_configuration_snapshot-IsInstance_example =
    instantiate_configuration_snapshot-IsInstance (λ n. 50 + n) (λ n. 90 + n) (λ j. []) (λ s. none)
      7 3 (one_group version_one matter_scope (letters 116 ∷ [])) rows_of_one instantiate_one
