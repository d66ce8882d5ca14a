-- ===== src/Configuration/Values.antt =====
-- What the values of a configuration are read as, and what a row says of the dict it is made from.
use prv_application.Prelude.{
  >>=-eq-ok, Bool, Bool-cases, Ensures, List, Option, String, [], ap, arith, codes_eq,
  codes_eq_sound, dict_get, false, inl, inr, negsuc, none, ok, ok-injective, pos, refl, some,
  some_or, some_or-some, subst, suc, true, zero, ℕ, ℤ, ◌∷◌, ◌≡◌, ◌⊎◌,
}
use prv_application.Configuration.{
  DefinitionRow, GroupRow, Item, JsonValue, boolean, container, entry, flag, int_of, is_shared,
  matter_scope, missing_key, not_a_number, null, number, or_null, string, system_scope, text_of,
  truth,
}

-- `bool` of a value: None, False, 0 and what is empty are false.
pub data Truth : JsonValue → Bool → Type 0 where
  of_null : Truth null false
  of_boolean : (b : Bool) → Truth (boolean b) b
  of_zero : Truth (number (pos 0)) false
  of_positive : (n : ℕ) → Truth (number (pos (suc n))) true
  of_negative : (n : ℕ) → Truth (number (negsuc n)) true
  of_empty_text : Truth (string []) false
  of_text : (c : ℕ) (cs : List ℕ) → Truth (string (c ∷ cs)) true
  of_no_entries : (s : List ℕ) → Truth (container 0 s) false
  of_entries : (n : ℕ) (s : List ℕ) → Truth (container (suc n) s) true

-- The value at a key, None where an optional key is missing, and a flag.
abbrev pub Holds : String → Item → JsonValue → Type 0
Holds key i j = dict_get key i ≡ some j

abbrev pub HoldsOrNull : String → Item → JsonValue → Type 0
HoldsOrNull key i j = Holds key i j ⊎ ((dict_get key i ≡ none) × (j ≡ null))

abbrev pub HoldsFlag : String → Item → Bool → Type 0
HoldsFlag key i b = (j : JsonValue) × Holds key i j × Truth j b

truth-Truth : (j : JsonValue) → Truth j (truth j)
unfolding truth
truth-Truth null = of_null
truth-Truth (boolean b) = of_boolean b
truth-Truth (number (pos zero)) = of_zero
truth-Truth (number (pos (suc n))) = of_positive n
truth-Truth (number (negsuc n)) = of_negative n
truth-Truth (string []) = of_empty_text
truth-Truth (string (c ∷ cs)) = of_text c cs
truth-Truth (container zero s) = of_no_entries s
truth-Truth (container (suc n) s) = of_entries n s

pub entry-Holds : (key : String) (i : Item) {j : JsonValue} → entry key i ≡ ok j → Holds key i j
entry-Holds key i h = some_or-some (dict_get key i) missing_key h

pub flag-HoldsFlag : (key : String) (i : Item) {b : Bool} → flag key i ≡ ok b → HoldsFlag key i b
unfolding flag
flag-HoldsFlag key i h =
    let (j, e, h1) = >>=-eq-ok (entry key i) _ h in
    (j, entry-Holds key i e, subst (Truth j) (ok-injective h1) (truth-Truth j))

pub or_null-HoldsOrNull : (key : String) (i : Item) → HoldsOrNull key i (or_null (dict_get key i))
or_null-HoldsOrNull key i = by_cases (dict_get key i)
  where
    by_cases : (o : Option JsonValue) → (o ≡ some (or_null o)) ⊎ ((o ≡ none) × (or_null o ≡ null))
    by_cases none = inr (refl, refl)
    by_cases (some j) = inl refl

pub is_shared-scope :
    (j : JsonValue) → is_shared j ≡ true → (j ≡ string system_scope) ⊎ (j ≡ string matter_scope)
unfolding is_shared
is_shared-scope (string s) h = elim (Bool-cases (codes_eq s system_scope)) [
  | inl e ↦ inl (ap string (codes_eq_sound s system_scope e))
  | inr e ↦ inr (ap string (codes_eq_sound s matter_scope (ground (arith, e))))
]
is_shared-scope null h = cc
is_shared-scope (boolean b) h = cc
is_shared-scope (number n) h = cc
is_shared-scope (container n s) h = cc

-- `str` and `int` of a value.
abbrev pub IsText : (JsonValue → List ℕ) → JsonValue → List ℕ → Type 0
IsText repr (string s) key = key ≡ s
IsText repr j key = key ≡ repr j

abbrev pub IsInteger : (List ℕ → Option ℤ) → JsonValue → ℤ → Type 0
IsInteger parse (number m) n = n ≡ m
IsInteger parse (boolean true) n = n ≡ pos 1
IsInteger parse (boolean false) n = n ≡ pos 0
IsInteger parse (string s) n = parse s ≡ some n
IsInteger parse _ n = ⊥

pub text_of-IsText : (repr : JsonValue → List ℕ) (j : JsonValue) → IsText repr j (text_of repr j)
text_of-IsText repr null = refl
text_of-IsText repr (boolean b) = refl
text_of-IsText repr (number n) = refl
text_of-IsText repr (string s) = refl
text_of-IsText repr (container n s) = refl

pub int_of-IsInteger :
    (parse : List ℕ → Option ℤ) (j : JsonValue) → Ensures (IsInteger parse j) (int_of parse j)
unfolding int_of
int_of-IsInteger parse null = tt
int_of-IsInteger parse (boolean true) = refl
int_of-IsInteger parse (boolean false) = refl
int_of-IsInteger parse (number n) = refl
int_of-IsInteger parse (container n s) = tt
int_of-IsInteger parse (string s) = parsed (parse s)
  where
    parsed : (o : Option ℤ) → Ensures (λ n. o ≡ some n) (some_or o not_a_number)
    parsed none = tt
    parsed (some n) = refl

-- A definition's row says what its dict says, key by key.
pub record DefinitionMatches (repr : JsonValue → List ℕ) (matter_id : ℕ) (i : Item)
    (d : DefinitionRow) : Type 0 where
  pub in_matter : d.matter_id ≡ matter_id
  pub key : (j : JsonValue) × Holds "key" i j × IsText repr j d.key
  pub display_name : Holds "display_name" i d.display_name
  pub description : HoldsOrNull "description" i d.description
  pub type : Holds "type" i d.type
  pub cardinality : Holds "cardinality" i d.cardinality
  pub allowed_values : HoldsOrNull "allowed_values" i d.allowed_values
  pub value_source : Holds "value_source" i d.value_source
  pub reference_target : HoldsOrNull "reference_target" i d.reference_target
  pub template_key : HoldsOrNull "template_key" i d.template_key
  pub template_version : HoldsOrNull "template_version" i d.template_version
  pub assertion_policy : Holds "assertion_policy" i d.assertion_policy
  pub resolution_policy : Holds "resolution_policy" i d.resolution_policy
  pub searchable : HoldsFlag "searchable" i d.searchable
  pub facetable : HoldsFlag "facetable" i d.facetable
  pub reviewable : HoldsFlag "reviewable" i d.reviewable
  pub ai_assignable : HoldsFlag "ai_assignable" i d.ai_assignable
  pub status : Holds "status" i d.status

-- So does a group's row, which is shared and has no owner.
pub record GroupMatches (repr : JsonValue → List ℕ) (parse : List ℕ → Option ℤ)
    (matter_id user_id : ℕ) (i : Item) (g : GroupRow) : Type 0 where
  pub in_matter : (g.matter_id ≡ matter_id) × (g.created_by_user_id ≡ user_id)
  pub key : (j : JsonValue) × Holds "key" i j × IsText repr j g.key
  pub scope : Holds "scope" i g.scope
  pub shared : (g.scope ≡ string system_scope) ⊎ (g.scope ≡ string matter_scope)
  pub owner : g.owner_user_id ≡ none
  pub display_name : Holds "display_name" i g.display_name
  pub description : HoldsOrNull "description" i g.description
  pub sort_order : (j : JsonValue) × Holds "sort_order" i j × IsInteger parse j g.sort_order
  pub default_table_visible : HoldsFlag "default_table_visible" i g.default_table_visible
  pub default_document_visible : HoldsFlag "default_document_visible" i g.default_document_visible
  pub status : Holds "status" i g.status
  pub template_key : HoldsOrNull "template_key" i g.template_key
  pub template_version : HoldsOrNull "template_version" i g.template_version
