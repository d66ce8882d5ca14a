-- ===== src/Prelude/Dicts.antt =====
-- Python dictionaries with string keys: lists of pairs in the order of insertion.
use mathlib.Core.Path.{◌≡◌, refl}
use mathlib.Core.Bool.{Bool, true, false}
use mathlib.Core.Option.{Option, none, some}
use mathlib.Core.List.{List, [], ◌∷◌}
use Prim.Native.String.{String}
use native.Mathlib.Omega.{arith}
use text.Mathlib.Text.{◌==◌ as str_eq}
use text.Mathlib.TextEquality.{eq_iff}
use prv_application.Prelude.Tests.{if◌then◌else◌}

-- `text in texts`
abbrev pub has_text : String → List String → Bool
has_text key [] = false
has_text key (k ∷ ks) = if str_eq k key then true else has_text key ks

module _ {ℓ} {V : Type ℓ} where
  -- `entries.get(key)`
  abbrev pub dict_get : String → List (String × V) → Option V
  dict_get key [] = none
  dict_get key ((k, v) ∷ entries) =
      let rest = dict_get key entries in if str_eq k key then some v else rest

  -- `entries[key] = value`, which keeps the place of a key that is there.
  abbrev pub dict_set : String → V → List (String × V) → List (String × V)
  dict_set key value [] = (key, value) ∷ []
  dict_set key value ((k, v) ∷ entries) =
      let rest = dict_set key value entries in
      if str_eq k key then (k, value) ∷ entries else (k, v) ∷ rest

  pub dict_get-dict_set :
      (key other : String) (value : V) (entries : List (String × V))
      → dict_get other (dict_set key value entries)
        ≡ (if str_eq key other then some value else dict_get other entries)
  dict_get-dict_set key other value [] = refl
  dict_get-dict_set key other value ((k, v) ∷ entries) = ground (
    arith,
    eq_iff key other,
    eq_iff k key,
    eq_iff k other,
    dict_get-dict_set key other value entries,
  )
