-- ===== src/Metadata/Resolve/Conflicts.antt =====
-- When a single-valued field under EXPLICIT_ONLY is in conflict.
use prv_application.Prelude.{
  Bool, List, Option, [], all_of, codes_eq, elem, if◌then◌else◌, map, not, true, ℕ, ◌&&◌, ◌∷◌, ◌≡◌,
}
use prv_application.Metadata.Types.{MetadataEvent, Value}
use prv_application.Metadata.Resolve.{FieldResolution, conflicted_state, value_state}
use prv_application.Metadata.Resolve.Grouping.{event_key}

module _ (canonical : Option Value → List ℕ) where
  -- All candidates have the canonical text of the first.
  abbrev pub agree : List MetadataEvent → Bool
  agree [] = true
  agree (e ∷ es) = all_of (λ x. codes_eq (event_key canonical e) (event_key canonical x)) es

  abbrev pub ExplicitOutcome : List MetadataEvent → FieldResolution → Type 0
  ExplicitOutcome candidates r =
      (r.state ≡ (if agree candidates then value_state else conflicted_state))
      × ((i : ℕ)
          → elem i r.conflicting_event_ids
            ≡ (not (agree candidates) && elem i (map (λ (e : MetadataEvent). e.id) candidates)))
