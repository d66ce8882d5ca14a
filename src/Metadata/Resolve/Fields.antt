-- ===== src/Metadata/Resolve/Fields.antt =====
-- What a resolved field is, for each cardinality and resolution policy.
use prv_application.Prelude.{
  All, List, Option, [], any_of, arith, elem, false, map, max_by, max_by-IsMem, max_by_upper, refl,
  select, subst, sym, true, ℕ, ◌∷◌, ◌≡◌, ◌≢◌,
}
use prv_application.Metadata.Types.{
  MetadataDefinition, MetadataEvent, Value, human, latest_valid, multiple, single,
}
use prv_application.Metadata.Resolve.{
  ResolvedValue, alone, before, candidates_of, eligible_events, grouped_values, is_human, latest,
  pending_events_of, resolve_candidates, resolve_field, resolve_single, value_state,
}
use prv_application.Metadata.Resolve.Policies.{before-IsTotal, before-IsTransitive, is_resolved}
use prv_application.Metadata.Resolve.Grouping.{IsIncreasing, grouped_values-IsIncreasing}
use prv_application.Metadata.Resolve.Coverage.{carries, grouped_values-carries}

-- The candidates for the value of a field.
abbrev pub field_candidates : List MetadataEvent → MetadataDefinition → List MetadataEvent
field_candidates events definition = candidates_of (eligible_events events definition)

module _ (canonical : Option Value → List ℕ) where
  multiple_values :
      (definition : MetadataDefinition) (candidates pending : List MetadataEvent)
      → definition.cardinality ≡ multiple
      → is_resolved (resolve_candidates canonical definition candidates pending).state ≡ true
      → (resolve_candidates canonical definition candidates pending).values
        ≡ grouped_values canonical candidates
  multiple_values definition [] pending m h = unfold resolve_candidates in ground arith
  multiple_values definition (e ∷ es) pending m h = unfold resolve_candidates in rw m

  -- A resolved multi-valued field has one value for each canonical text among its candidates, in
  -- increasing order of these texts, and every candidate supports the value with its text.
  pub resolve_field-multiple :
      (events : List MetadataEvent) (definition : MetadataDefinition)
      → definition.cardinality ≡ multiple
      → is_resolved (resolve_field canonical events definition).state ≡ true
      → IsIncreasing canonical (resolve_field canonical events definition).values
        × All
            (λ e.
              any_of (carries canonical e) (resolve_field canonical events definition).values
              ≡ true)
            (field_candidates events definition)
  unfolding resolve_field
  resolve_field-multiple events definition m h =
      let candidates = field_candidates events definition in
      let values =
        multiple_values definition candidates (pending_events_of events definition) m h in
      (
        subst (IsIncreasing canonical) (sym values)
            (grouped_values-IsIncreasing canonical candidates),
        subst (λ vs. All (λ e. any_of (carries canonical e) vs ≡ true) candidates) (sym values)
            (grouped_values-carries canonical candidates),
      )

  -- `m` is one of the events, and none of them comes after it.
  pub record IsLatest (m : MetadataEvent) (es : List MetadataEvent) : Type 0 where
    pub member : elem m.id (map (λ (e : MetadataEvent). e.id) es) ≡ true
    pub upper : All (λ e. before m e ≡ false) es

  max_by-IsLatest :
      (e : MetadataEvent) (es : List MetadataEvent) → IsLatest (max_by before e es) (e ∷ es)
  max_by-IsLatest e es = record {
    member = max_by-IsMem before (λ x. x.id) e es;
    upper = max_by_upper before before-IsTotal before-IsTransitive e es;
  }

  pub single_resolution :
      (definition : MetadataDefinition) (candidates pending : List MetadataEvent)
      → definition.cardinality ≡ single
      → is_resolved (resolve_candidates canonical definition candidates pending).state ≡ true
      → (e : MetadataEvent) × (es : List MetadataEvent) × (candidates ≡ e ∷ es)
        × (resolve_candidates canonical definition candidates pending
            ≡ resolve_single canonical definition.resolution_policy (e ∷ es) pending)
  single_resolution definition [] pending m h = absurd (unfold resolve_candidates in ground arith)
  single_resolution definition (e ∷ es) pending m h =
      (e, es, refl, unfold resolve_candidates in rw m)

  -- A resolved single-valued field under LATEST_VALID has the latest candidate for its only value,
  -- supported by that candidate alone, and is not in conflict.
  pub resolve_field-latest_valid :
      (events : List MetadataEvent) (definition : MetadataDefinition)
      → definition.cardinality ≡ single
      → definition.resolution_policy ≡ latest_valid
      → is_resolved (resolve_field canonical events definition).state ≡ true
      → (m : MetadataEvent) × ((resolve_field canonical events definition).state ≡ value_state)
        × ((resolve_field canonical events definition).values ≡ alone m ∷ [])
        × IsLatest m (field_candidates events definition)
  unfolding resolve_field
  resolve_field-latest_valid events definition s p h =
      let (e, es, found, same) =
        single_resolution definition (field_candidates events definition)
          (pending_events_of events definition) s h in
      rw (same, p)
        (
          max_by before e es,
          unfold resolve_single latest in refl,
          unfold resolve_single latest in refl,
          rw found (max_by-IsLatest e es),
        )

  abbrev HumanChoice : List MetadataEvent → List ResolvedValue → Type 0
  HumanChoice candidates values =
      (m : MetadataEvent) × (values ≡ alone m ∷ [])
      × (any_of is_human candidates ≡ true
          → (is_human m ≡ true) × IsLatest m (select is_human candidates))
      × (any_of is_human candidates ≡ false → IsLatest m candidates)

  -- The event is the latest of those that HUMAN wrote, if HUMAN wrote any.
  pub record PrefersHuman (m : MetadataEvent) (candidates : List MetadataEvent) : Type 0 where
    pub member : elem m.id (map (λ (e : MetadataEvent). e.id) candidates) ≡ true
    pub human_latest : All (λ e. e.source_type ≡ human → before m e ≡ false) candidates
    pub otherwise :
        m.source_type ≢ human → All (λ e. (e.source_type ≢ human) × (before m e ≡ false)) candidates
