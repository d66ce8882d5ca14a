-- ===== src/Metadata/Resolve/Support.antt =====
-- What holds of every candidate of resolve_field holds of the values that it resolves to.
use prv_application.Prelude.{
  All, All-append, All-map, All-select, All-sort_by, All-mono, Bool-cases, List, Option,
  Option-cases, [], ap, codes_eq, flat_map, inl, inr, length, map, max_by_holds, select, some,
  sort_by, subst, ℕ, ◌==◌, ◌∷◌, ◌≡◌,
}
use prv_application.Metadata.Types.{
  Cardinality, MetadataDefinition, MetadataEvent, ResolutionPolicy, Value, explicit_only,
  human_precedence, latest_valid, multiple, single,
}
use prv_application.Metadata.Resolve.{
  FieldResolution, ResolvedValue, add_to_group, alone, before, chosen_values, event_value,
  group_events, grouped_values, is_human, latest, or_all, resolve_candidates, resolve_single,
  resolved_group, sorted_ids, value_lt, value_state,
}

pub All-latest :
    (P : MetadataEvent → Type 0) (es : List MetadataEvent) {e : MetadataEvent}
    → latest es ≡ some e
    → All P es
    → P e
unfolding latest
All-latest P [] h a = cc
All-latest P (x ∷ xs) h (hx, a) = subst P (cc) (max_by_holds before P x xs hx a)

module _ (P : MetadataEvent → Type 0) (Q : ℕ → Type 0)
    (named : (e : MetadataEvent) → P e → Q e.id) where
  pub sorted_ids-All : (es : List MetadataEvent) → All P es → All Q (sorted_ids es)
  unfolding sorted_ids
  sorted_ids-All es a =
      All-map Q (λ (e : MetadataEvent). e.id) (sort_by before es)
        (All-mono P (λ (e : MetadataEvent). Q e.id) (sort_by before es) named
          (All-sort_by before P es a))

  -- A value rests on events with the property.
  abbrev pub RestsOn : ResolvedValue → Type 0
  RestsOn v = P v.event × All Q v.supporting_event_ids

  abbrev pub GroupHolds : List ℕ × List MetadataEvent → Type 0
  GroupHolds g = All P g.1

  add_to_group-All :
      (k : List ℕ) (e : MetadataEvent) (gs : List (List ℕ × List MetadataEvent))
      → P e
      → All GroupHolds gs
      → All GroupHolds (add_to_group k e gs)
  unfolding add_to_group
  add_to_group-All k e [] h a = ((h, tt), tt)
  add_to_group-All k e ((j, es) ∷ gs) h (ag, a) = elim (Bool-cases (codes_eq j k)) [
    | inl same ↦ rw same (All-append P es (e ∷ []) ag (h, tt), a)
    | inr differs ↦ rw differs (ag, add_to_group-All k e gs h a)
  ]

  resolved_group-All :
      (g : List ℕ × List MetadataEvent) → GroupHolds g → All RestsOn (resolved_group g)
  resolved_group-All (k, []) a = tt
  resolved_group-All (k, (e ∷ es)) (h, a) =
      ((max_by_holds before P e es h a, sorted_ids-All (e ∷ es) (h, a)), tt)

  flat_map-All :
      (gs : List (List ℕ × List MetadataEvent))
      → All GroupHolds gs
      → All RestsOn (flat_map resolved_group gs)
  unfolding flat_map
  flat_map-All [] a = tt
  flat_map-All (g ∷ gs) (h, a) =
      All-append RestsOn (resolved_group g) (flat_map resolved_group gs) (resolved_group-All g h)
        (flat_map-All gs a)

  alone-All : (es : List MetadataEvent) → All P es → All RestsOn (map alone es)
  alone-All [] a = tt
  alone-All (e ∷ es) (h, a) = ((h, (named e h, tt)), alone-All es a)

  chosen_values-All : (es : List MetadataEvent) → All P es → All RestsOn (chosen_values (latest es))
  chosen_values-All es a = elim (Option-cases (latest es)) [
    | inl e ↦ rw e tt
    | inr (c, e) ↦ rw e ((All-latest P es e a, (named c (All-latest P es e a), tt)), tt)
  ]

  or_all-All : (xs es : List MetadataEvent) → All P xs → All P es → All P (or_all xs es)
  or_all-All [] es ax ae = ae
  or_all-All (x ∷ xs) es ax ae = ax

  module _ (canonical : Option Value → List ℕ) where
    group_events-All :
        (gs : List (List ℕ × List MetadataEvent)) (es : List MetadataEvent)
        → All GroupHolds gs
        → All P es
        → All GroupHolds (group_events canonical gs es)
    unfolding group_events
    group_events-All gs [] ag a = ag
    group_events-All gs (e ∷ es) ag (h, a) =
        let k = canonical (event_value e.columns) in
        group_events-All (add_to_group k e gs) es (add_to_group-All k e gs h ag) a

    pub grouped_values-All :
        (es : List MetadataEvent) → All P es → All RestsOn (grouped_values canonical es)
    unfolding grouped_values
    grouped_values-All es a =
        All-sort_by (value_lt canonical) RestsOn
          (flat_map resolved_group (group_events canonical [] es))
          (flat_map-All (group_events canonical [] es) (group_events-All [] es tt a))

    -- A resolution whose values and conflicting ids rest on events with the property.
    pub record Rests (r : FieldResolution) : Type 0 where
      pub values : All RestsOn r.values
      pub conflicting : All Q r.conflicting_event_ids

    resolve_single-Rests :
        (p : ResolutionPolicy) (es pending : List MetadataEvent)
        → All P es
        → Rests (resolve_single canonical p es pending)
    unfolding resolve_single
    resolve_single-Rests latest_valid es pending a = record {
      values = chosen_values-All es a;
      conflicting = tt;
    }
    resolve_single-Rests human_precedence es pending a = record {
      values =
          chosen_values-All (or_all (select is_human es) es)
            (or_all-All (select is_human es) es (All-select P is_human es a) a);
      conflicting = tt;
    }
    resolve_single-Rests explicit_only es pending a =
        elim (Bool-cases (length (grouped_values canonical es) == 1)) [
          | inl one ↦ rw one (record { values = grouped_values-All es a; conflicting = tt })
          | inr more ↦
              rw more
                (record { values = grouped_values-All es a; conflicting = sorted_ids-All es a })
        ]

    pub resolve_candidates-cons-Rests :
        (definition : MetadataDefinition) (e : MetadataEvent) (es pending : List MetadataEvent)
        → All P (e ∷ es)
        → Rests (resolve_candidates canonical definition (e ∷ es) pending)
    unfolding resolve_candidates
    resolve_candidates-cons-Rests definition e es pending a = by_cardinality definition.cardinality
      where
        by_cardinality :
            (c : Cardinality)
            → Rests (elim c [
              | multiple ↦ record {
                state = value_state;
                values = grouped_values canonical (e ∷ es);
                pending_events = pending;
                conflicting_event_ids = [];
              }
              | single ↦ resolve_single canonical definition.resolution_policy (e ∷ es) pending
            ])
        by_cardinality multiple = record {
          values = grouped_values-All (e ∷ es) a;
          conflicting = tt;
        }
        by_cardinality single = resolve_single-Rests definition.resolution_policy (e ∷ es) pending a

    pub resolve_candidates-Rests :
        (definition : MetadataDefinition) (es pending : List MetadataEvent)
        → All P es
        → All P pending
        → Rests (resolve_candidates canonical definition es pending)
    resolve_candidates-Rests definition [] pending a ap =
        unfold resolve_candidates in record { values = alone-All pending ap; conflicting = tt }
    resolve_candidates-Rests definition (e ∷ es) pending a ap =
        resolve_candidates-cons-Rests definition e es pending a
