-- ===== src/Metadata/Resolve/Coverage.antt =====
-- Grouping loses no candidate.
use prv_application.Prelude.{
  All, All-mono, Bool, List, Option, [], any_of, any_of-sort_by, arith, codes_eq, codes_eq_refl,
  elem, elem-sort_by, flat_map, map, true, ℕ, ◌&&◌, ◌++◌, ◌∙◌, ◌∷◌, ◌≡◌,
}
use prv_application.Metadata.Types.{MetadataEvent, Value}
use prv_application.Metadata.Resolve.{
  ResolvedValue, add_to_group, before, group_events, grouped_values, resolved_group, sorted_ids,
  value_key, value_lt,
}
use prv_application.Metadata.Resolve.Grouping.{
  Group, GroupOk, event_key, group_events-Ok, resolved_group-key,
}

module _ (canonical : Option Value → List ℕ) where
  -- A value whose canonical text is the event's, and which the event supports.
  abbrev pub carries : MetadataEvent → ResolvedValue → Bool
  carries e v =
      codes_eq (value_key canonical v) (event_key canonical e) && elem e.id v.supporting_event_ids

  abbrev holds : MetadataEvent → Group → Bool
  holds e g =
      codes_eq g.0 (event_key canonical e) && elem e.id (map (λ (x : MetadataEvent). x.id) g.1)

  held-add :
      (i : ℕ) (es : List MetadataEvent) (e : MetadataEvent)
      → elem i (map (λ (x : MetadataEvent). x.id) es) ≡ true
      → elem i (map (λ (x : MetadataEvent). x.id) (es ++ e ∷ [])) ≡ true
  held-add i [] e h = cc
  held-add i (x ∷ xs) e h = ground (arith, held-add i xs e)

  added_last :
      (es : List MetadataEvent) (e : MetadataEvent)
      → elem e.id (map (λ (x : MetadataEvent). x.id) (es ++ e ∷ [])) ≡ true
  added_last [] e = ground arith
  added_last (x ∷ xs) e = ground (arith, added_last xs e)

  add_to_group-holds_new :
      (e : MetadataEvent) (gs : List Group)
      → any_of (holds e) (add_to_group (event_key canonical e) e gs) ≡ true
  unfolding add_to_group
  add_to_group-holds_new e [] = ground (arith, codes_eq_refl (event_key canonical e))
  add_to_group-holds_new e ((j, es) ∷ gs) =
      ground (arith, added_last es e, add_to_group-holds_new e gs)

  add_to_group-holds_old :
      (k : List ℕ) (e old : MetadataEvent) (gs : List Group)
      → any_of (holds old) gs ≡ true
      → any_of (holds old) (add_to_group k e gs) ≡ true
  unfolding add_to_group
  add_to_group-holds_old k e old [] h = cc
  add_to_group-holds_old k e old ((j, es) ∷ gs) h =
      ground (arith, held-add old.id es e, add_to_group-holds_old k e old gs)

  group_events-holds_old :
      (old : MetadataEvent) (gs : List Group) (es : List MetadataEvent)
      → any_of (holds old) gs ≡ true
      → any_of (holds old) (group_events canonical gs es) ≡ true
  unfolding group_events
  group_events-holds_old old gs [] h = h
  group_events-holds_old old gs (e ∷ es) h =
      group_events-holds_old old (add_to_group (event_key canonical e) e gs) es
        (add_to_group-holds_old (event_key canonical e) e old gs h)

  group_events-holds :
      (gs : List Group) (es : List MetadataEvent)
      → All (λ e. any_of (holds e) (group_events canonical gs es) ≡ true) es
  unfolding group_events
  group_events-holds gs [] = tt
  group_events-holds gs (e ∷ es) = (
    group_events-holds_old e (add_to_group (event_key canonical e) e gs) es
        (add_to_group-holds_new e gs),
    group_events-holds (add_to_group (event_key canonical e) e gs) es,
  )

  carries_of_holds :
      (e : MetadataEvent) (gs : List Group)
      → All (GroupOk canonical) gs
      → any_of (holds e) gs ≡ true
      → any_of (carries e) (flat_map resolved_group gs) ≡ true
  unfolding flat_map sorted_ids
  carries_of_holds e [] valid h = cc
  carries_of_holds e ((k, []) ∷ gs) (valid_g, valid) h = elim valid_g [ ]
  carries_of_holds e ((k, (x ∷ xs)) ∷ gs) (valid_g, valid) h =
      let (key, _) = resolved_group-key canonical (k, (x ∷ xs)) valid_g in
      rw key (
        ground (
          arith,
          carries_of_holds e gs valid,
          elem-sort_by before (λ (y : MetadataEvent). y.id) e.id (x ∷ xs),
        ))

  -- Every candidate supports a value with its canonical text.
  pub grouped_values-carries :
      (es : List MetadataEvent)
      → All (λ e. any_of (carries e) (grouped_values canonical es) ≡ true) es
  unfolding grouped_values
  grouped_values-carries es =
      let (valid, differ) = group_events-Ok canonical [] es tt tt in
      let groups = group_events canonical [] es in
      All-mono (λ e. any_of (holds e) groups ≡ true)
        (λ e. any_of (carries e) (grouped_values canonical es) ≡ true) es
        (λ e h.
          any_of-sort_by (value_lt canonical) (carries e) (flat_map resolved_group groups)
          ∙ carries_of_holds e groups valid h)
        (group_events-holds [] es)
