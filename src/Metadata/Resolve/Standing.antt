-- ===== src/Metadata/Resolve/Standing.antt =====
-- Withdrawn events are never part of a resolution.
use prv_application.Prelude.{
  All, All-select, All-mono, select-holds, Bool, List, Option, [], any_of, arith, elem,
  elem-collect, elem_of_left, false, is_id, refl, subst, sym, true, ℕ, ◌&&◌, ◌∷◌, ◌≡◌,
}
use prv_application.Metadata.Types.{
  MetadataDefinition, MetadataEvent, Operation, Value, is_op, reject, remove,
}
use prv_application.Metadata.Resolve.Support.{resolve_candidates-Rests}
use prv_application.Metadata.Resolve.{
  EventStates, active_assertions, candidates_of, derive_event_states, eligible_events, is_pending,
  is_standing, pending_events_of, resolve_candidates, resolve_field, resolve_single, targets,
}

-- Some event with the operation names `i` as its target.
abbrev pub is_targeted : Operation → List MetadataEvent → ℕ → Bool
is_targeted op events i = any_of (λ e. is_op e.operation op && is_id e.target_event_id i) events

-- Some event names `i` as the one that it supersedes.
abbrev pub is_superseded : List MetadataEvent → ℕ → Bool
is_superseded events i = any_of (λ e. is_id e.supersedes_id i) events

-- No event of the history takes `i` back.
pub record IsStanding (events : List MetadataEvent) (i : ℕ) : Type 0 where
  pub not_rejected : is_targeted reject events i ≡ false
  pub not_removed : is_targeted remove events i ≡ false
  pub not_superseded : is_superseded events i ≡ false

pub elem-targets :
    (op : Operation) (i : ℕ) (es : List MetadataEvent)
    → elem i (targets op es) ≡ is_targeted op es i
unfolding targets
elem-targets op i [] = refl
elem-targets op i (e ∷ es) = ground (arith, elem-targets op i es)

module _ (events : List MetadataEvent) (definition : MetadataDefinition) where
  abbrev states : EventStates
  states = derive_event_states events definition

  removed-IsInvalidated :
      (i : ℕ) → elem i (targets remove events) ≡ true → elem i states.invalidated_ids ≡ true
  unfolding derive_event_states
  removed-IsInvalidated i h = elem_of_left i (targets remove events) _ h

  pub active_assertions-IsStanding :
      All (λ e. IsStanding events e.id) (active_assertions events states)
  unfolding active_assertions derive_event_states
  active_assertions-IsStanding =
      All-mono
        (λ e. is_standing states.rejected_ids states.superseded_ids states.invalidated_ids e ≡ true)
        (λ e. IsStanding events e.id) (active_assertions events states) (λ e h. standing e h)
        (select-holds (is_standing states.rejected_ids states.superseded_ids states.invalidated_ids)
          events)
    where
      standing :
          (e : MetadataEvent)
          → is_standing states.rejected_ids states.superseded_ids states.invalidated_ids e ≡ true
          → IsStanding events e.id
      standing e h = record {
        not_rejected = ground (arith, elem-targets reject e.id events);
        not_removed = ground (arith, elem-targets remove e.id events, removed-IsInvalidated e.id);
        not_superseded =
            ground (arith, elem-collect (λ (x : MetadataEvent). x.supersedes_id) e.id events);
      }

pub candidates-All :
    (P : MetadataEvent → Type 0) (eligible : List MetadataEvent)
    → All P eligible
    → All P (candidates_of eligible)
unfolding candidates_of
candidates-All P eligible a = All-select P _ eligible a

pub pending-resolve_candidates :
    (canonical : Option Value → List ℕ) (definition : MetadataDefinition)
    (candidates pending : List MetadataEvent)
    → (resolve_candidates canonical definition candidates pending).pending_events ≡ pending
unfolding resolve_candidates resolve_single
pending-resolve_candidates canonical definition [] pending = refl
pending-resolve_candidates canonical definition (e ∷ es) pending = ground arith

-- Nothing that a resolution shows rests on an event that was rejected, removed or superseded:
-- neither its values, nor what supports them, nor its pending and conflicting events.
pub resolve_field-IsStanding :
    (canonical : Option Value → List ℕ) (events : List MetadataEvent)
    (definition : MetadataDefinition)
    → let r = resolve_field canonical events definition in
      All
        (λ v. IsStanding events v.event.id × All (IsStanding events) v.supporting_event_ids)
        r.values
      × All (λ e. IsStanding events e.id) r.pending_events
      × All (IsStanding events) r.conflicting_event_ids
unfolding resolve_field eligible_events pending_events_of
resolve_field-IsStanding canonical events definition =
    let P = λ (e : MetadataEvent). IsStanding events e.id in
    let active = active_assertions-IsStanding events definition in
    let candidates =
      candidates-All P (eligible_events events definition) (
        All-select P _ (active_assertions events (derive_event_states events definition)) active) in
    let pending =
      All-select P
        (is_pending definition.assertion_policy
          (derive_event_states events definition).confirmed_ids)
        (active_assertions events (derive_event_states events definition)) active in
    let rests =
      resolve_candidates-Rests P (IsStanding events) (λ e h. h) canonical definition
        (candidates_of (eligible_events events definition)) (pending_events_of events definition)
        candidates pending in
    (
      rests.values,
      subst (All P)
          (sym (
            pending-resolve_candidates canonical definition
              (candidates_of (eligible_events events definition))
              (pending_events_of events definition)))
          pending,
      rests.conflicting,
    )
