-- ===== src/Metadata/Resolve/Policies.antt =====
-- Confirmation, CLEAR and the order of events in a resolved field.
use prv_application.Prelude.{
  All, All-at, All-mono, select-holds, Bool, Bool-cases, IsTotal, IsTransitive, List, Memᴰ,
  Memᴰ-select, Option, [], ap, arith, distinct, distinct-same, elem, elem-append, elem-collect,
  elem-map-select, elem-select-not, false, inl, inr, map, max_by, max_by_upper, none, not, refl,
  select, some, subst, true, ℕ, ◌&&◌, ◌||◌, ◌∷◌, ◌≡◌, ◌⊎◌,
}
use prv_application.Metadata.Types.{
  MetadataDefinition, MetadataEvent, Value, clear, confirm, immediate, in_value_operations, is_op,
  reject, remove, requires_confirmation,
}
use prv_application.Metadata.Resolve.{
  EventStates, ResolutionState, ResolvedValue, active_assertions, before, candidates_of,
  cleared_ids, conflicted_state, derive_event_states, eligible_events, is_eligible, is_standing,
  latest, pending_events_of, resolve_candidates, resolve_field, targets, value_state,
}
use prv_application.Metadata.Resolve.Support.{Rests, resolve_candidates-cons-Rests}
use prv_application.Metadata.Resolve.Standing.{
  IsStanding, candidates-All, elem-targets, is_targeted,
}

-- The states with a value: VALUE and CONFLICTED.
abbrev pub is_resolved : ResolutionState → Bool
is_resolved value_state = true
is_resolved conflicted_state = true
is_resolved _ = false

module _ (P : MetadataEvent → Type 0) (Q : ℕ → Type 0) (named : (e : MetadataEvent) → P e → Q e.id)
    (canonical : Option Value → List ℕ) where
  -- A resolved field rests on candidates alone.
  pub resolved-Rests :
      (definition : MetadataDefinition) (candidates pending : List MetadataEvent)
      → All P candidates
      → is_resolved (resolve_candidates canonical definition candidates pending).state ≡ true
      → Rests P Q named canonical (resolve_candidates canonical definition candidates pending)
  resolved-Rests definition [] pending a h = unfold resolve_candidates in ground arith
  resolved-Rests definition (e ∷ es) pending a h =
      resolve_candidates-cons-Rests P Q named canonical definition e es pending a

-- A CONFIRM names `i`, and no REJECT does.
pub record IsConfirmed (events : List MetadataEvent) (i : ℕ) : Type 0 where
  pub confirmed : is_targeted confirm events i ≡ true
  pub not_rejected : is_targeted reject events i ≡ false

confirmed_ids-lem :
    (events : List MetadataEvent) (definition : MetadataDefinition) (i : ℕ)
    → elem i (derive_event_states events definition).confirmed_ids
      ≡ (is_targeted confirm events i && not (is_targeted reject events i))
unfolding derive_event_states
confirmed_ids-lem events definition i =
    rw (elem-select-not i (targets reject events) (targets confirm events))
      (rw (elem-targets confirm i events, elem-targets reject i events))

eligible-IsConfirmed :
    (events : List MetadataEvent) (definition : MetadataDefinition)
    → definition.assertion_policy ≡ requires_confirmation
    → All (λ e. IsConfirmed events e.id) (eligible_events events definition)
unfolding eligible_events
eligible-IsConfirmed events definition policy =
    All-mono (λ e. is_eligible definition.assertion_policy confirmed e ≡ true)
      (λ e. IsConfirmed events e.id) (eligible_events events definition)
      (λ e h. ground (arith, confirmed_ids-lem events definition e.id))
      (select-holds (is_eligible definition.assertion_policy confirmed) active)
  where
    confirmed : List ℕ
    confirmed = (derive_event_states events definition).confirmed_ids

    active : List MetadataEvent
    active = active_assertions events (derive_event_states events definition)

-- Where assertions require confirmation, a resolved value and all that supports it, and every
-- conflicting event, was named by a CONFIRM and by no REJECT.
pub resolve_field-IsConfirmed :
    (canonical : Option Value → List ℕ) (events : List MetadataEvent)
    (definition : MetadataDefinition)
    → definition.assertion_policy ≡ requires_confirmation
    → is_resolved (resolve_field canonical events definition).state ≡ true
    → let r = resolve_field canonical events definition in
      All
        (λ v. IsConfirmed events v.event.id × All (IsConfirmed events) v.supporting_event_ids)
        r.values
      × All (IsConfirmed events) r.conflicting_event_ids
unfolding resolve_field
resolve_field-IsConfirmed canonical events definition policy resolved =
    let P = λ (e : MetadataEvent). IsConfirmed events e.id in
    let rests =
      resolved-Rests P (IsConfirmed events) (λ e h. h) canonical definition
        (candidates_of (eligible_events events definition)) (pending_events_of events definition)
        (candidates-All P (eligible_events events definition)
          (eligible-IsConfirmed events definition policy))
        resolved in
    (rests.values, rests.conflicting)

pub before-IsTotal : IsTotal before
before-IsTotal e f h = ground arith

pub before-IsTransitive : IsTransitive before
before-IsTransitive e f g h k = ground arith

-- An event after the latest of several is after each of them.
before_of_latest :
    (m c e : MetadataEvent) → before m c ≡ false → before m e ≡ true → before c e ≡ true
before_of_latest m c e h k = ground arith

latest_upper :
    (es : List MetadataEvent) {m c : MetadataEvent}
    → latest es ≡ some m
    → Memᴰ c es
    → before m c ≡ false
unfolding latest
latest_upper [] h k = elim k [ ]
latest_upper (x ∷ xs) {m} {c} h k =
    subst (λ (y : MetadataEvent). before y c ≡ false)
      (let first : max_by before x xs ≡ m = cc in first)
      (All-at (λ y. before (max_by before x xs) y ≡ false) (x ∷ xs) k
        (max_by_upper before before-IsTotal before-IsTransitive x xs))

latest-some :
    (es : List MetadataEvent) {c : MetadataEvent}
    → Memᴰ c es
    → (m : MetadataEvent) × (latest es ≡ some m)
unfolding latest
latest-some [] k = elim k [ ]
latest-some (x ∷ xs) k = (max_by before x xs, refl)

candidates-after_clear :
    (eligible : List MetadataEvent) {c : MetadataEvent}
    → Memᴰ c eligible
    → c.operation ≡ clear
    → All (λ e. before c e ≡ true) (candidates_of eligible)
unfolding candidates_of
candidates-after_clear eligible {c} member op =
    let clears = select (λ (e : MetadataEvent). is_op e.operation clear) eligible in
    let in_clears = Memᴰ-select (λ e. is_op e.operation clear) eligible member (ground arith) in
    let (m, found) = latest-some clears in_clears in
    rw found (
      All-mono (λ e. (in_value_operations e.operation && before m e) ≡ true)
        (λ e. before c e ≡ true)
        (select (λ e. in_value_operations e.operation && before m e) eligible)
        (λ e h. before_of_latest m c e (latest_upper clears found in_clears) (ground arith))
        (select-holds (λ e. in_value_operations e.operation && before m e) eligible))

-- An assertion counts at once, or by its confirmation.
abbrev pub Counts : List MetadataEvent → MetadataDefinition → ℕ → Type 0
Counts events definition i = (definition.assertion_policy ≡ immediate) ⊎ IsConfirmed events i

clear-not_cleared :
    (events : List MetadataEvent) (cutoff : Option MetadataEvent) {c : MetadataEvent}
    → distinct (map (λ (e : MetadataEvent). e.id) events) ≡ true
    → Memᴰ c events
    → c.operation ≡ clear
    → elem c.id (cleared_ids cutoff events) ≡ false
unfolding cleared_ids
clear-not_cleared events none {c} unique member op = refl
clear-not_cleared events (some m) {c} unique member op =
    elim (Bool-cases (elem c.id (cleared_ids (some m) events))) [
      | inr out ↦ out
      | inl inside ↦
          let (e, there, test, same) =
            elem-map-select (λ (e : MetadataEvent). e.id)
              (λ e. in_value_operations e.operation && before e m) c.id events inside in
          let equal = distinct-same (λ (e : MetadataEvent). e.id) events unique there member same in
          absurd (ground (arith, ap (λ (x : MetadataEvent). x.operation) equal))
    ]

or-false : (a b : Bool) → a ≡ false → b ≡ false → (a || b) ≡ false
or-false a b h k = ground arith

clear-not_invalidated :
    (events : List MetadataEvent) (definition : MetadataDefinition) {c : MetadataEvent}
    → distinct (map (λ (e : MetadataEvent). e.id) events) ≡ true
    → Memᴰ c events
    → c.operation ≡ clear
    → IsStanding events c.id
    → elem c.id (derive_event_states events definition).invalidated_ids ≡ false
unfolding derive_event_states
clear-not_invalidated events definition {c} unique member op stands = rw elem-append (
    or-false _ _ (ground (arith, elem-targets remove c.id events))
      (clear-not_cleared events _ unique member op))

clear-IsEligible :
    (events : List MetadataEvent) (definition : MetadataDefinition) {c : MetadataEvent}
    → distinct (map (λ (e : MetadataEvent). e.id) events) ≡ true
    → Memᴰ c events
    → c.operation ≡ clear
    → IsStanding events c.id
    → Counts events definition c.id
    → Memᴰ c (eligible_events events definition)
unfolding eligible_events active_assertions
clear-IsEligible events definition {c} unique member op stands counts =
    Memᴰ-select (is_eligible definition.assertion_policy states.confirmed_ids)
      (active_assertions events states)
      (Memᴰ-select (is_standing states.rejected_ids states.superseded_ids states.invalidated_ids)
        events member (clear-is_standing))
      (ground (arith, confirmed_ids-lem events definition c.id))
  where
    states : EventStates
    states = derive_event_states events definition

    clear-is_standing :
        is_standing states.rejected_ids states.superseded_ids states.invalidated_ids c ≡ true
    clear-is_standing = ground (
      arith,
      clear-not_invalidated events definition unique member op stands,
      elem-targets reject c.id events,
      elem-collect (λ (e : MetadataEvent). e.supersedes_id) c.id events,
    )

-- In a history whose events have different ids, a resolved value is later than every CLEAR that
-- stands and counts, at once or by its confirmation.
pub resolve_field-after_clear :
    (canonical : Option Value → List ℕ) (events : List MetadataEvent)
    (definition : MetadataDefinition) {c : MetadataEvent}
    → distinct (map (λ (e : MetadataEvent). e.id) events) ≡ true
    → Memᴰ c events
    → c.operation ≡ clear
    → IsStanding events c.id
    → Counts events definition c.id
    → is_resolved (resolve_field canonical events definition).state ≡ true
    → All (λ v. before c v.event ≡ true) (resolve_field canonical events definition).values
unfolding resolve_field
resolve_field-after_clear canonical events definition {c} unique member op stands counts resolved =
    let P = λ (e : MetadataEvent). before c e ≡ true in
    let eligible = clear-IsEligible events definition unique member op stands counts in
    let rests =
      resolved-Rests P (λ i. Unit {0}) (λ e h. tt) canonical definition
        (candidates_of (eligible_events events definition)) (pending_events_of events definition)
        (candidates-after_clear (eligible_events events definition) eligible op) resolved in
    All-mono (λ (v : ResolvedValue). P v.event × All (λ i. Unit {0}) v.supporting_event_ids)
      (λ v. P v.event)
      (resolve_candidates canonical definition (candidates_of (eligible_events events definition))
        (pending_events_of events definition)).values
      (λ v h. h.0) rests.values
