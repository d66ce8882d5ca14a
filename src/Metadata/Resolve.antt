-- ===== src/Metadata/Resolve.antt =====
-- `derive_event_states` and `resolve_field` of app/document_metadata.py.
-- `canonical` is `_canonical`, the JSON text of a value as its code points: the theorems hold
-- whatever it is. Sets of event ids are lists read by membership.
pub mod Support
pub mod Standing
pub mod Policies
pub mod Grouping
pub mod Coverage
pub mod Fields
pub mod Conflicts
use prv_application.Prelude.{
  Bool, List, Option, [], codes_eq, codes_lt, collect, elem, false, flat_map, if◌then◌else◌,
  is_empty, length, ltb, map, max_by, none, not, select, some, sort_by, true, ℕ, ◌&&◌, ◌++◌, ◌==◌,
  ◌||◌, ◌∷◌,
}
use prv_application.Metadata.Types.{
  AssertionPolicy, MetadataDefinition, MetadataEvent, Operation, ResolutionPolicy, Value,
  ValueColumns, bool, clear, confirm, container, date, datetime, explicit_only, float, human,
  human_precedence, immediate, in_assertion_operations, in_value_operations, int, is_op,
  latest_valid, multiple, reject, remove, requires_confirmation, single, str,
}

pub record ResolvedValue : Type 0 where
  pub event : MetadataEvent
  pub supporting_event_ids : List ℕ

-- FieldResolution.state
pub data ResolutionState : Type 0 where
  value_state pending_state empty_state conflicted_state : ResolutionState

pub record FieldResolution : Type 0 where
  pub state : ResolutionState
  pub values : List ResolvedValue
  pub pending_events : List MetadataEvent
  pub conflicting_event_ids : List ℕ

pub record EventStates : Type 0 where
  pub rejected_ids : List ℕ
  pub confirmed_ids : List ℕ
  pub superseded_ids : List ℕ
  pub invalidated_ids : List ℕ

abbrev or_else : Option Value → Option Value → Option Value
or_else none b = b
or_else (some v) b = some v

abbrev read : {A : Type 0} → (A → Value) → Option A → Option Value
read f none = none
read f (some a) = some (f a)

-- The first column that is not null.
unfoldable pub event_value : ValueColumns → Option Value
event_value c = or_else (read str c.value_text) (
    or_else (read int c.value_long) (
      or_else (read float c.value_float) (
        or_else (read bool c.value_boolean) (
          or_else (read date c.value_date)
            (or_else (read datetime c.value_datetime) (read container c.value_json))))))

-- `_event_order(e) < _event_order(f)`: by time, then by id. The text of a UUID has a fixed width,
-- so texts compare as the numbers do.
abbrev pub before : MetadataEvent → MetadataEvent → Bool
before e f = ltb e.created_at f.created_at || (e.created_at == f.created_at && ltb e.id f.id)

-- `max(events, key=_event_order) if events else None`
unfoldable pub latest : List MetadataEvent → Option MetadataEvent
latest [] = none
latest (e ∷ es) = some (max_by before e es)

-- The targets of the events with the given operation.
unfoldable pub targets : Operation → List MetadataEvent → List ℕ
targets op es = collect (λ e. if is_op e.operation op then e.target_event_id else none) es

-- `definition.assertion_policy == "IMMEDIATE" or event.id in confirmed_ids`
abbrev pub is_eligible : AssertionPolicy → List ℕ → MetadataEvent → Bool
is_eligible immediate confirmed e = true
is_eligible requires_confirmation confirmed e = elem e.id confirmed

-- An assertion in none of the three sets.
abbrev pub is_standing : List ℕ → List ℕ → List ℕ → MetadataEvent → Bool
is_standing rejected superseded removed e =
    in_assertion_operations e.operation
    && not (elem e.id rejected)
    && not (elem e.id superseded)
    && not (elem e.id removed)

-- The value events that an eligible CLEAR comes after.
unfoldable pub cleared_ids : Option MetadataEvent → List MetadataEvent → List ℕ
cleared_ids none es = []
cleared_ids (some c) es =
    map (λ e. e.id) (select (λ e. in_value_operations e.operation && before e c) es)

unfoldable pub derive_event_states : List MetadataEvent → MetadataDefinition → EventStates
unfolding latest targets cleared_ids
derive_event_states events definition =
    let rejected = targets reject events in
    let confirmed = select (λ i. not (elem i rejected)) (targets confirm events) in
    let superseded = collect (λ (e : MetadataEvent). e.supersedes_id) events in
    let removed = targets remove events in
    let active_assertions = select (is_standing rejected superseded removed) events in
    let eligible = select (is_eligible definition.assertion_policy confirmed) active_assertions in
    let latest_clear = latest (select (λ e. is_op e.operation clear) eligible) in
    record {
      rejected_ids = rejected;
      confirmed_ids = confirmed;
      superseded_ids = superseded;
      invalidated_ids = removed ++ cleared_ids latest_clear events;
    }

-- `grouped.setdefault(key, []).append(event)` on a dict in insertion order.
unfoldable pub add_to_group :
    List ℕ → MetadataEvent → List (List ℕ × List MetadataEvent) → List (List ℕ × List MetadataEvent)
add_to_group k e [] = (k, e ∷ []) ∷ []
add_to_group k e ((j, es) ∷ gs) =
    let rest = add_to_group k e gs in
    if codes_eq j k then (j, es ++ e ∷ []) ∷ gs else (j, es) ∷ rest

-- The two lists that split the active assertions by eligibility, and the candidates for a value.
unfoldable pub active_assertions : List MetadataEvent → EventStates → List MetadataEvent
active_assertions events states =
    select (is_standing states.rejected_ids states.superseded_ids states.invalidated_ids) events

abbrev pub is_pending : AssertionPolicy → List ℕ → MetadataEvent → Bool
is_pending immediate confirmed e = false
is_pending requires_confirmation confirmed e = not (elem e.id confirmed)

unfoldable pub eligible_events : List MetadataEvent → MetadataDefinition → List MetadataEvent
unfolding derive_event_states active_assertions
eligible_events events definition =
    let states = derive_event_states events definition in
    select (is_eligible definition.assertion_policy states.confirmed_ids)
      (active_assertions events states)

unfoldable pub pending_events_of : List MetadataEvent → MetadataDefinition → List MetadataEvent
unfolding derive_event_states active_assertions
pending_events_of events definition =
    let states = derive_event_states events definition in
    select (is_pending definition.assertion_policy states.confirmed_ids)
      (active_assertions events states)

abbrev pub after_clear : Option MetadataEvent → MetadataEvent → Bool
after_clear none e = true
after_clear (some c) e = before c e

-- The eligible value events that come after the latest eligible CLEAR.
unfoldable pub candidates_of : List MetadataEvent → List MetadataEvent
unfolding latest
candidates_of eligible =
    let latest_clear = latest (select (λ e. is_op e.operation clear) eligible) in
    select (λ e. in_value_operations e.operation && after_clear latest_clear e) eligible

-- `[event.id for event in sorted(events, key=_event_order)]`
unfoldable pub sorted_ids : List MetadataEvent → List ℕ
unfolding sort_by
sorted_ids es = map (λ e. e.id) (sort_by before es)

abbrev pub alone : MetadataEvent → ResolvedValue
alone e = record { event = e; supporting_event_ids = e.id ∷ [] }

-- A group has at least the event that opened it.
abbrev pub resolved_group : List ℕ × List MetadataEvent → List ResolvedValue
resolved_group (k, []) = []
resolved_group (k, (e ∷ es)) =
    record { event = max_by before e es; supporting_event_ids = sorted_ids (e ∷ es) } ∷ []

abbrev pub is_human : MetadataEvent → Bool
is_human e = elim e.source_type [ human ↦ true | _ ↦ false ]

abbrev pub or_all : List MetadataEvent → List MetadataEvent → List MetadataEvent
or_all [] es = es
or_all (x ∷ xs) es = x ∷ xs

abbrev pub chosen_values : Option MetadataEvent → List ResolvedValue
chosen_values none = []
chosen_values (some e) = alone e ∷ []

module _ (canonical : Option Value → List ℕ) where
  unfoldable pub group_events :
      List (List ℕ × List MetadataEvent) → List MetadataEvent → List (List ℕ × List MetadataEvent)
  unfolding add_to_group
  group_events gs [] = gs
  group_events gs (e ∷ es) = group_events (add_to_group (canonical (event_value e.columns)) e gs) es

  abbrev pub value_key : ResolvedValue → List ℕ
  value_key v = canonical (event_value v.event.columns)

  abbrev pub value_lt : ResolvedValue → ResolvedValue → Bool
  value_lt v w = codes_lt (value_key v) (value_key w)

  -- One value for each group, in the order of the canonical texts.
  unfoldable pub grouped_values : List MetadataEvent → List ResolvedValue
  unfolding group_events sort_by sorted_ids max_by
  grouped_values candidates =
      sort_by value_lt (flat_map resolved_group (group_events [] candidates))

  abbrev explicit_resolution :
      List ResolvedValue → List MetadataEvent → List MetadataEvent → FieldResolution
  explicit_resolution values candidates pending =
      if length values == 1
      then record {
        state = value_state;
        values = values;
        pending_events = pending;
        conflicting_event_ids = [];
      }
      else record {
        state = conflicted_state;
        values = values;
        pending_events = pending;
        conflicting_event_ids = sorted_ids candidates;
      }

  -- A single-valued field with at least one candidate.
  unfoldable pub resolve_single :
      ResolutionPolicy → List MetadataEvent → List MetadataEvent → FieldResolution
  unfolding grouped_values latest
  resolve_single latest_valid candidates pending = record {
    state = value_state;
    values = chosen_values (latest candidates);
    pending_events = pending;
    conflicting_event_ids = [];
  }
  resolve_single human_precedence candidates pending = record {
    state = value_state;
    values = chosen_values (latest (or_all (select is_human candidates) candidates));
    pending_events = pending;
    conflicting_event_ids = [];
  }
  resolve_single explicit_only candidates pending =
      explicit_resolution (grouped_values candidates) candidates pending

  unfoldable pub resolve_candidates :
      MetadataDefinition → List MetadataEvent → List MetadataEvent → FieldResolution
  unfolding resolve_single grouped_values
  resolve_candidates definition [] pending = record {
    state = if is_empty pending then empty_state else pending_state;
    values = map alone pending;
    pending_events = pending;
    conflicting_event_ids = [];
  }
  resolve_candidates definition (e ∷ es) pending = elim definition.cardinality [
    | multiple ↦ record {
      state = value_state;
      values = grouped_values (e ∷ es);
      pending_events = pending;
      conflicting_event_ids = [];
    }
    | single ↦ resolve_single definition.resolution_policy (e ∷ es) pending
  ]

  unfoldable pub resolve_field : List MetadataEvent → MetadataDefinition → FieldResolution
  unfolding eligible_events pending_events_of candidates_of resolve_candidates
  resolve_field events definition =
      resolve_candidates definition (candidates_of (eligible_events events definition))
        (pending_events_of events definition)
