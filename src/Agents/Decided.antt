-- ===== src/Agents/Decided.antt =====
-- An action is decided once, and a run is resumed once.
use prv_application.Agents.Deciding.{
  after_decision, decide_action, is_decision_on, is_pending, is_pending_of, resume_run, resumed_run,
  resumes, with_decision,
}
use prv_application.Prelude.{
  ==→≡, Bool, Bool-cases, Ensures, Ensures-at, Ensures-bind, List, Option, Option-cases, String, [],
  any_of, any_of-length, ap, arith, false, find_first, if_holds, inl, inr, length, length-append,
  length-select, none, ok, refl, refuse, require, select, select-append, select-append_other,
  some_or, subst, true, ℕ, ◌++◌, ◌==◌, ◌∷◌, ◌≡◌, ◌≤◌,
}
use prv_application.Agents.{
  ActionDecision, ActionRequest, AgentRun, AgentTables, AgentVersion, Conversation, DecisionValue,
  already_decided, create_turn, is_open, is_waiting, latest_id, no_source_run, no_version,
  not_available, pending_actions, queued,
}

-- No request has two decisions, and no run is resumed by two.
pub record AgentsValid (db : AgentTables) : Type 0 where
  pub decided_once : (a : ℕ) → length (select (is_decision_on a) db.decisions) ≤ 1
  pub resumed_once : (r : ℕ) → length (select (resumes r) db.runs) ≤ 1

module _ {A : Type 0} (p : A → Bool) where
  -- One more row that has the property, or one that does not have it.
  length-select-first :
      (xs : List A) (x : A) → any_of p xs ≡ false → length (select p (xs ++ x ∷ [])) ≤ 1
  length-select-first xs x h = omega (
    arith,
    ap length (select-append p xs (x ∷ [])),
    length-append (select p xs) (select p (x ∷ [])),
    any_of-length p xs h,
    length-select p (x ∷ []),
  )

  length-select_same :
      (xs : List A) (x : A) → p x ≡ false → length (select p (xs ++ x ∷ [])) ≡ length (select p xs)
  length-select_same xs x h = ap length (select-append_other p xs (x ∷ []) (h, tt))

find_first-none :
    {A : Type 0} (p : A → Bool) (xs : List A) → find_first p xs ≡ none → any_of p xs ≡ false
find_first-none p [] h = refl
find_first-none p (x ∷ xs) h = ground (arith, find_first-none p xs)

create_turn-Valid :
    (db : AgentTables) (c : Conversation) (message : String)
    (user turn_id message_id run_id now : ℕ)
    → AgentsValid db
    → Ensures AgentsValid (create_turn db c message user turn_id message_id run_id now)
unfolding create_turn
create_turn-Valid db c message user turn_id message_id run_id now v =
    Ensures-bind AgentsValid (refuse (is_waiting c.status) pending_actions) _ λ t e.
      Ensures-bind AgentsValid (require (is_open c.status) not_available) _ λ u f.
        Ensures-bind AgentsValid
          (some_or
            (find_first (λ (w : AgentVersion). w.id == c.agent_definition_version_id) db.versions)
            no_version)
          _
          λ version g. record {
            decided_once = v.decided_once;
            resumed_once = λ r. omega (
              arith,
              length-select_same (resumes r) db.runs (first_run version) refl,
              v.resumed_once r,
            );
          }
  where
    first_run : AgentVersion → AgentRun
    first_run version = record {
      id = run_id;
      conversation_id = c.id;
      turn_id = turn_id;
      sequence = 1;
      parent_run_id = latest_id (select (λ (r : AgentRun). r.conversation_id == c.id) db.runs);
      deferred_from_run_id = none;
      agent_definition_version_id = c.agent_definition_version_id;
      actor_user_id = user;
      model_key = version.model_key;
      status = queued;
      created_at = now;
    }

resume_run-Valid :
    (db : AgentTables) (source : AgentRun) (user run_id now : ℕ)
    → AgentsValid db
    → AgentsValid (resume_run db source (find_first (resumes source.id) db.runs) user run_id now).0
unfolding resume_run
resume_run-Valid db source user run_id now v =
    elim (Option-cases (find_first (resumes source.id) db.runs)) [
      | inr (existing, e) ↦ rw e v
      | inl e ↦ rw e (record {
        decided_once = v.decided_once;
        resumed_once = λ r. elim (Bool-cases (source.id == r)) [
          | inl same ↦
              length-select-first (resumes r) db.runs (resumed_run source user run_id now) (
                subst (λ (i : ℕ). any_of (resumes i) db.runs ≡ false) (==→≡ source.id r same)
                  (find_first-none (resumes source.id) db.runs e))
          | inr other ↦ omega (
            arith,
            length-select_same (resumes r) db.runs (resumed_run source user run_id now) other,
            v.resumed_once r,
          )
        ];
      })
    ]

with_decision-Valid :
    (db : AgentTables) (a : ActionRequest) (value : DecisionValue) (reason : Option String)
    (user : ℕ)
    → any_of (is_decision_on a.id) db.decisions ≡ false
    → AgentsValid db
    → AgentsValid (with_decision db a value reason user)
with_decision-Valid db a value reason user h v = record {
  decided_once = λ i. elim (Bool-cases (a.id == i)) [
    | inl same ↦
        length-select-first (is_decision_on i) db.decisions (new_decision)
          (subst (λ (k : ℕ). any_of (is_decision_on k) db.decisions ≡ false) (==→≡ a.id i same) h)
    | inr other ↦ omega (
      arith,
      length-select_same (is_decision_on i) db.decisions new_decision other,
      v.decided_once i,
    )
  ];
  resumed_once = v.resumed_once;
}
  where
    new_decision : ActionDecision
    new_decision = record {
      action_request_id = a.id;
      decision = value;
      reason = reason;
      decided_by_user_id = user;
    }

decide_action-Valid :
    (db : AgentTables) (a : ActionRequest) (value : DecisionValue) (reason : Option String)
    (user run_id now : ℕ)
    → AgentsValid db
    → Ensures (λ x. AgentsValid x.0) (decide_action db a value reason user run_id now)
unfolding decide_action after_decision
decide_action-Valid db a value reason user run_id now v =
    Ensures-bind (λ x. AgentsValid x.0) (require (is_pending a.status) already_decided) _
      λ t e.
        Ensures-bind (λ x. AgentsValid x.0)
          (refuse (any_of (is_decision_on a.id) db.decisions) already_decided) _
          λ u f.
            let saved = with_decision db a value reason user in
            let w =
              with_decision-Valid db a value reason user
                (refused_not (any_of (is_decision_on a.id) db.decisions) f) v in
            if_holds (Ensures (λ x. AgentsValid x.0))
              (any_of (is_pending_of a.agent_run_id) saved.actions) (ok (saved, none))
              (after_decision saved a user run_id now) w
              (Ensures-bind (λ x. AgentsValid x.0)
                (some_or (find_first (λ (r : AgentRun). r.id == a.agent_run_id) db.runs)
                  no_source_run)
                _ λ source g. resume_run-Valid saved source user run_id now w)
  where
    refused_not : (b : Bool) {z : Unit {0}} → refuse b already_decided ≡ ok z → b ≡ false
    refused_not true h = cc
    refused_not false h = refl

-- A successful call of either function.
pub data AgentStep (db : AgentTables) : AgentTables → Type 0 where
  starts_turn :
      (c : Conversation) (message : String) (user turn_id message_id run_id now : ℕ)
      (after : AgentTables)
      → create_turn db c message user turn_id message_id run_id now ≡ ok after
      → AgentStep db after
  decides :
      (a : ActionRequest) (value : DecisionValue) (reason : Option String) (user run_id now : ℕ)
      (r : AgentTables × Option AgentRun)
      → decide_action db a value reason user run_id now ≡ ok r
      → AgentStep db r.0

pub data AgentTrace : AgentTables → AgentTables → Type 0 where
  at_start : (db : AgentTables) → AgentTrace db db
  and_then :
      (db middle after : AgentTables)
      → AgentStep db middle
      → AgentTrace middle after
      → AgentTrace db after

AgentStep-Valid : (db after : AgentTables) → AgentStep db after → AgentsValid db → AgentsValid after
AgentStep-Valid db _ (starts_turn c message user turn_id message_id run_id now after h) v =
    Ensures-at AgentsValid (create_turn db c message user turn_id message_id run_id now) h
      (create_turn-Valid db c message user turn_id message_id run_id now v)
AgentStep-Valid db _ (decides a value reason user run_id now r h) v =
    Ensures-at (λ x. AgentsValid x.0) (decide_action db a value reason user run_id now) h
      (decide_action-Valid db a value reason user run_id now v)

-- If no request has two decisions and no run is resumed twice, then so it is after any sequence of
-- new turns and decisions.
pub AgentTrace-Valid :
    (db after : AgentTables) → AgentTrace db after → AgentsValid db → AgentsValid after
AgentTrace-Valid db _ (at_start _) v = v
AgentTrace-Valid db _ (and_then _ middle after s rest) v =
    AgentTrace-Valid middle after rest (AgentStep-Valid db middle s v)
