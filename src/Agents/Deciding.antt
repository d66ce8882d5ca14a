-- ===== src/Agents/Deciding.antt =====
-- `decide_action` of app/agent_conversations.py: the decision on an action that an agent asks for,
-- and the run that goes on when none is pending.
use prv_application.Prelude.{
  Bool, List, Option, Result, String, [], any_of, false, find_first, if◌then◌else◌, is_id, none, ok,
  refuse, require, some, some_or, suc, true, ℕ, ◌&&◌, ◌++◌, ◌==◌, ◌>>=◌, ◌>>◌, ◌∷◌,
}
use prv_application.Agents.{
  ActionDecision, ActionRequest, ActionStatus, AgentError, AgentRun, AgentTables, Conversation,
  DecisionValue, Turn, active, already_decided, approve, approved, no_source_run, pending,
  put_action, put_conversation, put_turn, queued, reject, rejected,
}

abbrev pub is_pending : ActionStatus → Bool
is_pending pending = true
is_pending _ = false

abbrev pub is_decision_on : ℕ → ActionDecision → Bool
is_decision_on a d = d.action_request_id == a

abbrev pub is_pending_of : ℕ → ActionRequest → Bool
is_pending_of run a = (a.agent_run_id == run) && is_pending a.status

-- `deferred_from_run_id == run`
abbrev pub resumes : ℕ → AgentRun → Bool
resumes run r = is_id r.deferred_from_run_id run

abbrev pub decided : DecisionValue → ActionStatus
decided approve = approved
decided reject = rejected

abbrev pub resumed_run : AgentRun → (user run_id now : ℕ) → AgentRun
resumed_run source user run_id now = record {
  id = run_id;
  conversation_id = source.conversation_id;
  turn_id = source.turn_id;
  sequence = suc source.sequence;
  parent_run_id = some source.id;
  deferred_from_run_id = some source.id;
  agent_definition_version_id = source.agent_definition_version_id;
  actor_user_id = user;
  model_key = source.model_key;
  status = queued;
  created_at = now;
}

abbrev queue_turn : Option Turn → List Turn → List Turn
queue_turn none ts = ts
queue_turn (some t) ts = put_turn (record t { status = queued }) ts

abbrev activate : Option Conversation → List Conversation → List Conversation
activate none cs = cs
activate (some c) cs = put_conversation (record c { status = active }) cs

-- What stands after the decision when no request of the run is pending any more, with the run that
-- was resumed before, if there is one.
unfoldable pub resume_run :
    AgentTables → AgentRun → Option AgentRun → (user run_id now : ℕ) → AgentTables × Option AgentRun
unfolding put_turn put_conversation
resume_run db source (some existing) user run_id now = (db, some existing)
resume_run db source none user run_id now = (
  record db {
    runs = db.runs ++ resumed_run source user run_id now ∷ [];
    turns = queue_turn (find_first (λ (t : Turn). t.id == source.turn_id) db.turns) db.turns;
    conversations =
        activate
          (find_first (λ (c : Conversation). c.id == source.conversation_id) db.conversations)
          db.conversations;
    enqueued = db.enqueued ++ run_id ∷ [];
  },
  some (resumed_run source user run_id now),
)

abbrev pub with_decision :
    AgentTables → ActionRequest → DecisionValue → Option String → ℕ → AgentTables
with_decision db a value reason user = record db {
  decisions =
      db.decisions
      ++ record {
        action_request_id = a.id;
        decision = value;
        reason = reason;
        decided_by_user_id = user;
      }
        ∷ [];
  actions = put_action (record a { status = decided value }) db.actions;
}

-- The part after `pending_count`.
unfoldable pub after_decision :
    AgentTables
    → ActionRequest
    → (user run_id now : ℕ) → Result AgentError (AgentTables × Option AgentRun)
unfolding resume_run
after_decision db a user run_id now = do
  source ← some_or (find_first (λ (r : AgentRun). r.id == a.agent_run_id) db.runs) no_source_run
  ok (resume_run db source (find_first (resumes source.id) db.runs) user run_id now)

unfoldable pub decide_action :
    AgentTables
    → ActionRequest
    → DecisionValue
    → Option String
    → (user run_id now : ℕ) → Result AgentError (AgentTables × Option AgentRun)
unfolding after_decision put_action
decide_action db a value reason user run_id now = do
  require (is_pending a.status) already_decided
  refuse (any_of (is_decision_on a.id) db.decisions) already_decided
  let saved = with_decision db a value reason user
  (if any_of (is_pending_of a.agent_run_id) saved.actions
      then ok (saved, none)
      else after_decision saved a user run_id now)
