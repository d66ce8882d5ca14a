-- ===== src/Agents.antt =====
-- app/agent_conversations.py: the tables of agent conversations, and a new turn, with the rows of
-- app/models.py.
mod Examples
pub mod Deciding
pub mod Opening
pub mod Answered
pub mod Decided
use prv_application.Prelude.{
  Bool, List, Option, Result, String, [], false, find_first, if◌then◌else◌, ltb, map, max, max_by,
  none, ok, refuse, require, select, some, some_or, suc, true, ℕ, ◌&&◌, ◌++◌, ◌==◌, ◌>>=◌, ◌>>◌,
  ◌||◌, ◌∷◌,
}

pub data ConversationStatus : Type 0 where
  active waiting_approval completed failed archived : ConversationStatus

-- AgentTurn.status and AgentRun.status
pub data RunStatus : Type 0 where
  queued running awaiting_approval finished broken canceled : RunStatus

pub data ActionStatus : Type 0 where
  pending approved rejected executed errored : ActionStatus

pub data DecisionValue : Type 0 where
  approve reject : DecisionValue

pub record Conversation : Type 0 where
  pub id : ℕ
  pub tenant_id : ℕ
  pub client_id : ℕ
  pub matter_id : ℕ
  pub agent_definition_id : ℕ
  pub workflow_type : String
  pub initiated_by_user_id : ℕ
  pub agent_definition_version_id : ℕ
  pub status : ConversationStatus

pub record AgentVersion : Type 0 where
  pub id : ℕ
  pub agent_definition_id : ℕ
  pub version : ℕ
  pub is_published : Bool  -- status == "PUBLISHED"
  pub model_key : String

pub record Turn : Type 0 where
  pub id : ℕ
  pub conversation_id : ℕ
  pub sequence : ℕ
  pub status : RunStatus
  pub created_by_user_id : ℕ

-- A message of the role USER.
pub record Message : Type 0 where
  pub id : ℕ
  pub conversation_id : ℕ
  pub turn_id : ℕ
  pub sequence : ℕ
  pub content : String
  pub created_by_user_id : ℕ

pub record AgentRun : Type 0 where
  pub id : ℕ
  pub conversation_id : ℕ
  pub turn_id : ℕ
  pub sequence : ℕ
  pub parent_run_id : Option ℕ
  pub deferred_from_run_id : Option ℕ
  pub agent_definition_version_id : ℕ
  pub actor_user_id : ℕ
  pub model_key : String
  pub status : RunStatus
  pub created_at : ℕ

pub record ActionRequest : Type 0 where
  pub id : ℕ
  pub agent_run_id : ℕ
  pub status : ActionStatus

pub record ActionDecision : Type 0 where
  pub action_request_id : ℕ
  pub decision : DecisionValue
  pub reason : Option String
  pub decided_by_user_id : ℕ

-- `enqueued` lists the runs that `enqueue_agent_run` was called for.
pub record AgentTables : Type 0 where
  pub conversations : List Conversation
  pub versions : List AgentVersion
  pub turns : List Turn
  pub messages : List Message
  pub runs : List AgentRun
  pub actions : List ActionRequest
  pub decisions : List ActionDecision
  pub enqueued : List ℕ

pub data AgentError : Type 0 where
  pending_actions not_available no_version already_decided no_source_run : AgentError
  no_published_version not_compatible foreign_tenant unpublished : AgentError

-- `func.max(column)`, or 0 without rows.
unfoldable pub max_of : List ℕ → ℕ
max_of [] = 0
max_of (n ∷ ns) = max n (max_of ns)

unfoldable pub put_conversation : Conversation → List Conversation → List Conversation
put_conversation c [] = []
put_conversation c (d ∷ ds) =
    let rest = put_conversation c ds in if d.id == c.id then c ∷ rest else d ∷ rest

unfoldable pub put_turn : Turn → List Turn → List Turn
put_turn t [] = []
put_turn t (u ∷ us) = let rest = put_turn t us in if u.id == t.id then t ∷ rest else u ∷ rest

unfoldable pub put_action : ActionRequest → List ActionRequest → List ActionRequest
put_action a [] = []
put_action a (b ∷ bs) = let rest = put_action a bs in if b.id == a.id then a ∷ rest else b ∷ rest

abbrev pub is_waiting : ConversationStatus → Bool
is_waiting waiting_approval = true
is_waiting _ = false

-- `status in {"ACTIVE", "COMPLETED"}`
abbrev pub is_open : ConversationStatus → Bool
is_open active = true
is_open completed = true
is_open _ = false

abbrev pub turn_sequences : AgentTables → ℕ → List ℕ
turn_sequences db c =
    map (λ (t : Turn). t.sequence) (select (λ (t : Turn). t.conversation_id == c) db.turns)

abbrev pub message_sequences : AgentTables → ℕ → List ℕ
message_sequences db c =
    map (λ (m : Message). m.sequence) (select (λ (m : Message). m.conversation_id == c) db.messages)

-- `ORDER BY created_at DESC, id DESC LIMIT 1`
abbrev run_before : AgentRun → AgentRun → Bool
run_before r s = ltb r.created_at s.created_at || ((r.created_at == s.created_at) && ltb r.id s.id)

abbrev pub latest_id : List AgentRun → Option ℕ
latest_id [] = none
latest_id (r ∷ rs) = some (max_by run_before r rs).id

-- `turn_id`, `message_id` and `run_id` are the ids of the new rows, and `now` is the clock's time.
unfoldable pub create_turn :
    AgentTables
    → Conversation
    → String
    → (user turn_id message_id run_id now : ℕ) → Result AgentError AgentTables
unfolding max_of put_conversation max_by
create_turn db c message user turn_id message_id run_id now = do
  refuse (is_waiting c.status) pending_actions
  require (is_open c.status) not_available
  version ←
      some_or (find_first (λ (v : AgentVersion). v.id == c.agent_definition_version_id) db.versions)
        no_version
  ok (record db {
    turns =
        db.turns
        ++ record {
          id = turn_id;
          conversation_id = c.id;
          sequence = suc (max_of (turn_sequences db c.id));
          status = queued;
          created_by_user_id = user;
        }
          ∷ [];
    messages =
        db.messages
        ++ record {
          id = message_id;
          conversation_id = c.id;
          turn_id = turn_id;
          sequence = suc (max_of (message_sequences db c.id));
          content = message;
          created_by_user_id = user;
        }
          ∷ [];
    runs =
        db.runs
        ++ record {
          id = run_id;
          conversation_id = c.id;
          turn_id = turn_id;
          sequence = 1;
          parent_run_id = latest_id (select (λ (r : AgentRun). r.conversation_id == c.id) db.runs);
          deferred_from_run_id = none;
          agent_definition_version_id = c.agent_definition_version_id;
          actor_user_id = user;
          model_key = version.model_key;
          status = queued;
          created_at = now;
        }
          ∷ [];
    conversations = put_conversation (record c { status = active }) db.conversations;
    enqueued = db.enqueued ++ run_id ∷ [];
  })
