-- ===== src/Agents/Examples.antt =====
-- A run of a turn and of two decisions, and the theorems at these inputs.
use prv_application.Agents.Deciding.{after_decision, decide_action, resumed_run, with_decision}
use prv_application.Agents.Opening.{
  Agent, Matter, Opens, create_conversation, create_conversation-Opens, supports_workflow,
  tenant_scope,
}
use prv_application.Prelude.{[], arith, err, none, ok, refl, some, true, ℕ, ◌∷◌, ◌≡◌}
use prv_application.Agents.{
  ActionRequest, ActionStatus, AgentRun, AgentTables, Conversation, ConversationStatus, Turn,
  active, approve, create_turn, pending, pending_actions, put_turn, queued, reject,
  waiting_approval,
}
use prv_application.Agents.Decided.{AgentTrace-Valid, AgentsValid, and_then, at_start, starts_turn}
use prv_application.Agents.Answered.{
  Continues, GoesOn, create_turn-Continues, decide_action-Answers,
}

abbrev chat : ConversationStatus → Conversation
chat s = record {
  id = 1;
  tenant_id = 6;
  client_id = 7;
  matter_id = 8;
  agent_definition_id = 5;
  workflow_type = "MATTER_DEFINITION_SETUP";
  initiated_by_user_id = 9;
  agent_definition_version_id = 4;
  status = s;
}

abbrev asked : ℕ → ActionStatus → ActionRequest
asked i s = record { id = i; agent_run_id = 30; status = s }

abbrev tables : AgentTables
tables = record {
  conversations = chat active ∷ [];
  versions =
      record { id = 4; agent_definition_id = 5; version = 2; is_published = true; model_key = "m" }
      ∷ [];
  turns = [];
  messages = [];
  runs = [];
  actions = [];
  decisions = [];
  enqueued = [];
}

abbrev first_run : AgentRun
first_run = record {
  id = 30;
  conversation_id = 1;
  turn_id = 10;
  sequence = 1;
  parent_run_id = none;
  deferred_from_run_id = none;
  agent_definition_version_id = 4;
  actor_user_id = 9;
  model_key = "m";
  status = queued;
  created_at = 100;
}

abbrev first_turn : Turn
first_turn = record {
  id = 10;
  conversation_id = 1;
  sequence = 1;
  status = queued;
  created_by_user_id = 9;
}

abbrev talking : AgentTables
talking = record tables {
  turns = first_turn ∷ [];
  messages =
      record {
        id = 20;
        conversation_id = 1;
        turn_id = 10;
        sequence = 1;
        content = "hello";
        created_by_user_id = 9;
      }
      ∷ [];
  runs = first_run ∷ [];
  enqueued = 30 ∷ [];
}

turn_created : create_turn tables (chat active) "hello" 9 10 20 30 100 ≡ ok talking
unfolding create_turn
turn_created = refl

-- No turn while actions wait for a decision.
turn_refused :
    create_turn tables (chat waiting_approval) "hello" 9 10 20 30 100 ≡ err pending_actions
unfolding create_turn
turn_refused = refl

create_turn-Continues_example : Continues tables (chat active) "hello" 9 talking
create_turn-Continues_example =
    create_turn-Continues tables (chat active) "hello" 9 10 20 30 100 talking turn_created

AgentTrace-Valid_example : AgentsValid talking
AgentTrace-Valid_example =
    AgentTrace-Valid tables talking
      (and_then tables talking talking
        (starts_turn (chat active) "hello" 9 10 20 30 100 talking turn_created) (at_start talking))
      (record { decided_once = λ a. omega arith; resumed_once = λ r. omega arith })

-- Of two requests of the run one is decided.
abbrev asking : AgentTables
asking = record talking { actions = asked 1 pending ∷ asked 2 pending ∷ [] }

abbrev one_decided : AgentTables
one_decided = with_decision asking (asked 1 pending) approve none 9

first_decision :
    decide_action asking (asked 1 pending) approve none 9 31 101 ≡ ok (one_decided, none)
unfolding decide_action
first_decision = refl

-- The second decision resumes it.
abbrev resumed : AgentTables
resumed = record (with_decision one_decided (asked 2 pending) reject none 9) {
  runs = first_run ∷ resumed_run first_run 9 31 101 ∷ [];
  enqueued = 30 ∷ 31 ∷ [];
}

second_decision :
    decide_action one_decided (asked 2 pending) reject none 9 31 101
    ≡ ok (resumed, some (resumed_run first_run 9 31 101))
unfolding decide_action after_decision put_turn
second_decision = refl

decide_action-Answers_example :
    GoesOn one_decided (asked 2 pending) 9 31 (resumed_run first_run 9 31 101) resumed
decide_action-Answers_example =
    decide_action-Answers one_decided (asked 2 pending) reject none 9 31 101
      (resumed, some (resumed_run first_run 9 31 101)) second_decision

abbrev agent : Agent
agent = record {
  id = 5;
  owner_tenant_id = 6;
  scope = tenant_scope;
  key = "matter_definition_setup";
  is_active = true;
  published_version = some 2;
}

abbrev matter : Matter
matter = record { id = 8; client_id = 7; tenant_id = 6 }

conversation_opened :
    create_conversation
      (record tables { conversations = [] })
      matter
      agent
      "MATTER_DEFINITION_SETUP"
      9
      1
    ≡ ok (tables, chat active)
unfolding create_conversation supports_workflow
conversation_opened = refl

create_conversation-Opens_example :
    Opens
      (record tables { conversations = [] })
      matter
      agent
      "MATTER_DEFINITION_SETUP"
      tables
      (chat active)
create_conversation-Opens_example =
    create_conversation-Opens (record tables { conversations = [] }) matter agent
      "MATTER_DEFINITION_SETUP" 9 1 tables (chat active) conversation_opened
