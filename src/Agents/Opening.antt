-- ===== src/Agents/Opening.antt =====
-- `create_conversation` of app/agent_conversations.py, with `agent_supports_workflow` of
-- app/agent_workflows.py: who may talk to which agent about a matter.
use prv_application.Prelude.{
  ==→≡, >>=-eq-ok, Bool, Memᴰ, Option, Result, String, [], ap, arith, eq_iff, false, find_first,
  find_first-Memᴰ, find_first-holds, not, ok, ok-injective, refl, refuse, refused-false, require,
  required-true, some, some_or, some_or-some, str_eq, subst, sym, true, ℕ, ◌&&◌, ◌++◌, ◌==◌, ◌>>=◌,
  ◌>>◌, ◌∙◌, ◌∷◌, ◌≡◌,
}
use prv_application.Agents.{
  AgentError, AgentTables, AgentVersion, Conversation, active, foreign_tenant, no_published_version,
  not_compatible, unpublished,
}

pub data Scope : Type 0 where
  system_scope tenant_scope : Scope

-- AgentDefinition
pub record Agent : Type 0 where
  pub id : ℕ
  pub owner_tenant_id : ℕ
  pub scope : Scope
  pub key : String
  pub is_active : Bool  -- status == "ACTIVE"
  pub published_version : Option ℕ

-- `tenant_id` is that of the matter's client.
pub record Matter : Type 0 where
  pub id : ℕ
  pub client_id : ℕ
  pub tenant_id : ℕ

-- `agent.key in WORKFLOW_AGENT_KEYS.get(workflow_type, frozenset())`
unfoldable pub supports_workflow : Agent → String → Bool
supports_workflow agent workflow_type =
    str_eq workflow_type "MATTER_DEFINITION_SETUP" && str_eq agent.key "matter_definition_setup"

abbrev pub is_tenant_scope : Scope → Bool
is_tenant_scope tenant_scope = true
is_tenant_scope system_scope = false

-- The published version of the agent.
abbrev pub is_version_of : Agent → ℕ → AgentVersion → Bool
is_version_of agent n v = (v.agent_definition_id == agent.id) && (v.version == n) && v.is_published

abbrev pub opened_conversation : Matter → Agent → String → ℕ → ℕ → AgentVersion → Conversation
opened_conversation matter agent workflow_type user id version = record {
  id = id;
  tenant_id = matter.tenant_id;
  client_id = matter.client_id;
  matter_id = matter.id;
  agent_definition_id = agent.id;
  workflow_type = workflow_type;
  initiated_by_user_id = user;
  agent_definition_version_id = version.id;
  status = active;
}

-- `id` is the id of the new row.
unfoldable pub create_conversation :
    AgentTables
    → Matter
    → Agent
    → String
    → (user id : ℕ) → Result AgentError (AgentTables × Conversation)
unfolding supports_workflow
create_conversation db matter agent workflow_type user id = do
  require agent.is_active no_published_version
  n ← some_or agent.published_version no_published_version
  require (supports_workflow agent workflow_type) not_compatible
  refuse (is_tenant_scope agent.scope && not (agent.owner_tenant_id == matter.tenant_id))
      foreign_tenant
  version ← some_or (find_first (is_version_of agent n) db.versions) unpublished
  ok (
    record db {
      conversations =
          db.conversations ++ opened_conversation matter agent workflow_type user id version ∷ [];
    },
    opened_conversation matter agent workflow_type user id version,
  )

-- What a successful call has checked and stored.
pub record Opens (db : AgentTables) (matter : Matter) (agent : Agent) (workflow_type : String)
    (after : AgentTables) (c : Conversation) : Type 0 where
  pub stored : after.conversations ≡ db.conversations ++ c ∷ []
  pub agent_active : agent.is_active ≡ true
  pub supported :
      (workflow_type ≡ "MATTER_DEFINITION_SETUP") × (agent.key ≡ "matter_definition_setup")
  pub own_tenant : agent.scope ≡ tenant_scope → agent.owner_tenant_id ≡ matter.tenant_id
  pub of_matter :
      (c.tenant_id ≡ matter.tenant_id)
      × (c.client_id ≡ matter.client_id)
      × (c.matter_id ≡ matter.id)
  pub with_agent :
      (c.agent_definition_id ≡ agent.id) × (c.workflow_type ≡ workflow_type) × (c.status ≡ active)
  pub version : AgentVersion
  pub pinned : c.agent_definition_version_id ≡ version.id
  pub known : Memᴰ version db.versions
  pub of_agent : version.agent_definition_id ≡ agent.id
  pub named : agent.published_version ≡ some version.version
  pub published : version.is_published ≡ true

and-both : (p q : Bool) → (p && q) ≡ true → (p ≡ true) × (q ≡ true)
and-both p q h = (ground arith, ground arith)

is_tenant_scope-eq : (s : Scope) → s ≡ tenant_scope → is_tenant_scope s ≡ true
is_tenant_scope-eq s e = ap is_tenant_scope e

-- A successful call adds one active conversation on the matter, with the tenant and client of the
-- matter, only for the setup of a matter's definition, with an active agent that has the key of
-- that workflow and, if it belongs to a tenant, to the matter's; the conversation is pinned to a
-- stored version of this agent that is published and has the number that the agent names.
pub create_conversation-Opens :
    (db : AgentTables) (matter : Matter) (agent : Agent) (workflow_type : String) (user id : ℕ)
    (after : AgentTables) (c : Conversation)
    → create_conversation db matter agent workflow_type user id ≡ ok (after, c)
    → Opens db matter agent workflow_type after c
unfolding create_conversation
create_conversation-Opens db matter agent workflow_type user id after c h =
    let (t, is_live, h1) = >>=-eq-ok (require agent.is_active no_published_version) _ h in
    let (n, named, h2) = >>=-eq-ok (some_or agent.published_version no_published_version) _ h1 in
    let (u, supported, h3) =
      >>=-eq-ok (require (supports_workflow agent workflow_type) not_compatible) _ h2 in
    let foreign = is_tenant_scope agent.scope && not (agent.owner_tenant_id == matter.tenant_id) in
    let (w, own, h4) = >>=-eq-ok (refuse foreign foreign_tenant) _ h3 in
    let (version, found, h5) =
      >>=-eq-ok (some_or (find_first (is_version_of agent n) db.versions) unpublished) _ h4 in
    let e = some_or-some (find_first (is_version_of agent n) db.versions) unpublished found in
    let holds : is_version_of agent n version ≡ true =
      find_first-holds (is_version_of agent n) db.versions e in
    let both : supports_workflow agent workflow_type ≡ true =
      required-true (supports_workflow agent workflow_type) not_compatible supported in
    let own_or_shared : foreign ≡ false = refused-false foreign foreign_tenant own in
    subst (λ (x : AgentTables × Conversation). Opens db matter agent workflow_type x.0 x.1)
      (ok-injective h5)
      (record {
        stored = refl;
        agent_active = required-true agent.is_active no_published_version is_live;
        supported = (
          (eq_iff workflow_type "MATTER_DEFINITION_SETUP").0
              (unfold supports_workflow in (and-both _ _ both).0),
          (eq_iff agent.key "matter_definition_setup").0
              (unfold supports_workflow in (and-both _ _ both).1),
        );
        own_tenant = λ tenant.
            let scoped = is_tenant_scope-eq agent.scope tenant in
            ==→≡ agent.owner_tenant_id matter.tenant_id (ground (arith, own_or_shared, scoped));
        of_matter = (refl, refl, refl);
        with_agent = (refl, refl, refl);
        version = version;
        pinned = refl;
        known = find_first-Memᴰ (is_version_of agent n) db.versions e;
        of_agent = ==→≡ version.agent_definition_id agent.id (ground (arith, holds));
        named =
            some_or-some agent.published_version no_published_version named
            ∙ ap some (sym (==→≡ version.version n (ground (arith, holds))));
        published = ground (arith, holds);
      })
