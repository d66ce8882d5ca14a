-- ===== src/Reviews/Runs.antt =====
-- The calls of app/routers/review_batches.py on the runs of a review batch, with
-- refresh_run_document_count of app/review_batches.py.
use prv_application.Agents.{AgentVersion}
use prv_application.Agents.Opening.{Agent, Scope, system_scope, tenant_scope}
use prv_application.Reviews.{
  BatchStatus, DocumentStatus, MatterRow, Purpose, ReviewBatch, ReviewError, ReviewRun,
  ReviewTables, RunDocument, RunStatus, RunType, agent_run, completed, forbidden, human_run,
  in_progress, no_batch, no_matter, no_run, no_version, not_actor, not_assigned, not_ready,
  put_batch, ready, review, running,
}
use prv_application.Prelude.{
  Bool, List, Option, Result, [], any_of, false, find_first, if◌then◌else◌, is_id, ltb, max_by,
  none, not, ok, refuse, require, select, some, some_or, true, ℕ, ◌&&◌, ◌++◌, ◌==◌, ◌>>=◌, ◌>>◌,
  ◌||◌, ◌∷◌,
}

abbrev pub is_ready : BatchStatus → Bool
is_ready ready = true
is_ready _ = false

abbrev pub is_running : RunStatus → Bool
is_running running = true
is_running _ = false

abbrev pub is_completed : RunStatus → Bool
is_completed completed = true
is_completed _ = false

abbrev pub is_human : RunType → Bool
is_human human_run = true
is_human agent_run = false

abbrev pub is_review : Purpose → Bool
is_review review = true
is_review _ = false

-- `status in ["COMPLETED", "SKIPPED"]`
abbrev pub is_closed : DocumentStatus → Bool
is_closed in_progress = false
is_closed _ = true

-- `user in {None, other}`
abbrev pub none_or : Option ℕ → ℕ → Bool
none_or none user = true
none_or (some other) user = other == user

abbrev pub of_run : ℕ → RunDocument → Bool
of_run run_id d = d.run_id == run_id

abbrev pub closed_of : ℕ → RunDocument → Bool
closed_of run_id d = (d.run_id == run_id) && is_closed d.status

-- `_matter`: `may_admin` tells whether the user may administer the matter.
unfoldable pub admitted_matter :
    (may_admin : ℕ → ℕ → Bool) → ReviewTables → (user matter_id : ℕ) → Result ReviewError MatterRow
admitted_matter may_admin db user matter_id = do
  matter ← some_or (find_first (λ (m : MatterRow). m.id == matter_id) db.matters) no_matter
  require (may_admin user matter_id) forbidden
  ok matter

-- `_batch`
unfoldable pub matter_batch :
    ReviewTables → (matter_id batch_id : ℕ) → Result ReviewError ReviewBatch
matter_batch db matter_id batch_id =
    some_or
      (find_first (λ (b : ReviewBatch). (b.id == batch_id) && (b.matter_id == matter_id))
        db.batches)
      no_batch

-- `_run`
unfoldable pub batch_run : ReviewTables → (batch_id run_id : ℕ) → Result ReviewError ReviewRun
batch_run db batch_id run_id =
    some_or
      (find_first (λ (r : ReviewRun). (r.id == run_id) && (r.review_batch_id == batch_id)) db.runs)
      no_run

-- `_require_human_reviewer`
abbrev pub is_barred : ReviewRun → ℕ → Bool
is_barred r user = is_human r.run_type && not (is_id r.actor_user_id user)

abbrev pub is_system_scope : Scope → Bool
is_system_scope system_scope = true
is_system_scope tenant_scope = false

-- An available published version of an active agent of the tenant or of the system.
abbrev pub is_available : ReviewTables → MatterRow → AgentVersion → Bool
is_available db matter v =
    v.is_published
    && any_of
        (λ (a : Agent).
          (a.id == v.agent_definition_id)
          && a.is_active
          && ((a.owner_tenant_id == matter.tenant_id) || is_system_scope a.scope))
        db.agents

-- The parent of a new run must be a run of the batch.
unfoldable pub checked_parent : ReviewTables → ℕ → Option ℕ → Result ReviewError (Unit {0})
unfolding batch_run
checked_parent db batch_id none = ok tt
checked_parent db batch_id (some parent) = do r ← batch_run db batch_id parent; ok tt

unfoldable pub checked_version :
    ReviewTables → MatterRow → RunType → Option ℕ → Result ReviewError (Unit {0})
checked_version db matter human_run version_id = ok tt
checked_version db matter agent_run version_id =
    require
      (any_of (λ (v : AgentVersion). is_id version_id v.id && is_available db matter v) db.versions)
      no_version

-- ReviewBatchRunCreate
pub record RunRequest : Type 0 where
  pub run_type : RunType
  pub purpose : Purpose
  pub actor_user_id : Option ℕ
  pub agent_version_id : Option ℕ
  pub parent_run_id : Option ℕ

-- `ORDER BY created_at DESC LIMIT 1`
abbrev pub latest_run : List ReviewRun → Option ReviewRun
latest_run [] = none
latest_run (r ∷ rs) = some (max_by (λ (a b : ReviewRun). ltb a.created_at b.created_at) r rs)

-- The order of `completed_at`, in which PostgreSQL has NULL after every time.
abbrev completed_before : Option ℕ → Option ℕ → Bool
completed_before none _ = false
completed_before (some s) none = true
completed_before (some s) (some t) = ltb s t

-- `ORDER BY completed_at DESC LIMIT 1`, which gives NULL first.
abbrev pub last_completed : List ReviewRun → Option ReviewRun
last_completed [] = none
last_completed (r ∷ rs) =
    some (max_by (λ (a b : ReviewRun). completed_before a.completed_at b.completed_at) r rs)

abbrev pub review_of : ℕ → ℕ → ReviewRun → Bool
review_of batch_id user r =
    (r.review_batch_id == batch_id)
    && is_human r.run_type
    && is_review r.purpose
    && is_id r.actor_user_id user

unfoldable pub new_run : ReviewBatch → RunRequest → Option ℕ → (run_id now : ℕ) → ReviewRun
new_run b q actor run_id now = record {
  id = run_id;
  review_batch_id = b.id;
  run_type = q.run_type;
  purpose = q.purpose;
  status = running;
  parent_run_id = q.parent_run_id;
  actor_user_id = actor;
  agent_version_id = q.agent_version_id;
  processed_document_count = 0;
  created_at = now;
  completed_at = none;
}

abbrev pub review_request : RunRequest
review_request = record {
  run_type = human_run;
  purpose = review;
  actor_user_id = none;
  agent_version_id = none;
  parent_run_id = none;
}

unfoldable pub assigned_batch : ReviewBatch → ℕ → Option ℕ → ReviewBatch
assigned_batch b user none = record b { assigned_user_id = some user }
assigned_batch b user (some other) = b

-- The run that is resumed, the completed one that is shown, or a new one.
unfoldable pub resumed_or_new :
    ReviewTables
    → ReviewBatch
    → (user run_id now : ℕ) → Option ReviewRun
    → Option ReviewRun
    → ReviewTables × ReviewRun
unfolding new_run
resumed_or_new db b user run_id now (some r) finished = (db, r)
resumed_or_new db b user run_id now none (some r) = (db, r)
resumed_or_new db b user run_id now none none =
    let r = new_run b review_request (some user) run_id now in
    (record db { runs = db.runs ++ r ∷ [] }, r)

module _ (may_admin : ℕ → ℕ → Bool) where
  unfoldable pub create_review_batch_run :
      ReviewTables
      → (matter_id batch_id : ℕ) → RunRequest
      → (user run_id now : ℕ) → Result ReviewError (ReviewTables × ReviewRun)
  unfolding admitted_matter matter_batch checked_version checked_parent new_run
  create_review_batch_run db matter_id batch_id q user run_id now = do
    matter ← admitted_matter may_admin db user matter_id
    b ← matter_batch db matter_id batch_id
    require (is_ready b.status) not_ready
    refuse (is_human q.run_type && not (none_or b.assigned_user_id user)) not_assigned
    require (none_or q.actor_user_id user) not_actor
    checked_version db matter q.run_type q.agent_version_id
    checked_parent db b.id q.parent_run_id
    let r = new_run b q (if is_human q.run_type then some user else none) run_id now
    ok (record db { runs = db.runs ++ r ∷ [] }, r)

  unfoldable pub start_or_resume_review_batch_run :
      ReviewTables
      → (matter_id batch_id : ℕ) → (user run_id now : ℕ)
      → Result ReviewError (ReviewTables × ReviewRun)
  unfolding admitted_matter matter_batch assigned_batch put_batch resumed_or_new max_by
  start_or_resume_review_batch_run db matter_id batch_id user run_id now = do
    matter ← admitted_matter may_admin db user matter_id
    b ← matter_batch db matter_id batch_id
    require (is_ready b.status) not_ready
    require (none_or b.assigned_user_id user) not_assigned
    let mine = select (review_of b.id user) db.runs
    ok (
        resumed_or_new
          (record db { batches = put_batch (assigned_batch b user b.assigned_user_id) db.batches })
          b user run_id now (latest_run (select (λ (r : ReviewRun). is_running r.status) mine))
          (last_completed (select (λ (r : ReviewRun). is_completed r.status) mine)))
