-- ===== src/Agents/Answered.antt =====
-- What a new turn and a decision write.
use prv_application.Prelude.{
  ==_refl, ==→≡, >>=-eq-ok, All, All-mono, Bool-cases, Ensures, Ensures-at, Ensures-bind, List,
  Memᴰ, Option, String, [], any_of, any_of-All, ap, arith, false, find_first, find_first-Memᴰ,
  find_first-holds, inl, inr, is_id, ltb, map, max, none, ok, ok-injective, refl, refuse, require,
  required-true, select, some, some_or, some_or-some, subst, suc, sym, true, ℕ, ◌++◌, ◌<◌, ◌==◌,
  ◌∙◌, ◌∷◌, ◌≡◌, ◌≢◌, ◌⊎◌,
}
use prv_application.Agents.{
  ActionRequest, ActionStatus, AgentRun, AgentTables, AgentVersion, Conversation,
  ConversationStatus, DecisionValue, Message, Turn, active, already_decided, approved, archived,
  completed, create_turn, errored, executed, failed, is_open, is_waiting, max_of, no_source_run,
  no_version, not_available, pending, pending_actions, queued, rejected, waiting_approval,
}
use prv_application.Agents.Deciding.{
  after_decision, decide_action, is_decision_on, is_pending, is_pending_of, resume_run, resumed_run,
  resumes, with_decision,
}

-- The number that follows those of the rows of a conversation: greater than all, and 1 or one more
-- than one of them.
pub record IsNext {A : Type 0} (conversation sequence : A → ℕ) (xs : List A) (c n : ℕ)
    : Type 0 where
  pub later : All (λ x. conversation x ≡ c → sequence x < n) xs
  pub follows : (n ≡ 1) ⊎ ((x : A) × Memᴰ x xs × (conversation x ≡ c) × (suc (sequence x) ≡ n))

module _ {A : Type 0} (conversation sequence : A → ℕ) (c : ℕ) where
  in_tail :
      (x : A) (xs : List A) (n : ℕ)
      → ((n ≡ 1) ⊎ ((y : A) × Memᴰ y xs × (conversation y ≡ c) × (suc (sequence y) ≡ n)))
      → (n ≡ 1) ⊎ ((y : A) × Memᴰ y (x ∷ xs) × (conversation y ≡ c) × (suc (sequence y) ≡ n))
  in_tail x xs n (inl e) = inl e
  in_tail x xs n (inr (y, m, f, g)) = inr (y, Memᴰ.tail m, f, g)

  max_of-IsNext :
      (xs : List A)
      → IsNext conversation sequence xs c
          (suc (max_of (map sequence (select (λ x. conversation x == c) xs))))
  unfolding max_of
  max_of-IsNext [] = record { later = tt; follows = inl refl }
  max_of-IsNext (x ∷ xs) =
      let rest = max_of-IsNext xs in
      let m = max_of (map sequence (select (λ y. conversation y == c) xs)) in
      elim (Bool-cases (conversation x == c)) [
        | inr e ↦ rw e (record {
          later = ((λ same. absurd (ground (arith, e, same))), rest.later);
          follows = in_tail x xs (suc m) rest.follows;
        })
        | inl e ↦ rw e (record {
          later = (
            (λ _. omega arith),
            All-mono (λ y. conversation y ≡ c → sequence y < suc m)
                (λ y. conversation y ≡ c → sequence y < suc (max (sequence x) m)) xs
                (λ y h same. omega (arith, h same)) rest.later,
          );
          follows = elim (Bool-cases (ltb (sequence x) m)) [
            | inl less ↦
                let top : max (sequence x) m ≡ m = ground (arith, less) in
                subst
                  (λ k.
                    (k ≡ 1)
                    ⊎ ((y : A) × Memᴰ y (x ∷ xs) × (conversation y ≡ c) × (suc (sequence y) ≡ k)))
                  (ap suc (sym top)) (in_tail x xs (suc m) rest.follows)
            | inr more ↦ inr (x, Memᴰ.head refl, ==→≡ (conversation x) c e, ground (arith, more))
          ];
        })
      ]

-- What `create_turn` adds: a turn and a message of the conversation with the next numbers, and a
-- first run of the turn by the pinned version of the agent, which is put in the queue.
pub record Continues (db : AgentTables) (c : Conversation) (text : String) (user : ℕ)
    (after : AgentTables) : Type 0 where
  pub turn : Turn
  pub message : Message
  pub run : AgentRun
  pub turns : after.turns ≡ db.turns ++ turn ∷ []
  pub messages : after.messages ≡ db.messages ++ message ∷ []
  pub runs : after.runs ≡ db.runs ++ run ∷ []
  pub enqueued : after.enqueued ≡ db.enqueued ++ run.id ∷ []
  pub of_conversation :
      (turn.conversation_id ≡ c.id)
      × (message.conversation_id ≡ c.id)
      × (run.conversation_id ≡ c.id)
  pub next_turn :
      IsNext
        (λ (t : Turn). t.conversation_id)
        (λ (t : Turn). t.sequence)
        db.turns
        c.id
        turn.sequence
  pub next_message :
      IsNext
        (λ (m : Message). m.conversation_id)
        (λ (m : Message). m.sequence)
        db.messages
        c.id
        message.sequence
  pub of_turn : (message.turn_id ≡ turn.id) × (run.turn_id ≡ turn.id) × (run.sequence ≡ 1)
  pub said : (message.content ≡ text) × (message.created_by_user_id ≡ user)
  pub waiting : (turn.status ≡ queued) × (run.status ≡ queued)
  pub by_user : (turn.created_by_user_id ≡ user) × (run.actor_user_id ≡ user)
  pub pinned : run.agent_definition_version_id ≡ c.agent_definition_version_id
  pub model :
      (v : AgentVersion) × Memᴰ v db.versions
      × (v.id ≡ c.agent_definition_version_id)
      × (run.model_key ≡ v.model_key)
  pub was_open : (c.status ≡ active) ⊎ (c.status ≡ completed)

-- A request of the deciding run is pending, and no run was added.
pub record Waits (db : AgentTables) (a : ActionRequest) (after : AgentTables) : Type 0 where
  pub request : ActionRequest
  pub stored : Memᴰ request after.actions
  pub of_run : request.agent_run_id ≡ a.agent_run_id
  pub undecided : request.status ≡ pending
  pub same_runs : (after.runs ≡ db.runs) × (after.enqueued ≡ db.enqueued)

-- The run is new: it goes on with the turn of the deciding run, as no run did before, and it is put
-- in the queue.
pub record Resumes (db : AgentTables) (a : ActionRequest) (user run_id : ℕ) (run : AgentRun)
    (after : AgentTables) : Type 0 where
  pub source : AgentRun
  pub known : Memᴰ source db.runs
  pub deciding : source.id ≡ a.agent_run_id
  pub same_turn :
      (run.conversation_id ≡ source.conversation_id)
      × (run.turn_id ≡ source.turn_id)
      × (run.sequence ≡ suc source.sequence)
  pub pinned :
      (run.agent_definition_version_id ≡ source.agent_definition_version_id)
      × (run.model_key ≡ source.model_key)
  pub new_row : (run.id ≡ run_id) × (run.actor_user_id ≡ user) × (run.status ≡ queued)
  pub added : (after.runs ≡ db.runs ++ run ∷ []) × (after.enqueued ≡ db.enqueued ++ run_id ∷ [])
  pub first : All (λ (r : AgentRun). r.deferred_from_run_id ≢ some a.agent_run_id) db.runs

-- No request of the deciding run is pending, and the run goes on from it: the run that was added
-- before, or a new one.
pub record GoesOn (db : AgentTables) (a : ActionRequest) (user run_id : ℕ) (run : AgentRun)
    (after : AgentTables) : Type 0 where
  pub none_pending :
      All
        (λ (b : ActionRequest). b.agent_run_id ≡ a.agent_run_id → b.status ≢ pending)
        after.actions
  pub from_run : run.deferred_from_run_id ≡ some a.agent_run_id
  pub row :
      (Memᴰ run db.runs × (after.runs ≡ db.runs) × (after.enqueued ≡ db.enqueued))
      ⊎ Resumes db a user run_id run after

abbrev pub Answers :
    AgentTables → ActionRequest → (user run_id : ℕ) → AgentTables × Option AgentRun → Type 0
Answers db a user run_id (after, none) = Waits db a after
Answers db a user run_id (after, some run) = GoesOn db a user run_id run after

is_open-cases : (s : ConversationStatus) → is_open s ≡ true → (s ≡ active) ⊎ (s ≡ completed)
is_open-cases active h = inl refl
is_open-cases completed h = inr refl
is_open-cases waiting_approval h = cc
is_open-cases failed h = cc
is_open-cases archived h = cc

pending-status : (s : ActionStatus) → is_pending s ≡ true → s ≡ pending
pending-status pending h = refl
pending-status approved h = cc
pending-status rejected h = cc
pending-status executed h = cc
pending-status errored h = cc

-- The conditions of the code, as what they say of the rows.
some_pending :
    (run : ℕ) (actions : List ActionRequest)
    → any_of (is_pending_of run) actions ≡ true
    → (b : ActionRequest) × Memᴰ b actions × (b.agent_run_id ≡ run) × (b.status ≡ pending)
some_pending run [] h = cc
some_pending run (b ∷ bs) h = elim (Bool-cases (is_pending_of run b)) [
  | inl e ↦ (
    b,
    Memᴰ.head refl,
    ==→≡ b.agent_run_id run (ground arith),
    pending-status b.status (ground arith),
  )
  | inr e ↦
      let (found, m, f, g) = some_pending run bs (ground (arith, e)) in (found, Memᴰ.tail m, f, g)
]

no_pending :
    (run : ℕ) (actions : List ActionRequest)
    → any_of (is_pending_of run) actions ≡ false
    → All (λ (b : ActionRequest). b.agent_run_id ≡ run → b.status ≢ pending) actions
no_pending run actions h =
    All-mono (λ (b : ActionRequest). is_pending_of run b ≡ false)
      (λ (b : ActionRequest). b.agent_run_id ≡ run → b.status ≢ pending) actions
      (λ b e same waits.
        let open_now : is_pending b.status ≡ true = ap is_pending waits in
        absurd (ground (arith, e, same, open_now)))
      (any_of-All (is_pending_of run) actions h)

resumes-from : (run : ℕ) (o : Option ℕ) → is_id o run ≡ true → o ≡ some run
resumes-from run none h = cc
resumes-from run (some i) h = ap some (==→≡ i run h)

no_resumed :
    (run : ℕ) (runs : List AgentRun)
    → find_first (resumes run) runs ≡ none
    → All (λ (r : AgentRun). r.deferred_from_run_id ≢ some run) runs
no_resumed run [] h = tt
no_resumed run (r ∷ rs) h = elim (Bool-cases (resumes run r)) [
  | inl e ↦ absurd (none≢some (rw e at h))
  | inr e ↦ (
    (λ same.
        let here : is_id r.deferred_from_run_id run ≡ true =
          ap (λ (o : Option ℕ). is_id o run) same ∙ ==_refl run in
        cc (e, here)),
    no_resumed run rs (rw e at h),
  )
]
  where
    none≢some : {A : Type 0} {x : A} → ◌≡◌ {A = Option A} (some x) none → ⊥
    none≢some h = cc

module _ (db : AgentTables) where
  -- A successful new turn was asked for in a conversation that is active or completed. It adds to
  -- the conversation one turn and one message with the next sequence numbers, the message with the
  -- user's text, and a first run of the turn by the conversation's pinned version of the agent;
  -- the run is put in the queue.
  pub create_turn-Continues :
      (c : Conversation) (text : String) (user turn_id message_id run_id now : ℕ)
      (after : AgentTables)
      → create_turn db c text user turn_id message_id run_id now ≡ ok after
      → Continues db c text user after
  unfolding create_turn
  create_turn-Continues c text user turn_id message_id run_id now after h =
      let (t, e, h1) = >>=-eq-ok (refuse (is_waiting c.status) pending_actions) _ h in
      let (u, open_now, h2) = >>=-eq-ok (require (is_open c.status) not_available) _ h1 in
      let is_version = λ (w : AgentVersion). w.id == c.agent_definition_version_id in
      let (version, f, h3) =
        >>=-eq-ok (some_or (find_first is_version db.versions) no_version) _ h2 in
      let there = some_or-some (find_first is_version db.versions) no_version f in
      subst (Continues db c text user) (ok-injective h3) (record {
        turn = _;
        message = _;
        run = _;
        turns = refl;
        messages = refl;
        runs = refl;
        enqueued = refl;
        of_conversation = (refl, refl, refl);
        next_turn =
            max_of-IsNext (λ (t : Turn). t.conversation_id) (λ (t : Turn). t.sequence) c.id
              db.turns;
        next_message =
            max_of-IsNext (λ (m : Message). m.conversation_id) (λ (m : Message). m.sequence) c.id
              db.messages;
        of_turn = (refl, refl, refl);
        said = (refl, refl);
        waiting = (refl, refl);
        by_user = (refl, refl);
        pinned = refl;
        model = (
          version,
          find_first-Memᴰ is_version db.versions there,
          ==→≡ version.id c.agent_definition_version_id
              (find_first-holds is_version db.versions there),
          refl,
        );
        was_open = is_open-cases c.status (required-true (is_open c.status) not_available open_now);
      })

  module _ (a : ActionRequest) (user run_id now : ℕ) where
    resume_run-Answers :
        (saved : AgentTables) (source : AgentRun) (o : Option AgentRun)
        → (saved.runs ≡ db.runs) × (saved.enqueued ≡ db.enqueued)
        → Memᴰ source db.runs
        → source.id ≡ a.agent_run_id
        → find_first (resumes source.id) saved.runs ≡ o
        → any_of (is_pending_of a.agent_run_id) saved.actions ≡ false
        → Answers db a user run_id (resume_run saved source o user run_id now)
    unfolding resume_run
    resume_run-Answers saved source none (runs, queue) known same absent done = record {
      none_pending = no_pending a.agent_run_id saved.actions done;
      from_run = ap some same;
      row = inr (record {
        source = source;
        known = known;
        deciding = same;
        same_turn = (refl, refl, refl);
        pinned = (refl, refl);
        new_row = (refl, refl, refl);
        added = (
          ap (λ (rs : List AgentRun). rs ++ resumed_run source user run_id now ∷ []) runs,
          ap (λ (is : List ℕ). is ++ run_id ∷ []) queue,
        );
        first =
            subst (λ (i : ℕ). All (λ (r : AgentRun). r.deferred_from_run_id ≢ some i) db.runs) same
              (subst
                (λ (rs : List AgentRun).
                  All (λ (r : AgentRun). r.deferred_from_run_id ≢ some source.id) rs)
                runs (no_resumed source.id saved.runs absent));
      });
    }
    resume_run-Answers saved source (some r) (runs, queue) known same there done = record {
      none_pending = no_pending a.agent_run_id saved.actions done;
      from_run =
          resumes-from source.id r.deferred_from_run_id
            (find_first-holds (resumes source.id) saved.runs there)
          ∙ ap some same;
      row =
          inl (
            subst (Memᴰ r) runs (find_first-Memᴰ (resumes source.id) saved.runs there),
            runs,
            queue,
          );
    }

    after_decision-Answers :
        (saved : AgentTables)
        → (saved.runs ≡ db.runs) × (saved.enqueued ≡ db.enqueued)
        → any_of (is_pending_of a.agent_run_id) saved.actions ≡ false
        → Ensures (Answers db a user run_id) (after_decision saved a user run_id now)
    unfolding after_decision
    after_decision-Answers saved (runs, queue) done =
        let is_source = λ (r : AgentRun). r.id == a.agent_run_id in
        Ensures-bind (Answers db a user run_id)
          (some_or (find_first is_source saved.runs) no_source_run) _
          λ source e.
            let there = some_or-some (find_first is_source saved.runs) no_source_run e in
            resume_run-Answers saved source (find_first (resumes source.id) saved.runs)
              (runs, queue) (subst (Memᴰ source) runs (find_first-Memᴰ is_source saved.runs there))
              (==→≡ source.id a.agent_run_id (find_first-holds is_source saved.runs there)) refl
              done

  -- A successful decision adds no run while a request of the same run is pending after it. When none
  -- is pending any more, it gives a run that goes on from the deciding run: the one that was added
  -- before, if there is one, with nothing changed in the runs and the queue, or else a new run of
  -- the same turn and agent version, which is stored and put in the queue.
  pub decide_action-Answers :
      (a : ActionRequest) (value : DecisionValue) (reason : Option String) (user run_id now : ℕ)
      (r : AgentTables × Option AgentRun)
      → decide_action db a value reason user run_id now ≡ ok r
      → Answers db a user run_id r
  unfolding decide_action
  decide_action-Answers a value reason user run_id now r h =
      Ensures-at (Answers db a user run_id) (decide_action db a value reason user run_id now) h (
        Ensures-bind (Answers db a user run_id) (require (is_pending a.status) already_decided) _
          λ t e.
            Ensures-bind (Answers db a user run_id)
              (refuse (any_of (is_decision_on a.id) db.decisions) already_decided) _
              λ u f.
                let saved = with_decision db a value reason user in
                elim (Bool-cases (any_of (is_pending_of a.agent_run_id) saved.actions)) [
                  | inl left ↦
                      let (request, m, of_run, waits) =
                        some_pending a.agent_run_id saved.actions left in
                      rw left (record {
                        request = request;
                        stored = m;
                        of_run = of_run;
                        undecided = waits;
                        same_runs = (refl, refl);
                      })
                  | inr done ↦
                      rw done (after_decision-Answers a user run_id now saved (refl, refl) done)
                ])
