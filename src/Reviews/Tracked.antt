-- ===== src/Reviews/Tracked.antt =====
-- Sequences of calls on the runs of review batches, what they keep, and the progress that they
-- show.
use prv_application.Metadata.Values.{Conversions}
use prv_application.Reviews.{
  ReviewBatch, ReviewRun, ReviewTables, completed, no_run, not_actor, not_assigned, not_member,
  not_ready, not_reviewer, not_running, other_document, put_batch, put_run, reviewed, skipped,
}
use prv_application.Reviews.Runs.{
  RunRequest, admitted_matter, assigned_batch, batch_run, checked_parent, checked_version,
  closed_of, create_review_batch_run, is_barred, is_human, is_ready, is_running, matter_batch,
  new_run, none_or, of_run, resumed_or_new, start_or_resume_review_batch_run,
}
use prv_application.Reviews.Coding.{
  FieldValues, complete_review_batch_run, is_row_in, refresh_run_document_count, refreshed,
  replace_fields, replace_review_batch_run_values, skip_review_batch_document,
}
use prv_application.Reviews.Recorded.{
  All-put_run, IsRecorded, document_id_of, record_document-IsRecorded,
}
use prv_application.Prelude.{
  All, All-append, All-at, All-mono, Bool, Ensures, Ensures-at, Ensures-bind, List, Memᴰ, Option,
  [], any_of, any_of-All, ap, arith, false, find_first, find_first-Memᴰ, find_first-holds, if_holds,
  length, none, not, ok, refl, refuse, require, required-true, select, select_none, some, some_or,
  some_or-some, subst, sym, true, ℕ, ◌&&◌, ◌++◌, ◌==◌, ◌∙◌, ◌∷◌, ◌≡◌,
}

module _ (db : ReviewTables) (v : IsRecorded db) where
  -- A run whose id no row has.
  added-IsRecorded :
      (r : ReviewRun)
      → any_of (of_run r.id) db.run_documents ≡ false
      → r.processed_document_count ≡ 0
      → IsRecorded (record db { runs = db.runs ++ r ∷ [] })
  added-IsRecorded r fresh zero_count =
      let absent = any_of-All (of_run r.id) db.run_documents fresh in
      let no_rows = select_none (of_run r.id) db.run_documents absent in
      let none_closed = select_none (closed_of r.id) db.run_documents (
        All-mono (λ d. of_run r.id d ≡ false) (λ d. closed_of r.id d ≡ false) db.run_documents
          (λ d h. ground arith) absent) in
      record {
        counted =
            All-append _ db.runs (r ∷ []) v.counted (zero_count ∙ ap length (sym none_closed), tt);
        one_row = v.one_row;
        known = All-append _ db.runs (r ∷ []) v.known (
          subst
              (All (λ d. any_of (is_row_in r.review_batch_id (document_id_of d)) db.members ≡ true))
              (sym no_rows) tt,
          tt,
        );
      }

  -- A run whose row is changed, but not its batch.
  changed-IsRecorded :
      (r s : ReviewRun)
      → Memᴰ r db.runs
      → s.id ≡ r.id
      → s.review_batch_id ≡ r.review_batch_id
      → s.processed_document_count ≡ length (select (closed_of r.id) db.run_documents)
      → IsRecorded (record db { runs = put_run s db.runs })
  changed-IsRecorded r s m same_id same_batch kept = record {
    counted =
        All-put_run _ _ s db.runs (λ t n e. e)
          (subst
            (λ (i : ℕ). s.processed_document_count ≡ length (select (closed_of i) db.run_documents))
            (sym same_id) kept)
          v.counted;
    one_row = v.one_row;
    known =
        All-put_run _ _ s db.runs (λ t n e. e)
          (rw (same_id, same_batch)
            (All-at
              (λ (t : ReviewRun).
                All (λ d. any_of (is_row_in t.review_batch_id (document_id_of d)) db.members ≡ true)
                  (select (of_run t.id) db.run_documents))
              db.runs m v.known))
          v.known;
  }

module _ (db : ReviewTables) (batch_id run_id : ℕ) {r : ReviewRun}
    (h : batch_run db batch_id run_id ≡ ok r) where
  abbrev is_sought : ReviewRun → Bool
  is_sought s = (s.id == run_id) && (s.review_batch_id == batch_id)

  pub batch_run-Memᴰ : Memᴰ r db.runs
  unfolding batch_run
  batch_run-Memᴰ = find_first-Memᴰ is_sought db.runs (some_or-some _ _ h)

  pub batch_run-holds : (r.id ≡ run_id) × (r.review_batch_id ≡ batch_id)
  unfolding batch_run
  batch_run-holds =
      let found = find_first-holds is_sought db.runs (some_or-some _ _ h) in
      (ground (arith, found), ground (arith, found))

module _ (python : Conversions) (may_admin : ℕ → ℕ → Bool) where
  -- One successful call; the id of a new run is no row's.
  pub data RunStep (db after : ReviewTables) : Type 0 where
    created :
        (matter_id batch_id : ℕ) (q : RunRequest) (user run_id now : ℕ) (r : ReviewRun)
        → any_of (of_run run_id) db.run_documents ≡ false
        → create_review_batch_run may_admin db matter_id batch_id q user run_id now ≡ ok (after, r)
        → RunStep db after
    started :
        (matter_id batch_id user run_id now : ℕ) (r : ReviewRun)
        → any_of (of_run run_id) db.run_documents ≡ false
        → start_or_resume_review_batch_run may_admin db matter_id batch_id user run_id now
          ≡ ok (after, r)
        → RunStep db after
    coded :
        (matter_id batch_id run_id document_id body_document_id : ℕ) (fields : List FieldValues)
        (user now : ℕ)
        → replace_review_batch_run_values python may_admin db matter_id batch_id run_id document_id
            body_document_id fields user now
          ≡ ok after
        → RunStep db after
    passed :
        (matter_id batch_id run_id document_id user now : ℕ)
        → skip_review_batch_document python may_admin db matter_id batch_id run_id document_id user
            now
          ≡ ok after
        → RunStep db after
    closed :
        (matter_id batch_id run_id user now : ℕ) (r : ReviewRun)
        → complete_review_batch_run python may_admin db matter_id batch_id run_id user now
          ≡ ok (after, r)
        → RunStep db after
    recounted :
        (run_id n : ℕ) → refresh_run_document_count db run_id ≡ ok (after, n) → RunStep db after

  pub data RunTrace (db : ReviewTables) : ReviewTables → Type 0 where
    here : RunTrace db db
    next :
        {middle after : ReviewTables}
        → RunTrace db middle
        → RunStep middle after
        → RunTrace db after

  abbrev Keeps : {A : Type 0} → ReviewTables × A → Type 0
  Keeps (after, a) = IsRecorded after

  resumed_or_new-IsRecorded :
      (db : ReviewTables) (b : ReviewBatch) (user run_id now : ℕ) (current last : Option ReviewRun)
      → any_of (of_run run_id) db.run_documents ≡ false
      → IsRecorded db
      → IsRecorded (resumed_or_new db b user run_id now current last).0
  unfolding resumed_or_new new_run
  resumed_or_new-IsRecorded db b user run_id now (some r) last fresh v = v
  resumed_or_new-IsRecorded db b user run_id now none (some r) fresh v = v
  resumed_or_new-IsRecorded db b user run_id now none none fresh v =
      added-IsRecorded db v _ fresh refl

  create-IsRecorded :
      (db : ReviewTables) (matter_id batch_id : ℕ) (q : RunRequest) (user run_id now : ℕ)
      → any_of (of_run run_id) db.run_documents ≡ false
      → IsRecorded db
      → Ensures Keeps (create_review_batch_run may_admin db matter_id batch_id q user run_id now)
  unfolding create_review_batch_run new_run
  create-IsRecorded db matter_id batch_id q user run_id now fresh v =
      Ensures-bind Keeps (admitted_matter may_admin db user matter_id) _ λ matter e1.
        Ensures-bind Keeps (matter_batch db matter_id batch_id) _ λ b e2.
          Ensures-bind Keeps (require (is_ready b.status) not_ready) _ λ u3 e3.
            Ensures-bind Keeps
              (refuse (is_human q.run_type && not (none_or b.assigned_user_id user)) not_assigned) _
              λ u4 e4.
                Ensures-bind Keeps (require (none_or q.actor_user_id user) not_actor) _ λ u5 e5.
                  Ensures-bind Keeps (checked_version db matter q.run_type q.agent_version_id) _
                    λ u6 e6.
                      Ensures-bind Keeps (checked_parent db b.id q.parent_run_id) _
                        λ u7 e7. added-IsRecorded db v _ fresh refl

  start-IsRecorded :
      (db : ReviewTables) (matter_id batch_id user run_id now : ℕ)
      → any_of (of_run run_id) db.run_documents ≡ false
      → IsRecorded db
      → Ensures Keeps
          (start_or_resume_review_batch_run may_admin db matter_id batch_id user run_id now)
  unfolding start_or_resume_review_batch_run
  start-IsRecorded db matter_id batch_id user run_id now fresh v =
      Ensures-bind Keeps (admitted_matter may_admin db user matter_id) _ λ matter e1.
        Ensures-bind Keeps (matter_batch db matter_id batch_id) _ λ b e2.
          Ensures-bind Keeps (require (is_ready b.status) not_ready) _ λ u3 e3.
            Ensures-bind Keeps (require (none_or b.assigned_user_id user) not_assigned) _ λ u4 e4.
              resumed_or_new-IsRecorded
                (record db {
                  batches = put_batch (assigned_batch b user b.assigned_user_id) db.batches;
                })
                b user run_id now _ _ fresh
                (record { counted = v.counted; one_row = v.one_row; known = v.known })

  replace-IsRecorded :
      (db : ReviewTables) (matter_id batch_id run_id document_id body_document_id : ℕ)
      (fields : List FieldValues) (user now : ℕ)
      → IsRecorded db
      → Ensures IsRecorded (
          replace_review_batch_run_values python may_admin db matter_id batch_id run_id document_id
            body_document_id fields user now)
  unfolding replace_review_batch_run_values
  replace-IsRecorded db matter_id batch_id run_id document_id body_document_id fields user now v =
      Ensures-bind IsRecorded (admitted_matter may_admin db user matter_id) _ λ matter e1.
        Ensures-bind IsRecorded (matter_batch db matter_id batch_id) _ λ b e2.
          Ensures-bind IsRecorded (batch_run db b.id run_id) _ λ r e3.
            Ensures-bind IsRecorded (require (is_running r.status) not_running) _ λ u4 e4.
              Ensures-bind IsRecorded (refuse (is_barred r user) not_reviewer) _ λ u5 e5.
                Ensures-bind IsRecorded (require (body_document_id == document_id) other_document) _
                  λ u6 e6.
                    Ensures-bind IsRecorded
                      (require (any_of (is_row_in b.id document_id) db.members) not_member) _
                      λ u7 e7.
                        Ensures-bind IsRecorded
                          (replace_fields python may_admin db matter_id b.id r.id document_id fields
                            db.values)
                          _
                          λ values e8.
                            record_document-IsRecorded (record db { values = values }) b r
                              document_id reviewed now (batch_run-Memᴰ db b.id run_id e3)
                              (batch_run-holds db b.id run_id e3).1 (required-true _ _ e7)
                              (record { counted = v.counted; one_row = v.one_row; known = v.known })

  skip-IsRecorded :
      (db : ReviewTables) (matter_id batch_id run_id document_id user now : ℕ)
      → IsRecorded db
      → Ensures IsRecorded (
          skip_review_batch_document python may_admin db matter_id batch_id run_id document_id user
            now)
  unfolding skip_review_batch_document
  skip-IsRecorded db matter_id batch_id run_id document_id user now v =
      Ensures-bind IsRecorded (admitted_matter may_admin db user matter_id) _ λ matter e1.
        Ensures-bind IsRecorded (matter_batch db matter_id batch_id) _ λ b e2.
          Ensures-bind IsRecorded (batch_run db b.id run_id) _ λ r e3.
            Ensures-bind IsRecorded (require (is_running r.status) not_running) _ λ u4 e4.
              Ensures-bind IsRecorded (refuse (is_barred r user) not_reviewer) _ λ u5 e5.
                Ensures-bind IsRecorded
                  (require (any_of (is_row_in b.id document_id) db.members) not_member) _
                  λ u6 e6.
                    record_document-IsRecorded db b r document_id skipped now
                      (batch_run-Memᴰ db b.id run_id e3) (batch_run-holds db b.id run_id e3).1
                      (required-true _ _ e6) v

  complete-IsRecorded :
      (db : ReviewTables) (matter_id batch_id run_id user now : ℕ)
      → IsRecorded db
      → Ensures Keeps
          (complete_review_batch_run python may_admin db matter_id batch_id run_id user now)
  unfolding complete_review_batch_run
  complete-IsRecorded db matter_id batch_id run_id user now v =
      Ensures-bind Keeps (admitted_matter may_admin db user matter_id) _ λ matter e1.
        Ensures-bind Keeps (matter_batch db matter_id batch_id) _ λ b e2.
          Ensures-bind Keeps (batch_run db b.id run_id) _ λ r e3.
            Ensures-bind Keeps (refuse (is_barred r user) not_reviewer) _ λ u4 e4.
              let m = batch_run-Memᴰ db b.id run_id e3 in
              if_holds Keeps (is_running r.status) _ _
                (changed-IsRecorded db v r
                  (record r { status = completed; completed_at = some now }) m refl refl
                  (All-at
                    (λ (t : ReviewRun).
                      t.processed_document_count
                      ≡ length (select (closed_of t.id) db.run_documents))
                    db.runs m v.counted))
                v

  refresh-IsRecorded :
      (db : ReviewTables) (run_id : ℕ)
      → IsRecorded db
      → Ensures Keeps (refresh_run_document_count db run_id)
  unfolding refresh_run_document_count refreshed
  refresh-IsRecorded db run_id v =
      Ensures-bind Keeps (some_or (find_first (λ (r : ReviewRun). r.id == run_id) db.runs) no_run) _
        λ r e.
          changed-IsRecorded db v r (refreshed db.run_documents r)
            (find_first-Memᴰ (λ (r : ReviewRun). r.id == run_id) db.runs (some_or-some _ _ e)) refl
            refl refl

  RunStep-IsRecorded :
      (db after : ReviewTables) → RunStep db after → IsRecorded db → IsRecorded after
  RunStep-IsRecorded db after (created m b q u i n r f h) v =
      Ensures-at Keeps _ h (create-IsRecorded db m b q u i n f v)
  RunStep-IsRecorded db after (started m b u i n r f h) v =
      Ensures-at Keeps _ h (start-IsRecorded db m b u i n f v)
  RunStep-IsRecorded db after (coded m b i d e fs u n h) v =
      Ensures-at IsRecorded _ h (replace-IsRecorded db m b i d e fs u n v)
  RunStep-IsRecorded db after (passed m b i d u n h) v =
      Ensures-at IsRecorded _ h (skip-IsRecorded db m b i d u n v)
  RunStep-IsRecorded db after (closed m b i u n r h) v =
      Ensures-at Keeps _ h (complete-IsRecorded db m b i u n v)
  RunStep-IsRecorded db after (recounted i n h) v = Ensures-at Keeps _ h (refresh-IsRecorded db i v)

  -- Whatever calls on runs succeed in whatever order: if at first every run counts its processed
  -- documents, has at most one row for each document and rows only for documents of its batch, then
  -- so it is after them.
  pub RunTrace-IsRecorded :
      (db after : ReviewTables) → RunTrace db after → IsRecorded db → IsRecorded after
  RunTrace-IsRecorded db after here v = v
  RunTrace-IsRecorded db after (next r s) v =
      RunStep-IsRecorded _ after s (RunTrace-IsRecorded db _ r v)
