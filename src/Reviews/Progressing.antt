-- ===== src/Reviews/Progressing.antt =====
-- What the progress of a run counts.
use prv_application.Metadata.Values.{Conversions}
use prv_application.Reviews.Recorded.{IsRecorded, document_id_of}
use prv_application.Reviews.Tracked.{batch_run-Memᴰ, batch_run-holds}
use prv_application.Reviews.Materialized.{document_of}
use prv_application.Reviews.{
  BatchDocument, DocumentStatus, ReviewBatch, ReviewRun, ReviewTables, RunDocument, in_progress,
  is_member_of, not_reviewer, reviewed, skipped,
}
use prv_application.Reviews.Runs.{
  admitted_matter, batch_run, closed_of, is_barred, is_closed, matter_batch, of_run,
}
use prv_application.Reviews.Coding.{
  Progress, get_review_batch_run_progress, is_in_progress, is_reviewed, is_row_in, is_skipped,
  progress_of, status_count,
}
use prv_application.Prelude.{
  >>=-eq-ok, All, All-at, All-map, All-mono, Bool, Bool-cases, List, Memᴰ, [], any_of, arith,
  distinct, elem, if◌then◌else◌, inl, inr, length, length-map, length-select-not, map, ok,
  ok-injective, refl, refuse, select, subst, sym, true, ℕ, ◌&&◌, ◌+◌, ◌==◌, ◌∙◌, ◌∷◌, ◌≡◌, ◌≤◌,
}

module _ (d : RunDocument) (a b c t : List RunDocument) where
  status_step :
      (s : DocumentStatus)
      → length a + length b + length c ≡ length t
      → length (if is_in_progress s then d ∷ a else a)
          + length (if is_reviewed s then d ∷ b else b)
          + length (if is_skipped s then d ∷ c else c)
        ≡ length (d ∷ t)
  status_step in_progress h = omega (arith, h)
  status_step reviewed h = omega (arith, h)
  status_step skipped h = omega (arith, h)

  closed_step :
      (s : DocumentStatus)
      → length b + length c ≡ length t
      → length (if is_reviewed s then d ∷ b else b) + length (if is_skipped s then d ∷ c else c)
        ≡ length (if is_closed s then d ∷ t else t)
  closed_step in_progress h = h
  closed_step reviewed h = omega (arith, h)
  closed_step skipped h = omega (arith, h)

abbrev with_status : (DocumentStatus → Bool) → ℕ → List RunDocument → List RunDocument
with_status p run_id = select (λ (d : RunDocument). (d.run_id == run_id) && p d.status)

status_split :
    (run_id : ℕ) (ds : List RunDocument)
    → status_count is_in_progress run_id ds
        + status_count is_reviewed run_id ds
        + status_count is_skipped run_id ds
      ≡ length (select (of_run run_id) ds)
status_split run_id [] = omega arith
status_split run_id (d ∷ ds) = elim (Bool-cases (d.run_id == run_id)) [
  | inl own ↦ rw own (
      status_step d (with_status is_in_progress run_id ds) (with_status is_reviewed run_id ds)
        (with_status is_skipped run_id ds) (select (of_run run_id) ds) d.status
        (status_split run_id ds))
  | inr other ↦ rw other (status_split run_id ds)
]

closed_split :
    (run_id : ℕ) (ds : List RunDocument)
    → status_count is_reviewed run_id ds + status_count is_skipped run_id ds
      ≡ length (select (closed_of run_id) ds)
closed_split run_id [] = omega arith
closed_split run_id (d ∷ ds) = elim (Bool-cases (d.run_id == run_id)) [
  | inl own ↦ rw own (
      closed_step d [] (with_status is_reviewed run_id ds) (with_status is_skipped run_id ds)
        (select (closed_of run_id) ds) d.status (closed_split run_id ds))
  | inr other ↦ rw other (closed_split run_id ds)
]

-- The counts of a run's progress, which add up without a remainder.
pub record AddsUp (r : ReviewRun) (p : Progress) : Type 0 where
  pub total :
      p.not_started_count + p.in_progress_count + p.completed_count + p.skipped_count
      ≡ p.document_count
  pub processed : r.processed_document_count ≡ p.completed_count + p.skipped_count

module _ (db : ReviewTables) (b : ReviewBatch) (v : IsRecorded db) where
  member_elem :
      (k : ℕ) (ms : List BatchDocument)
      → any_of (is_row_in b.id k) ms ≡ elem k (map document_of (select (is_member_of b.id) ms))
  member_elem k [] = refl
  member_elem k (m ∷ ms) = ground (arith, member_elem k ms)

  -- Distinct documents of the batch are at most as many as it has.
  rows_fit :
      (r : ReviewRun)
      → Memᴰ r db.runs
      → r.review_batch_id ≡ b.id
      → distinct (map document_of (select (is_member_of b.id) db.members)) ≡ true
      → length (select (of_run r.id) db.run_documents)
        ≤ length (select (is_member_of b.id) db.members)
  rows_fit r m same d =
      let ids = map document_id_of (select (of_run r.id) db.run_documents) in
      let members = select (is_member_of b.id) db.members in
      let known =
        All-at
          (λ (t : ReviewRun).
            All (λ e. any_of (is_row_in t.review_batch_id (document_id_of e)) db.members ≡ true)
              (select (of_run t.id) db.run_documents))
          db.runs m v.known in
      let each : All (λ i. elem i (map document_of members) ≡ true) ids =
        All-map (λ i. elem i (map document_of members) ≡ true) document_id_of
          (select (of_run r.id) db.run_documents)
          (All-mono (λ e. any_of (is_row_in r.review_batch_id (document_id_of e)) db.members ≡ true)
            (λ e. elem (document_id_of e) (map document_of members) ≡ true)
            (select (of_run r.id) db.run_documents)
            (λ e h. sym (member_elem (document_id_of e) db.members) ∙ (rw same at h)) known) in
      omega (
        arith,
        length-select-not document_of ids members d (v.one_row r.id) each,
        length-map document_id_of (select (of_run r.id) db.run_documents),
      )

  progress_of-AddsUp :
      (r : ReviewRun)
      → Memᴰ r db.runs
      → r.review_batch_id ≡ b.id
      → distinct (map document_of (select (is_member_of b.id) db.members)) ≡ true
      → b.document_count ≡ length (select (is_member_of b.id) db.members)
      → AddsUp r (progress_of b r db.run_documents)
  unfolding progress_of
  progress_of-AddsUp r m same d counted = record {
    total = omega (arith, status_split r.id db.run_documents, rows_fit r m same d, counted);
    processed =
        All-at
          (λ (t : ReviewRun).
            t.processed_document_count ≡ length (select (closed_of t.id) db.run_documents))
          db.runs m v.counted
        ∙ sym (closed_split r.id db.run_documents);
  }

-- For a run of a batch that counts its documents, each of which it has once, in tables where runs
-- count right: the documents that are not started, in progress, completed and skipped are together
-- as many as the batch has, and the run's count is that of the completed and the skipped.
pub get_review_batch_run_progress-AddsUp :
    (python : Conversions) (may_admin : ℕ → ℕ → Bool) (db : ReviewTables) (b : ReviewBatch)
    (r : ReviewRun) (user : ℕ) (p : Progress)
    → IsRecorded db
    → matter_batch db b.matter_id b.id ≡ ok b
    → batch_run db b.id r.id ≡ ok r
    → distinct (map document_of (select (is_member_of b.id) db.members)) ≡ true
    → b.document_count ≡ length (select (is_member_of b.id) db.members)
    → get_review_batch_run_progress python may_admin db b.matter_id b.id r.id user ≡ ok p
    → AddsUp r p
unfolding get_review_batch_run_progress
get_review_batch_run_progress-AddsUp python may_admin db b r user p v found_batch found_run d
      counted h =
    let (matter, e1, h1) = >>=-eq-ok (admitted_matter may_admin db user b.matter_id) _ h in
    let (u, e2, h2) =
      >>=-eq-ok (refuse (is_barred r user) not_reviewer)
        (λ u. ok (progress_of b r db.run_documents)) (rw found_run at (rw found_batch at h1)) in
    subst (AddsUp r) (ok-injective h2) (
      progress_of-AddsUp db b v r (batch_run-Memᴰ db b.id r.id found_run)
        (batch_run-holds db b.id r.id found_run).1 d counted)
