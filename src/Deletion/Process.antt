-- ===== src/Deletion/Process.antt =====
-- The workflow collection_deletion of app/workflows/collection_deletion.py, step by step, with its
-- except branch, and how it refines the calls in any order.
use prv_application.Imports.{ImportTables}
use prv_application.Deletion.{
  DeletionBlob, DeletionError, DeletionJob, Tables, blobs_remain, completed, failed, get_job,
  job_not_found, required, required-ok,
}
use prv_application.Deletion.Jobs.{
  complete_deletion, fail_deletion, fail_job, is_pending_of, prepare_deletion,
}
use prv_application.Deletion.Rows.{delete_collection_record, delete_item_batch}
use prv_application.Deletion.Blobs.{BlobBatch, Storage, delete_blob_batch}
use prv_application.Deletion.Workflow.{blob_batch_size, database_batch_size}
use prv_application.Deletion.Validating.{checked_blockers, mark_validating, validate, validated}
use prv_application.Deletion.Reachable.{
  Run, Step, completes, deletes_blobs, deletes_items, deletes_record, fails, prepares, step, stop,
  validates,
}
use prv_application.Deletion.Failing.{fail_deletion-Fails}
use prv_application.Deletion.Valid.{found_job}
use prv_application.Deletion.Stable.{find_first-put_job}
use prv_application.Prelude.{
  >>=-eq-ok, Bool, List, Option, Option-cases, Result, String, [], any_of, ap, arith, err, false,
  if_holds, if◌then◌else◌, inl, inr, none, not, ok, ok-injective, refl, refuse, select, some,
  some-injective, subst, suc, sym, zero, ℕ, ◌==◌, ◌∙◌, ◌∷◌, ◌≡◌,
}

-- The step that comes next; the workflow has returned or raised in the last two.
pub data Stage : Type 0 where
  to_validate to_prepare to_delete_items to_delete_record to_delete_blobs to_complete : Stage
  finished raised : Stage

pub record Process : Type 0 where
  pub tables : Tables
  pub objects : Storage
  pub stage : Stage

module _ (new_id : ℕ → ℕ) (refuses : String → String → Bool) (message : DeletionError → List ℕ)
    (app : ImportTables) (job_id now : ℕ) where
  -- The except branch: `fail(job_id, str(exc))`, and the exception is raised again.
  unfoldable pub failed_process : Tables → Storage → DeletionError → Process
  unfolding fail_deletion
  failed_process db objects e = record {
    tables = (fail_deletion db job_id (message e) now).0;
    objects = objects;
    stage = raised;
  }

  unfoldable pub proceed {ℓ} :
      {A : Type ℓ} → Tables → Storage → Result DeletionError (Tables × A) → (A → Stage) → Process
  unfolding failed_process
  proceed db objects (err e) next = failed_process db objects e
  proceed db objects (ok (after, a)) next = record {
    tables = after;
    objects = objects;
    stage = next a;
  }

  unfoldable pub after_validation : Storage → Tables × Result DeletionError (Unit {0}) → Process
  unfolding failed_process
  after_validation objects (db, err e) = failed_process db objects e
  after_validation objects (db, ok u) = record {
    tables = db;
    objects = objects;
    stage = to_prepare;
  }

  unfoldable pub after_blob_batch :
      Tables → Storage × Result DeletionError (Tables × BlobBatch) → Process
  unfolding proceed
  after_blob_batch db (objects, r) =
      proceed db objects r (λ b. if b.has_more then to_delete_blobs else to_complete)

  unfoldable pub advance_at : Stage → Tables → Storage → Process
  unfolding proceed after_validation validate prepare_deletion delete_item_batch
      delete_collection_record delete_blob_batch complete_deletion after_blob_batch
  advance_at to_validate db objects = after_validation objects (validate app db job_id)
  advance_at to_prepare db objects =
      proceed db objects (prepare_deletion db job_id now) (λ j. to_delete_items)
  advance_at to_delete_items db objects =
      proceed db objects (delete_item_batch new_id db job_id database_batch_size)
        (λ b. if b.has_more then to_delete_items else to_delete_record)
  advance_at to_delete_record db objects =
      proceed db objects (delete_collection_record new_id db job_id) (λ n. to_delete_blobs)
  advance_at to_delete_blobs db objects =
      after_blob_batch db (delete_blob_batch refuses db objects job_id blob_batch_size)
  advance_at to_complete db objects =
      proceed db objects (complete_deletion db job_id now) (λ j. finished)
  advance_at finished db objects = record { tables = db; objects = objects; stage = finished }
  advance_at raised db objects = record { tables = db; objects = objects; stage = raised }

  -- The process after so many steps.
  unfoldable pub advance : ℕ → Process → Process
  unfolding advance_at
  advance zero p = p
  advance (suc n) p = advance n (advance_at p.stage p.tables p.objects)

  -- What the end of a workflow means: it has returned with the job completed and no scheduled row
  -- of it left, or it has raised, and the job, if it is stored, is failed.
  abbrev pub Ending : Stage → Tables → Type 0
  Ending finished db =
      (j : DeletionJob) × (get_job db job_id ≡ some j)
      × (j.status ≡ completed)
      × (any_of (λ (b : DeletionBlob). b.deletion_job_id == job_id) db.deletion_blobs ≡ false)
  Ending raised db = (j : DeletionJob) → get_job db job_id ≡ some j → j.status ≡ failed
  Ending _ db = Unit

  -- Calls in the order of the workflow, and its end.
  pub record Refines (db : Tables) (p : Process) : Type 0 where
    pub calls : Run new_id refuses db p.tables
    pub ending : Ending p.stage p.tables

  Run-append :
      (a b c : Tables) → Run new_id refuses a b → Run new_id refuses b c → Run new_id refuses a c
  Run-append a _ c (stop _) s = s
  Run-append a _ c (step _ m b t r) s = step a m c t (Run-append m b c r s)

  once : (db after : Tables) → Step new_id refuses db after → Run new_id refuses db after
  once db after s = step db after after s (stop after)

  fail_deletion-status :
      (db : Tables) (e : DeletionError) (j : DeletionJob)
      → get_job (fail_deletion db job_id (message e) now).0 job_id ≡ some j
      → j.status ≡ failed
  fail_deletion-status db e j h = elim (Option-cases (get_job db job_id)) [
    | inl absent ↦
        let same : get_job (fail_deletion db job_id (message e) now).0 job_id ≡ get_job db job_id =
          (unfold fail_deletion in
            unfold fail_job in
            ap (λ (o : Option DeletionJob). get_job (fail_job db o (message e) now).0 job_id)
              absent) in
        absurd (none≢some (sym absent ∙ sym same ∙ h))
    | inr (k, there) ↦
        subst
          (λ (i : ℕ).
            get_job db i ≡ some k
            → get_job (fail_deletion db i (message e) now).0 i ≡ some j
            → j.status ≡ failed)
          (found_job db job_id there)
          (λ stored found.
            let (f, written, failure) = (fail_deletion-Fails db k (message e) now stored).job in
            ap (λ (x : DeletionJob). x.status) (some-injective _ _ (sym found ∙ written))
            ∙ failure.status)
          there h
  ]
    where
      none≢some : {A : Type 0} {x : A} → ◌≡◌ {A = Option A} none (some x) → ⊥
      none≢some h = cc

  failed_process-Refines :
      (db : Tables) (objects : Storage) (e : DeletionError)
      → Refines db (failed_process db objects e)
  unfolding failed_process
  failed_process-Refines db objects e = record {
    calls = once db _ (fails job_id (message e) now);
    ending = fail_deletion-status db e;
  }

  proceed-Refines {ℓ} :
      {A : Type ℓ} (db : Tables) (objects : Storage) (r : Result DeletionError (Tables × A))
      (next : A → Stage)
      → ((x : Tables × A) → r ≡ ok x → Step new_id refuses db x.0)
      → ((x : Tables × A) → r ≡ ok x → Ending (next x.1) x.0)
      → Refines db (proceed db objects r next)
  unfolding proceed
  proceed-Refines db objects (err e) next steps ends = failed_process-Refines db objects e
  proceed-Refines db objects (ok (after, a)) next steps ends = record {
    calls = once db after (steps (after, a) refl);
    ending = ends (after, a) refl;
  }

  validate-Refines :
      (db : Tables) (objects : Storage)
      → Refines db (after_validation objects (validate app db job_id))
  unfolding after_validation validate
  validate-Refines db objects = split (mark_validating db job_id) refl
    where
      checked :
          {saved : Tables} (r : Result DeletionError (Unit {0}))
          → Run new_id refuses db saved
          → Refines db (after_validation objects (saved, r))
      checked {saved} (err e) first =
          let last = failed_process-Refines saved objects e in
          record { calls = Run-append db saved _ first last.calls; ending = last.ending }
      checked {saved} (ok u) first = record { calls = first; ending = tt }

      split :
          (r : Result DeletionError (Tables × Option ℕ))
          → mark_validating db job_id ≡ r
          → Refines db (after_validation objects (validated app db r))
      split (err e) h = failed_process-Refines db objects e
      split (ok (saved, c)) h =
          let first = once db saved (validates job_id (saved, c) h) in
          checked (checked_blockers app c) first

  if_going :
      (b : Bool) (more rest : Stage) (db : Tables)
      → Ending more db
      → Ending rest db
      → Ending (if b then more else rest) db
  if_going b more rest db p q = if_holds (λ (s : Stage). Ending s db) b more rest p q

  blob_batch-Refines :
      (db : Tables) (objects : Storage) (o : Storage × Result DeletionError (Tables × BlobBatch))
      → delete_blob_batch refuses db objects job_id blob_batch_size ≡ o
      → Refines db (after_blob_batch db o)
  unfolding after_blob_batch
  blob_batch-Refines db objects (left, r) h =
      proceed-Refines db left r _
        (λ x e. deletes_blobs objects job_id blob_batch_size x (ap (λ o. o.1) h ∙ e))
        (λ x e. if_going x.1.has_more to_delete_blobs to_complete x.0 tt tt)

  none_rejected :
      (p : DeletionBlob → Bool) (bs : List DeletionBlob)
      → any_of p (select (λ b. not (p b)) bs) ≡ false
  none_rejected p [] = refl
  none_rejected p (b ∷ bs) = ground (arith, none_rejected p bs)

  complete_deletion-Ending :
      (db : Tables) (x : Tables × DeletionJob)
      → complete_deletion db job_id now ≡ ok x
      → Ending finished x.0
  unfolding complete_deletion
  complete_deletion-Ending db x h =
      let (j, e, h1) = >>=-eq-ok (required (get_job db job_id) job_not_found) _ h in
      let (u, f, h2) =
        >>=-eq-ok (refuse (any_of (is_pending_of j.id) db.deletion_blobs) blobs_remain) _ h1 in
      let there = required-ok (get_job db job_id) job_not_found e in
      let same = found_job db job_id there in
      let k = record j { status = completed; completed_at = some now; error_message = none } in
      subst (λ (y : Tables × DeletionJob). Ending finished y.0) (ok-injective h2)
        (
          k,
          find_first-put_job job_id k db.jobs same there,
          refl,
          subst
              (λ (i : ℕ).
                any_of (λ (b : DeletionBlob). b.deletion_job_id == i)
                  (select (λ (b : DeletionBlob). not (b.deletion_job_id == j.id)) db.deletion_blobs)
                ≡ false)
              same
              (none_rejected (λ (b : DeletionBlob). b.deletion_job_id == j.id) db.deletion_blobs),
        )

  advance_at-Refines :
      (s : Stage) (db : Tables) (objects : Storage)
      → Ending s db
      → Refines db (advance_at s db objects)
  unfolding advance_at
  advance_at-Refines to_validate db objects d = validate-Refines db objects
  advance_at-Refines to_prepare db objects d =
      proceed-Refines db objects (prepare_deletion db job_id now) _ (λ x e. prepares job_id now x e)
        (λ x e. tt)
  advance_at-Refines to_delete_items db objects d =
      proceed-Refines db objects (delete_item_batch new_id db job_id database_batch_size) _
        (λ x e. deletes_items job_id database_batch_size x e)
        (λ x e. if_going x.1.has_more to_delete_items to_delete_record x.0 tt tt)
  advance_at-Refines to_delete_record db objects d =
      proceed-Refines db objects (delete_collection_record new_id db job_id) _
        (λ x e. deletes_record job_id x e) (λ x e. tt)
  advance_at-Refines to_delete_blobs db objects d = blob_batch-Refines db objects _ refl
  advance_at-Refines to_complete db objects d =
      proceed-Refines db objects (complete_deletion db job_id now) _
        (λ x e. completes job_id now x e) (λ x e. complete_deletion-Ending db x e)
  advance_at-Refines finished db objects d = record { calls = stop db; ending = d }
  advance_at-Refines raised db objects d = record { calls = stop db; ending = d }

  -- After any number of its steps, on whatever tables and with whatever failures, the workflow has
  -- made calls of the state machine; if it has returned, its job is completed and no scheduled blob
  -- row of it is left, and if it has raised, its job is failed where it is stored.
  pub advance-Refines :
      (n : ℕ) (p : Process) → Ending p.stage p.tables → Refines p.tables (advance n p)
  unfolding advance
  advance-Refines zero p d = record { calls = stop p.tables; ending = d }
  advance-Refines (suc n) p d =
      let first = advance_at-Refines p.stage p.tables p.objects d in
      let rest = advance-Refines n (advance_at p.stage p.tables p.objects) first.ending in
      record { calls = Run-append p.tables _ _ first.calls rest.calls; ending = rest.ending }
