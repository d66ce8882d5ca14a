-- ===== src/Deletion/Ended.antt =====
-- Why the workflow collection_deletion of app/workflows/collection_deletion.py ends: each batch
-- before the last leaves fewer rows, whatever the storage refuses.
use prv_application.Deletion.Validating.{checked_blockers, mark_validating, validate, validated}
use prv_application.Deletion.Batches.{HasItemKeys, items_of}
use prv_application.Deletion.Emptied.{delete_item_batch-Deletes, fewer}
use prv_application.Deletion.Workflow.{blob_batch_size, database_batch_size}
use prv_application.Deletion.Rows.{ItemBatch, delete_collection_record, delete_item_batch}
use prv_application.Imports.{ImportTables}
use prv_application.Prelude.{
  Bool, Ensures, Ensures-at, List, Option, Option-cases, Result, String, ap, arith, distinct, err,
  err≢ok, false, if◌then◌else◌, inl, inr, length, none, ok, refl, some, subst, suc, sym, true, zero,
  ℕ, ◌∙◌, ◌≡◌, ◌≤◌,
}
use prv_application.Deletion.{DeletionError, DeletionJob, Tables, get_job, job_not_found}
use prv_application.Deletion.Jobs.{complete_deletion, prepare_deletion}
use prv_application.Deletion.Blobs.{BlobBatch, Storage, delete_blob_batch}
use prv_application.Deletion.Removing.{pending_of}
use prv_application.Deletion.Process.{
  Process, Stage, advance, advance_at, after_blob_batch, after_validation, failed_process, finished,
  proceed, raised, to_complete, to_delete_blobs, to_delete_items, to_delete_record, to_prepare,
  to_validate,
}
use prv_application.Deletion.Shrinking.{
  SameItems, delete_blob_batch-fewer, mark_validating-items, prepare_deletion-items,
}

abbrev pub is_over : Stage → Bool
is_over finished = true
is_over raised = true
is_over _ = false

abbrev pub at : Stage → Tables → Storage → Process
at s db objects = record { tables = db; objects = objects; stage = s }

module _ (new_id : ℕ → ℕ) (refuses : String → String → Bool) (message : DeletionError → List ℕ)
    (app : ImportTables) (job_id now : ℕ) where
  -- After some number of steps the workflow has returned or raised.
  abbrev pub Ends : Process → Type 0
  Ends p = (n : ℕ) × (is_over (advance new_id refuses message app job_id now n p).stage ≡ true)

  later :
      (s : Stage) (db : Tables) (objects : Storage)
      → Ends (advance_at new_id refuses message app job_id now s db objects)
      → Ends (at s db objects)
  later s db objects (n, e) = (suc n, (unfold advance in e))

  failed_process-Ends :
      (db : Tables) (objects : Storage) (e : DeletionError)
      → Ends (failed_process new_id refuses message app job_id now db objects e)
  failed_process-Ends db objects e = (0, (unfold advance in unfold failed_process in refl))

  proceed-Ends {ℓ} :
      {A : Type ℓ} (db : Tables) (objects : Storage) (r : Result DeletionError (Tables × A))
      (next : A → Stage)
      → ((x : Tables × A) → r ≡ ok x → Ends (at (next x.1) x.0 objects))
      → Ends (proceed new_id refuses message app job_id now db objects r next)
  unfolding proceed
  proceed-Ends db objects (err e) next goes = failed_process-Ends db objects e
  proceed-Ends db objects (ok x) next goes = goes x refl

  complete-Ends : (db : Tables) (objects : Storage) → Ends (at to_complete db objects)
  complete-Ends db objects = later to_complete db objects (
      unfold advance_at in
      proceed-Ends db objects (complete_deletion db job_id now) (λ j. finished)
        (λ x e. (0, (unfold advance in refl))))

  -- A loop goes on as long as its batches are not the last.
  if_more :
      (b : Bool) (more rest : Stage) (db : Tables) (objects : Storage)
      → (b ≡ true → Ends (at more db objects))
      → Ends (at rest db objects)
      → Ends (at (if b then more else rest) db objects)
  if_more true more rest db objects p q = p refl
  if_more false more rest db objects p q = q

  blob_batch-Ends :
      (db : Tables) (objects : Storage) (o : Storage × Result DeletionError (Tables × BlobBatch))
      → delete_blob_batch refuses db objects job_id blob_batch_size ≡ o
      → ((left : Storage) (after : Tables)
          → suc (length (pending_of job_id after)) ≤ length (pending_of job_id db)
          → Ends (at to_delete_blobs after left))
      → Ends (after_blob_batch new_id refuses message app job_id now db o)
  unfolding after_blob_batch
  blob_batch-Ends db objects (left, r) h again =
      proceed-Ends db left r (λ b. if b.has_more then to_delete_blobs else to_complete)
        (λ x e.
          if_more x.1.has_more to_delete_blobs to_complete x.0 left
            (λ going. again left x.0 (
              delete_blob_batch-fewer refuses db 249 objects left job_id x
                (h ∙ ap (λ (s : Result DeletionError (Tables × BlobBatch)). (left, s)) e) going))
            (complete-Ends x.0 left))

  blobs_step :
      (db : Tables) (objects : Storage)
      → ((left : Storage) (after : Tables)
          → suc (length (pending_of job_id after)) ≤ length (pending_of job_id db)
          → Ends (at to_delete_blobs after left))
      → Ends (at to_delete_blobs db objects)
  blobs_step db objects again =
      later to_delete_blobs db objects
        (unfold advance_at in blob_batch-Ends db objects _ refl again)

  delete_blobs-Ends :
      (fuel : ℕ) (db : Tables) (objects : Storage)
      → length (pending_of job_id db) ≤ fuel
      → Ends (at to_delete_blobs db objects)
  delete_blobs-Ends zero db objects enough =
      blobs_step db objects (λ left after fewer. absurd (omega arith))
  delete_blobs-Ends (suc fuel) db objects enough =
      blobs_step db objects (λ left after fewer. delete_blobs-Ends fuel after left (omega arith))

  record-Ends : (db : Tables) (objects : Storage) → Ends (at to_delete_record db objects)
  record-Ends db objects = later to_delete_record db objects (
      unfold advance_at in
      proceed-Ends db objects (delete_collection_record new_id db job_id) (λ n. to_delete_blobs)
        (λ x e. delete_blobs-Ends (length (pending_of job_id x.0)) x.0 objects (omega arith)))

  items_step :
      (db : Tables) (objects : Storage) (j : DeletionJob)
      → get_job db job_id ≡ some j
      → HasItemKeys db
      → ((after : Tables) (k : DeletionJob)
          → get_job after job_id ≡ some k
          → HasItemKeys after
          → suc (length (items_of k.collection_id after)) ≤ length (items_of j.collection_id db)
          → Ends (at to_delete_items after objects))
      → Ends (at to_delete_items db objects)
  items_step db objects j stored unique again =
      let (r, found, d, c) =
        delete_item_batch-Deletes new_id job_id db j database_batch_size stored unique in
      let next = λ (b : ItemBatch). if b.has_more then to_delete_items else to_delete_record in
      later to_delete_items db objects (
        unfold advance_at in
        subst
          (λ (res : Result DeletionError (Tables × ItemBatch)).
            Ends (proceed new_id refuses message app job_id now db objects res next))
          (sym found)
          (unfold proceed in
            if_more r.1.has_more to_delete_items to_delete_record r.0 objects
              (λ going.
                let same = ap (λ (k : ℕ). length (items_of k r.0)) c.collection in
                again r.0 c.job c.stored d.keys
                  (omega (arith, same, fewer new_id job_id db r.0 j.collection_id r.1 going d)))
              (record-Ends r.0 objects)))

  delete_items-Ends :
      (fuel : ℕ) (db : Tables) (objects : Storage) (j : DeletionJob)
      → get_job db job_id ≡ some j
      → HasItemKeys db
      → length (items_of j.collection_id db) ≤ fuel
      → Ends (at to_delete_items db objects)
  delete_items-Ends zero db objects j stored unique enough =
      items_step db objects j stored unique (λ after k s u smaller. absurd (omega arith))
  delete_items-Ends (suc fuel) db objects j stored unique enough =
      items_step db objects j stored unique
        (λ after k s u smaller. delete_items-Ends fuel after objects k s u (omega arith))

  batch_absent :
      (db : Tables)
      → get_job db job_id ≡ none
      → delete_item_batch new_id db job_id database_batch_size ≡ err job_not_found
  unfolding delete_item_batch
  batch_absent db absent = rw absent refl

  items-Ends :
      (db : Tables) (objects : Storage) → HasItemKeys db → Ends (at to_delete_items db objects)
  items-Ends db objects unique = elim (Option-cases (get_job db job_id)) [
    | inl absent ↦ later to_delete_items db objects (
        unfold advance_at in
        proceed-Ends db objects (delete_item_batch new_id db job_id database_batch_size) _
          (λ x e. absurd (err≢ok (sym (batch_absent db absent) ∙ e))))
    | inr (j, stored) ↦
        delete_items-Ends (length (items_of j.collection_id db)) db objects j stored unique
          (omega arith)
  ]

  prepare-Ends :
      (db : Tables) (objects : Storage) → HasItemKeys db → Ends (at to_prepare db objects)
  prepare-Ends db objects unique = later to_prepare db objects (
      unfold advance_at in
      proceed-Ends db objects (prepare_deletion db job_id now) (λ j. to_delete_items)
        (λ x e. items-Ends x.0 objects (
          subst (λ (is : List ℕ). distinct is ≡ true)
            (sym (
              Ensures-at (λ (x : Tables × DeletionJob). SameItems db x.0)
                (prepare_deletion db job_id now) e (prepare_deletion-items db job_id now)))
            unique)))

  after_validation-Ends :
      (objects : Storage) (db : Tables) (r : Result DeletionError (Unit {0}))
      → HasItemKeys db
      → Ends (after_validation new_id refuses message app job_id now objects (db, r))
  unfolding after_validation
  after_validation-Ends objects db (err e) unique = failed_process-Ends db objects e
  after_validation-Ends objects db (ok u) unique = prepare-Ends db objects unique

  validated-Ends :
      (objects : Storage) (db : Tables) (r : Result DeletionError (Tables × Option ℕ))
      → HasItemKeys db
      → Ensures (λ (x : Tables × Option ℕ). SameItems db x.0) r
      → Ends (after_validation new_id refuses message app job_id now objects (validated app db r))
  validated-Ends objects db (err e) unique s = after_validation-Ends objects db (err e) unique
  validated-Ends objects db (ok (saved, c)) unique s =
      after_validation-Ends objects saved (checked_blockers app c)
        (subst (λ (is : List ℕ). distinct is ≡ true) (sym s) unique)

  -- On whatever tables whose items have different ids, and whatever the storage refuses, the
  -- workflow returns or raises after some number of steps.
  pub advance-Ends :
      (db : Tables) (objects : Storage) → HasItemKeys db → Ends (at to_validate db objects)
  advance-Ends db objects unique = later to_validate db objects (
      unfold advance_at in
      unfold validate in
      validated-Ends objects db (mark_validating db job_id) unique
        (mark_validating-items db job_id))
