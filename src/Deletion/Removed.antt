-- ===== src/Deletion/Removed.antt =====
-- The loop over the batches of blobs ends, and removes the job's objects from the storage.
use prv_application.Prelude.{
  Bool, Bool-cases, String, any_of, any_of-All, any_of-length_pos, ap, arith, false, inl, inr,
  length, not, ok, select-ext, select-select, select_none, some, suc, sym, true, zero, ℕ, ◌∙◌, ◌≡◌,
  ◌≤◌,
}
use prv_application.Deletion.{DeletionJob, Tables, get_job}
use prv_application.Deletion.Jobs.{is_pending_of}
use prv_application.Deletion.Blobs.{BlobBatch, Storage, delete_blob_batch}
use prv_application.Deletion.Removing.{
  HasBlobKeys, Removes, batch_run, is_named, pending_of, without_objects,
}
use prv_application.Deletion.Workflow.{blob_batch_size, delete_all_blobs}

-- What the whole loop did.
pub record AllRemoved (job_id : ℕ) (db : Tables) (objects left : Storage) (after : Tables)
    : Type 0 where
  pub removed : left ≡ without_objects (pending_of job_id db) objects
  pub none_pending : any_of (is_pending_of job_id) after.deletion_blobs ≡ false
  pub keys : HasBlobKeys after

last_batch-AllRemoved :
    (job_id size : ℕ) (db : Tables) (objects left : Storage) (after : Tables) (batch : BlobBatch)
    → batch.has_more ≡ false
    → Removes job_id size db objects left after batch
    → AllRemoved job_id db objects left after
last_batch-AllRemoved job_id size db objects left after batch e d =
    let none_left = sym d.more ∙ e in
    let empty =
      select_none (is_pending_of job_id) after.deletion_blobs
        (any_of-All (is_pending_of job_id) after.deletion_blobs none_left) in
    record {
      removed =
          d.removed
          ∙ select-ext (λ o. not (is_named d.batch_rows o))
              (λ o. not (is_named (pending_of job_id db) o)) objects
              (λ o. ground (arith, d.split o, ap (λ bs. is_named bs o) empty));
      none_pending = none_left;
      keys = d.keys;
    }

more-AllRemoved :
    (job_id size : ℕ) (db middle after : Tables) (objects left last : Storage) (batch : BlobBatch)
    → Removes job_id size db objects left middle batch
    → AllRemoved job_id middle left last after
    → AllRemoved job_id db objects last after
more-AllRemoved job_id size db middle after objects left last batch d rest = record {
  removed =
      rest.removed
      ∙ ap (without_objects (pending_of job_id middle)) d.removed
      ∙ select-select (λ o. not (is_named (pending_of job_id middle) o))
          (λ o. not (is_named d.batch_rows o)) (λ o. not (is_named (pending_of job_id db) o))
          objects (λ o. ground (arith, d.split o));
  none_pending = rest.none_pending;
  keys = rest.keys;
}

fewer_pending :
    (job_id : ℕ) (db after : Tables) (objects left : Storage) (batch : BlobBatch)
    → batch.has_more ≡ true
    → Removes job_id blob_batch_size db objects left after batch
    → suc (length (pending_of job_id after)) ≤ length (pending_of job_id db)
fewer_pending job_id db after objects left batch e d =
    let some_left =
      any_of-length_pos (is_pending_of job_id) after.deletion_blobs (sym d.more ∙ e) in
    omega
      (arith, d.counted, some_left, d.progress (omega arith) (omega (arith, d.counted, some_left)))

module _ (refuses : String → String → Bool)
    (answers : (bucket key : String) → refuses bucket key ≡ false) where
  step_last :
      (n job_id : ℕ) (db : Tables) (objects left : Storage) (r : Tables × BlobBatch)
      → delete_blob_batch refuses db objects job_id blob_batch_size ≡ (left, ok r)
      → r.1.has_more ≡ false
      → delete_all_blobs refuses (suc n) db objects job_id ≡ (left, ok (some r.0))
  unfolding delete_all_blobs
  step_last n job_id db objects left r ran e = rw (ran, e)

  step_more :
      (n job_id : ℕ) (db : Tables) (objects left : Storage) (r : Tables × BlobBatch)
      → delete_blob_batch refuses db objects job_id blob_batch_size ≡ (left, ok r)
      → r.1.has_more ≡ true
      → delete_all_blobs refuses (suc n) db objects job_id
        ≡ delete_all_blobs refuses n r.0 left job_id
  unfolding delete_all_blobs
  step_more n job_id db objects left r ran e = rw (ran, e)

  -- For a stored job over scheduled rows with different ids, and a storage that refuses no request,
  -- one round more than the job has pending rows is fuel enough: the loop ends, no row of the job
  -- is pending, and exactly the objects that its pending rows named are gone from the storage.
  pub delete_all_blobs-AllRemoved :
      (fuel job_id : ℕ) (db : Tables) (objects : Storage) (j : DeletionJob)
      → get_job db job_id ≡ some j
      → HasBlobKeys db
      → length (pending_of job_id db) ≤ fuel
      → (last : Storage) × (after : Tables) × (delete_all_blobs refuses (suc fuel) db objects job_id
          ≡ (last, ok (some after)))
        × AllRemoved job_id db objects last after
  delete_all_blobs-AllRemoved zero job_id db objects j h unique enough =
      let (left, r, ran, d) =
        batch_run refuses answers job_id db j blob_batch_size objects h unique in
      elim (Bool-cases r.1.has_more) [
        | inr e ↦ (
          left,
          r.0,
          step_last 0 job_id db objects left r ran e,
          last_batch-AllRemoved job_id blob_batch_size db objects left r.0 r.1 e d,
        )
        | inl e ↦ absurd (omega (arith, enough, fewer_pending job_id db r.0 objects left r.1 e d))
      ]
  delete_all_blobs-AllRemoved (suc fuel) job_id db objects j h unique enough =
      let (left, r, ran, d) =
        batch_run refuses answers job_id db j blob_batch_size objects h unique in
      elim (Bool-cases r.1.has_more) [
        | inr e ↦ (
          left,
          r.0,
          step_last (suc fuel) job_id db objects left r ran e,
          last_batch-AllRemoved job_id blob_batch_size db objects left r.0 r.1 e d,
        )
        | inl e ↦
            let (last, after, all_ran, rest) =
              delete_all_blobs-AllRemoved fuel job_id r.0 left d.stored d.found d.keys
                (omega (arith, enough, fewer_pending job_id db r.0 objects left r.1 e d)) in
            (
              last,
              after,
              step_more (suc fuel) job_id db objects left r ran e ∙ all_ran,
              more-AllRemoved job_id blob_batch_size db r.0 after objects left last r.1 d rest,
            )
      ]
