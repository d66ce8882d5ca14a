-- ===== src/Deletion/Emptied.antt =====
-- The loop over the batches of items ends, and then the collection has none left.
use prv_application.Deletion.Workflow.{database_batch_size, delete_all_items}
use prv_application.Deletion.Jobs.{is_item_of}
use prv_application.Prelude.{
  ==→≡, Bool-cases, List, [], any_of-length, any_of-length_pos, ap, arith, false, find_first,
  find_first-holds, inl, inr, length, ok, refl, some, subst, suc, sym, true, zero, ℕ, ◌+◌, ◌==◌,
  ◌∙◌, ◌∷◌, ◌≡◌, ◌≤◌,
}
use prv_application.Deletion.{DeletionJob, Tables, get_job}
use prv_application.Deletion.Rows.{
  ItemBatch, batch_ids, delete_artifacts_and_schedule_blobs, delete_batch, delete_item_batch,
  delete_items, item_artifact_ids, without_item_rows,
}
use prv_application.Deletion.Stable.{find_first-put_job}
use prv_application.Deletion.Batches.{
  Deletes, HasItemKeys, cleared-SameRows, delete_batch-Deletes, items_of,
}

-- The job of the id counts `n` more deleted items than `j`, and is otherwise of the same collection
-- and in the same status.
pub record Counts (db : Tables) (job_id : ℕ) (j : DeletionJob) (n : ℕ) : Type 0 where
  pub job : DeletionJob
  pub stored : get_job db job_id ≡ some job
  pub collection : job.collection_id ≡ j.collection_id
  pub status : job.status ≡ j.status
  pub items : job.deleted_item_count ≡ j.deleted_item_count + n

module _ (new_id : ℕ → ℕ) (job_id : ℕ) where
  delete_batch-Counts :
      (db : Tables) (j : DeletionJob) (is : List ℕ)
      → get_job db job_id ≡ some j
      → Counts
          (delete_batch new_id db j is).0
          job_id
          j
          (delete_batch new_id db j is).1.deleted_items
  unfolding delete_batch delete_items
  delete_batch-Counts db j [] h = record {
    job = j;
    stored = h;
    collection = refl;
    status = refl;
    items = omega arith;
  }
  delete_batch-Counts db j (i ∷ is) h =
      let same : j.id ≡ job_id =
        ==→≡ j.id job_id (find_first-holds (λ (x : DeletionJob). x.id == job_id) db.jobs h) in
      let ids = item_artifact_ids (i ∷ is) db in
      let cleared = without_item_rows j.collection_id (i ∷ is) db in
      let deleted = delete_artifacts_and_schedule_blobs new_id j.id ids cleared in
      let jobs : deleted.0.jobs ≡ db.jobs = (cleared-SameRows new_id db j (i ∷ is)).1 in
      record {
        job = record j {
          blob_count = j.blob_count + deleted.1;
          deleted_item_count = j.deleted_item_count + length (i ∷ is);
          deleted_artifact_count = j.deleted_artifact_count + length ids;
        };
        stored =
            find_first-put_job job_id _ deleted.0.jobs same
              (ap (find_first (λ (x : DeletionJob). x.id == job_id)) jobs ∙ h);
        collection = refl;
        status = refl;
        items = refl;
      }

  -- A batch for a stored job over items with different ids deletes as many items of the job's
  -- collection as it counts, at most the batch size and at least one if there is one, touches no
  -- item of another collection, tells whether items are left, and adds to the job's count.
  pub delete_item_batch-Deletes :
      (db : Tables) (j : DeletionJob) (batch_size : ℕ)
      → get_job db job_id ≡ some j
      → HasItemKeys db
      → (r : Tables × ItemBatch) × (delete_item_batch new_id db job_id batch_size ≡ ok r)
        × Deletes j.collection_id batch_size db r.0 r.1
        × Counts r.0 job_id j r.1.deleted_items
  unfolding delete_item_batch
  delete_item_batch-Deletes db j batch_size h unique =
      let ids = batch_ids db j.collection_id batch_size in
      (
        delete_batch new_id db j ids,
        rw h,
        delete_batch-Deletes new_id db j batch_size unique ids refl,
        delete_batch-Counts db j ids h,
      )

  -- What the whole loop did for the job `j`.
  pub record Emptied (db : Tables) (j : DeletionJob) (after : Tables) : Type 0 where
    pub empty : length (items_of j.collection_id after) ≡ 0
    pub others : (d : ℕ) → (d == j.collection_id) ≡ false → items_of d after ≡ items_of d db
    pub keys : HasItemKeys after
    pub counts : Counts after job_id j (length (items_of j.collection_id db))

  -- The last batch, and a batch before the last.
  last_batch-Emptied :
      (db after : Tables) (j : DeletionJob) (batch : ItemBatch)
      → batch.has_more ≡ false
      → Deletes j.collection_id database_batch_size db after batch
      → Counts after job_id j batch.deleted_items
      → Emptied db j after
  last_batch-Emptied db after j batch e d c =
      let empty =
        any_of-length (is_item_of j.collection_id) after.items (sym (d.more (omega arith)) ∙ e) in
      record {
        empty = empty;
        others = d.others;
        keys = d.keys;
        counts = subst (Counts after job_id j) (omega (arith, d.counted, empty)) c;
      }

  more-Emptied :
      (db middle after : Tables) (j : DeletionJob) (batch : ItemBatch)
      → Deletes j.collection_id database_batch_size db middle batch
      → (c : Counts middle job_id j batch.deleted_items) → Emptied middle c.job after
      → Emptied db j after
  more-Emptied db middle after j batch d c rest =
      let same = c.collection in
      let final = rest.counts in
      let left = ap (λ (k : ℕ). length (items_of k middle)) same in
      record {
        empty = subst (λ (k : ℕ). length (items_of k after) ≡ 0) same rest.empty;
        others = λ k other. rest.others k (ground (arith, other, same)) ∙ d.others k other;
        keys = rest.keys;
        counts = record {
          job = final.job;
          stored = final.stored;
          collection = final.collection ∙ same;
          status = final.status ∙ c.status;
          items = omega (arith, final.items, c.items, left, d.counted);
        };
      }

  step_last :
      (n : ℕ) (db : Tables) (r : Tables × ItemBatch)
      → delete_item_batch new_id db job_id database_batch_size ≡ ok r
      → r.1.has_more ≡ false
      → delete_all_items new_id (suc n) db job_id ≡ ok (some r.0)
  unfolding delete_all_items
  step_last n db r found e = rw (found, e)

  step_more :
      (n : ℕ) (db : Tables) (r : Tables × ItemBatch)
      → delete_item_batch new_id db job_id database_batch_size ≡ ok r
      → r.1.has_more ≡ true
      → delete_all_items new_id (suc n) db job_id ≡ delete_all_items new_id n r.0 job_id
  unfolding delete_all_items
  step_more n db r found e = rw (found, e)

  -- A batch before the last leaves fewer items.
  pub fewer :
      (db after : Tables) (c : ℕ) (batch : ItemBatch)
      → batch.has_more ≡ true
      → Deletes c database_batch_size db after batch
      → suc (length (items_of c after)) ≤ length (items_of c db)
  fewer db after c batch e d =
      let left = any_of-length_pos (is_item_of c) after.items (sym (d.more (omega arith)) ∙ e) in
      omega (arith, d.counted, left, d.progress (omega arith) (omega (arith, d.counted, left)))

  -- For a stored job over items with different ids, one round more than the collection has items is
  -- fuel enough: the loop ends, none of the collection's items is left, every other item is, and
  -- the job's count has grown by as many items as there were.
  pub delete_all_items-Emptied :
      (fuel : ℕ) (db : Tables) (j : DeletionJob)
      → get_job db job_id ≡ some j
      → HasItemKeys db
      → length (items_of j.collection_id db) ≤ fuel
      → (after : Tables) × (delete_all_items new_id (suc fuel) db job_id ≡ ok (some after))
        × Emptied db j after
  delete_all_items-Emptied zero db j stored unique enough =
      let (r, found, d, c) = delete_item_batch-Deletes db j database_batch_size stored unique in
      elim (Bool-cases r.1.has_more) [
        | inr e ↦ (r.0, step_last 0 db r found e, last_batch-Emptied db r.0 j r.1 e d c)
        | inl e ↦ absurd (omega (arith, enough, fewer db r.0 j.collection_id r.1 e d))
      ]
  delete_all_items-Emptied (suc fuel) db j stored unique enough =
      let (r, found, d, c) = delete_item_batch-Deletes db j database_batch_size stored unique in
      elim (Bool-cases r.1.has_more) [
        | inr e ↦ (r.0, step_last (suc fuel) db r found e, last_batch-Emptied db r.0 j r.1 e d c)
        | inl e ↦
            let same = ap (λ (k : ℕ). length (items_of k r.0)) c.collection in
            let (after, ran, rest) =
              delete_all_items-Emptied fuel r.0 c.job c.stored d.keys
                (omega (arith, same, enough, fewer db r.0 j.collection_id r.1 e d)) in
            (
              after,
              step_more (suc fuel) db r found e ∙ ran,
              more-Emptied db r.0 after j r.1 d c rest,
            )
      ]
