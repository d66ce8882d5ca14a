-- ===== src/Deletion/Needed.antt =====
-- Deletion schedules no blob that an artifact still needs.
use prv_application.Deletion.Jobs.{is_item_of}
use prv_application.Prelude.{
  ==→≡, All, All-append, All-mono, All-mono2, All-select, Bool, Bool-cases, Ensures, Ensures-at,
  Ensures-bind, List, Option, [], any_of, any_of-All, any_of-select_kept, any_of-select_none, arith,
  false, find_first, find_first-holds, inl, inr, length, none, not, ok, refl, refuse, select, some,
  subst, sym, true, ℕ, ◌==◌, ◌∷◌, ◌≡◌,
}
use prv_application.Deletion.{
  Artifact, ClientCollection, ContentBlob, DeletionBlob, DeletionJob, Tables, deleting_blobs,
  get_collection, get_job, items_remain, job_not_found, required, rivals, save_job,
  unique_violation,
}
use prv_application.Deletion.Rows.{
  blobs_of, collection_artifact_ids, delete_artifacts_and_schedule_blobs, delete_batch,
  delete_collection_record, delete_items, delete_record, item_artifact_ids, recorded, schedule_blob,
  schedule_blobs, schedule_found, scheduled_row, uses_blob, without_artifacts, without_collection,
  without_item_rows,
}

abbrev pub is_blob : ℕ → ContentBlob → Bool
is_blob i b = b.id == i

-- Every artifact has the row of its blob, and no blob scheduled for removal is an artifact's.
pub record BlobsSafe (db : Tables) : Type 0 where
  pub stored :
      All
        (λ (a : Artifact). any_of (is_blob a.content_blob_id) db.content_blobs ≡ true)
        db.artifacts
  pub unneeded :
      All
        (λ (r : DeletionBlob). any_of (uses_blob r.content_blob_id) db.artifacts ≡ false)
        db.deletion_blobs

module _ (new_id : ℕ → ℕ) where
  schedule_found-BlobsSafe :
      (job_id b : ℕ) (db : Tables) (o : Option ContentBlob)
      → ((c : ContentBlob) → o ≡ some c → c.id ≡ b)
      → any_of (uses_blob b) db.artifacts ≡ false
      → BlobsSafe db
      → BlobsSafe (schedule_found new_id job_id db o).0
  schedule_found-BlobsSafe job_id b db none f h v = v
  schedule_found-BlobsSafe job_id b db (some c) f h v =
      let same : c.id ≡ b = f c refl in
      record {
        stored =
            All-mono2 (λ (a : Artifact). uses_blob b a ≡ false)
              (λ (a : Artifact). any_of (is_blob a.content_blob_id) db.content_blobs ≡ true)
              (λ (a : Artifact).
                any_of (is_blob a.content_blob_id)
                  (select (λ (d : ContentBlob). not (d.id == c.id)) db.content_blobs)
                ≡ true)
              db.artifacts
              (λ a other found.
                any_of-select_kept (is_blob a.content_blob_id) _ db.content_blobs
                  (λ d e. ground (arith, same, other, e)) found)
              (any_of-All (uses_blob b) db.artifacts h) v.stored;
        unneeded =
            All-append
              (λ (r : DeletionBlob). any_of (uses_blob r.content_blob_id) db.artifacts ≡ false)
              db.deletion_blobs (scheduled_row new_id job_id c ∷ []) v.unneeded
              (subst (λ i. any_of (uses_blob i) db.artifacts ≡ false) (sym same) h, tt);
      }

  schedule_blob-BlobsSafe :
      (job_id b : ℕ) (db : Tables) → BlobsSafe db → BlobsSafe (schedule_blob new_id job_id b db).0
  unfolding schedule_blob
  schedule_blob-BlobsSafe job_id b db v = elim (Bool-cases (any_of (uses_blob b) db.artifacts)) [
    | inl used ↦ rw used v
    | inr free ↦ rw free (
        schedule_found-BlobsSafe job_id b db (find_first (is_blob b) db.content_blobs)
          (λ c e. ==→≡ c.id b (find_first-holds (is_blob b) db.content_blobs e)) free v)
  ]

  schedule_blobs-BlobsSafe :
      (job_id : ℕ) (bs : List ℕ) (db : Tables)
      → BlobsSafe db
      → BlobsSafe (schedule_blobs new_id job_id bs db).0
  unfolding schedule_blobs
  schedule_blobs-BlobsSafe job_id [] db v = v
  schedule_blobs-BlobsSafe job_id (b ∷ bs) db v =
      schedule_blobs-BlobsSafe job_id bs (schedule_blob new_id job_id b db).0
        (schedule_blob-BlobsSafe job_id b db v)

  -- Fewer artifacts need fewer blobs.
  without_artifacts-BlobsSafe :
      (ids : List ℕ) (db : Tables) → BlobsSafe db → BlobsSafe (without_artifacts ids db)
  unfolding without_artifacts
  without_artifacts-BlobsSafe ids db v = record {
    stored =
        All-select (λ (a : Artifact). any_of (is_blob a.content_blob_id) db.content_blobs ≡ true) _
          db.artifacts v.stored;
    unneeded =
        All-mono (λ (r : DeletionBlob). any_of (uses_blob r.content_blob_id) db.artifacts ≡ false) _
          db.deletion_blobs
          (λ r h. any_of-select_none (uses_blob r.content_blob_id) _ db.artifacts h) v.unneeded;
  }

  pub delete_artifacts-BlobsSafe :
      (job_id : ℕ) (ids : List ℕ) (db : Tables)
      → BlobsSafe db
      → BlobsSafe (delete_artifacts_and_schedule_blobs new_id job_id ids db).0
  unfolding delete_artifacts_and_schedule_blobs
  delete_artifacts-BlobsSafe job_id [] db v = v
  delete_artifacts-BlobsSafe job_id (i ∷ is) db v =
      schedule_blobs-BlobsSafe job_id (blobs_of (i ∷ is) db) (without_artifacts (i ∷ is) db)
        (without_artifacts-BlobsSafe (i ∷ is) db v)

  pub delete_batch-BlobsSafe :
      (db : Tables) (j : DeletionJob) (ids : List ℕ)
      → BlobsSafe db
      → BlobsSafe (delete_batch new_id db j ids).0
  unfolding delete_batch delete_items
  delete_batch-BlobsSafe db j [] v = v
  delete_batch-BlobsSafe db j (i ∷ is) v =
      let cleared = without_item_rows j.collection_id (i ∷ is) db in
      let rest =
        delete_artifacts-BlobsSafe j.id (item_artifact_ids (i ∷ is) db) cleared
          (unfold without_item_rows in record { stored = v.stored; unneeded = v.unneeded }) in
      record { stored = rest.stored; unneeded = rest.unneeded }

  pub save_job-BlobsSafe :
      (db : Tables) (j : DeletionJob) → BlobsSafe db → Ensures BlobsSafe (save_job db j)
  unfolding save_job
  save_job-BlobsSafe db j v =
      Ensures-bind BlobsSafe (refuse (any_of (rivals j) db.jobs) unique_violation) _
        λ t e. record { stored = v.stored; unneeded = v.unneeded }

  pub delete_record-BlobsSafe :
      (db : Tables) (j : DeletionJob) (o : Option ClientCollection)
      → BlobsSafe db
      → Ensures (λ x. BlobsSafe x.0) (delete_record new_id db j o)
  unfolding delete_record
  delete_record-BlobsSafe db j none v =
      Ensures-bind (λ x. BlobsSafe x.0) (save_job db (record j { status = deleting_blobs })) _
        λ saved e.
          Ensures-at BlobsSafe (save_job db (record j { status = deleting_blobs })) e
            (save_job-BlobsSafe db (record j { status = deleting_blobs }) v)
  delete_record-BlobsSafe db j (some c) v =
      Ensures-bind (λ x. BlobsSafe x.0) (refuse (any_of (is_item_of c.id) db.items) items_remain) _
        λ t e.
          let ids = collection_artifact_ids c.id db in
          let deleted = delete_artifacts_and_schedule_blobs new_id j.id ids db in
          let safe = delete_artifacts-BlobsSafe j.id ids db v in
          let rest = without_collection c.id deleted.0 in
          let k = recorded j deleted.1 (length ids) in
          Ensures-bind (λ x. BlobsSafe x.0) (save_job rest k) _
            λ saved g. Ensures-at BlobsSafe (save_job rest k) g (
              save_job-BlobsSafe rest k (
                unfold without_collection in
                record { stored = safe.stored; unneeded = safe.unneeded }))

  -- The same for the deletion of the collection itself.
  pub delete_collection_record-BlobsSafe :
      (db : Tables) (job_id : ℕ) (r : Tables × ℕ)
      → BlobsSafe db
      → delete_collection_record new_id db job_id ≡ ok r
      → BlobsSafe r.0
  unfolding delete_collection_record
  delete_collection_record-BlobsSafe db job_id r v h =
      Ensures-at (λ x. BlobsSafe x.0) (delete_collection_record new_id db job_id) h
        (Ensures-bind (λ x. BlobsSafe x.0) (required (get_job db job_id) job_not_found) _
          λ j e. delete_record-BlobsSafe db j (get_collection db j.collection_id) v)
