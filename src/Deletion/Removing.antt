-- ===== src/Deletion/Removing.antt =====
-- What a batch of blobs removes from the storage, and what it leaves pending.
use prv_application.Prelude.{
  ==→≡, All-map, All-sort_by, All-take, Bool, Bool-cases, List, String, [], any_of, any_of-select,
  any_of-sort_by, any_of-take, ap, arith, distinct, distinct-select, distinct-sort_by,
  distinct-take, elem, elem_keys, false, find_first-holds, inl, inr, length, length-map,
  length-select-not, length-sort_by, length-take_pos, map, not, ok, refl, select, select-drop,
  select-select, some, sort_by, subst, sym, take, true, ℕ, ◌&&◌, ◌+◌, ◌==◌, ◌||◌, ◌∙◌, ◌∷◌, ◌≡◌,
  ◌≤◌,
}
use prv_application.Deletion.{DeletionBlob, DeletionJob, Tables, get_job}
use prv_application.Deletion.Jobs.{is_pending_of}
use prv_application.Deletion.Blobs.{
  BlobBatch, Storage, blob_before, blob_id, delete_blob_batch, mark_batch, mark_deleted,
  names_object, pending_batch, remove_object, remove_objects,
}
use prv_application.Deletion.Stable.{find_first-put_job}

abbrev pub pending_of : ℕ → Tables → List DeletionBlob
pending_of i db = select (is_pending_of i) db.deletion_blobs

-- Rows of scheduled blobs have different ids.
abbrev pub HasBlobKeys : Tables → Type 0
HasBlobKeys db = distinct (map blob_id db.deletion_blobs) ≡ true

abbrev pub is_named : List DeletionBlob → String × String → Bool
is_named bs o = any_of (λ b. names_object b o) bs

-- The storage without the objects that the rows name.
abbrev pub without_objects : List DeletionBlob → Storage → Storage
without_objects bs objects = select (λ o. not (is_named bs o)) objects

without_none : (objects : Storage) → without_objects [] objects ≡ objects
without_none [] = refl
without_none (o ∷ os) = ap (λ rest. o ∷ rest) (without_none os)

mark_deleted-keys :
    (ids : List ℕ) (rows : List DeletionBlob)
    → map blob_id (map (mark_deleted ids) rows) ≡ map blob_id rows
mark_deleted-keys ids [] = refl
mark_deleted-keys ids (r ∷ rs) = elim (Bool-cases (elem r.id ids)) [
  | inl e ↦ rw e (ap (λ is. r.id ∷ is) (mark_deleted-keys ids rs))
  | inr e ↦ rw e (ap (λ is. r.id ∷ is) (mark_deleted-keys ids rs))
]

-- The rows still pending are those that are not marked.
pub mark_deleted-pending :
    (i : ℕ) (ids : List ℕ) (rows : List DeletionBlob)
    → select (is_pending_of i) (map (mark_deleted ids) rows)
      ≡ select (λ (r : DeletionBlob). not (elem r.id ids)) (select (is_pending_of i) rows)
mark_deleted-pending i ids [] = refl
mark_deleted-pending i ids (r ∷ rs) = elim (Bool-cases (elem r.id ids)) [
  | inl e ↦ rw e (ground (arith, mark_deleted-pending i ids rs, e))
  | inr e ↦ rw e (ground (arith, mark_deleted-pending i ids rs, e))
]

-- What a batch did to the storage and the rows of the job.
pub record Removes (job_id size : ℕ) (db : Tables) (objects left : Storage) (after : Tables)
    (batch : BlobBatch) : Type 0 where
  pub batch_rows : List DeletionBlob
  pub removed : left ≡ without_objects batch_rows objects
  pub split :
      (o : String × String)
      → is_named (pending_of job_id db) o
        ≡ (is_named batch_rows o || is_named (pending_of job_id after) o)
  pub counted :
      length (pending_of job_id after) + batch.deleted_blobs ≡ length (pending_of job_id db)
  pub progress : 1 ≤ size → 1 ≤ length (pending_of job_id db) → 1 ≤ batch.deleted_blobs
  pub more : batch.has_more ≡ any_of (is_pending_of job_id) after.deletion_blobs
  pub keys : HasBlobKeys after
  pub stored : DeletionJob
  pub found : get_job after job_id ≡ some stored

module _ (refuses : String → String → Bool)
    (answers : (bucket key : String) → refuses bucket key ≡ false) where
  remove_objects-all :
      (bs : List DeletionBlob) (objects : Storage)
      → remove_objects refuses bs objects ≡ (without_objects bs objects, true)
  unfolding remove_objects remove_object
  remove_objects-all [] objects = ap (λ (os : Storage). (os, true)) (sym (without_none objects))
  remove_objects-all (b ∷ bs) objects = rw (answers b.bucket_name b.storage_key) (
      remove_objects-all bs (select (λ o. not (names_object b o)) objects)
      ∙ ap (λ (os : Storage). (os, true))
          (select-select (λ o. not (is_named bs o)) (λ o. not (names_object b o))
            (λ o. not (is_named (b ∷ bs) o)) objects (λ o. ground arith)))

  mark_batch-Removes :
      (db : Tables) (j : DeletionJob) (size : ℕ) (objects : Storage)
      → get_job db j.id ≡ some j
      → HasBlobKeys db
      → let bs = pending_batch db j.id size in
        Removes j.id size db objects
          (without_objects bs objects)
          (mark_batch refuses db j bs).0
          (mark_batch refuses db j bs).1
  unfolding mark_batch pending_batch
  mark_batch-Removes db j size objects h unique =
      let pending = pending_of j.id db in
      let sorted = sort_by blob_before pending in
      let bs = take size sorted in
      let ids = map blob_id bs in
      let left = mark_deleted-pending j.id ids db.deletion_blobs in
      let keys = distinct-select blob_id (is_pending_of j.id) db.deletion_blobs unique in
      let sorted_keys = distinct-sort_by blob_id blob_before pending keys in
      record {
        batch_rows = bs;
        removed = refl;
        split = λ o.
            let named = λ (b : DeletionBlob). names_object b o in
            let unmarked = λ (b : DeletionBlob). not (elem b.id ids) in
            let rest =
              ap (any_of named) left
              ∙ any_of-select named unmarked pending
              ∙ sym (any_of-sort_by blob_before (λ b. unmarked b && named b) pending)
              ∙ sym (any_of-select named unmarked sorted)
              ∙ ap (any_of named) (select-drop blob_id size sorted sorted_keys) in
            sym (any_of-sort_by blob_before named pending)
            ∙ any_of-take named size sorted
            ∙ ap (λ b. any_of named bs || b) (sym rest);
        counted = omega (
          arith,
          ap length left,
          length-map blob_id bs,
          length-select-not blob_id ids pending keys (distinct-take blob_id size sorted sorted_keys)
              (All-map (λ i. elem i (map blob_id pending) ≡ true) blob_id bs
                (All-take (λ (b : DeletionBlob). elem b.id (map blob_id pending) ≡ true) size sorted
                  (All-sort_by blob_before
                    (λ (b : DeletionBlob). elem b.id (map blob_id pending) ≡ true) pending
                    (elem_keys blob_id pending)))),
        );
        progress = λ large some_left.
            length-take_pos size sorted large
              (omega (arith, length-sort_by blob_before pending, some_left));
        more = refl;
        keys =
            subst (λ (is : List ℕ). distinct is ≡ true)
              (sym (mark_deleted-keys ids db.deletion_blobs)) unique;
        stored = record j { deleted_blob_count = j.deleted_blob_count + length bs };
        found =
            find_first-put_job j.id
              (record j { deleted_blob_count = j.deleted_blob_count + length bs }) db.jobs refl h;
      }

  pub batch_run :
      (job_id : ℕ) (db : Tables) (j : DeletionJob) (size : ℕ) (objects : Storage)
      → get_job db job_id ≡ some j
      → HasBlobKeys db
      → (left : Storage) × (r : Tables × BlobBatch) × (delete_blob_batch refuses db objects job_id
            size
          ≡ (left, ok r))
        × Removes job_id size db objects left r.0 r.1
  unfolding delete_blob_batch
  batch_run job_id db j size objects h unique =
      let same =
        ==→≡ j.id job_id (find_first-holds (λ (x : DeletionJob). x.id == job_id) db.jobs h) in
      let bs = pending_batch db j.id size in
      (
        without_objects bs objects,
        mark_batch refuses db j bs,
        rw (h, remove_objects-all bs objects),
        subst
            (λ (i : ℕ).
              Removes i size db objects (without_objects bs objects) (mark_batch refuses db j bs).0
                (mark_batch refuses db j bs).1)
            same
            (mark_batch-Removes db j size objects
              (subst (λ (i : ℕ). get_job db i ≡ some j) (sym same) h) unique),
      )
