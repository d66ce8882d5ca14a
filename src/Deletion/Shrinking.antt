-- ===== src/Deletion/Shrinking.antt =====
-- What the steps of the deletion workflow leave: the same items, or fewer rows.
use prv_application.Deletion.Validating.{mark_validating}
use prv_application.Deletion.Rows.{item_id}
use prv_application.Prelude.{
  Bool, Bool-cases, Ensures, Ensures-at, Ensures-bind, List, Option, Result, String, [], any_of,
  any_of-length_pos, any_of-sort_by, ap, arith, elem, err≢ok, false, if_holds, inl, inr, length,
  length-select, length-sort_by, map, none, not, ok, ok-injective, refl, refuse, select, some,
  sort_by, subst, suc, sym, take, true, ℕ, ◌∙◌, ◌∷◌, ◌≡◌, ◌≤◌,
}
use prv_application.Deletion.{
  CollectionItem, DeletionBlob, DeletionError, DeletionJob, Tables, get_job, job_not_found,
  required, rivals, save_job, unique_violation, validating,
}
use prv_application.Deletion.Jobs.{
  is_completed, is_item_of, is_pending_of, prepare_deletion, prepare_rows, prepared, without_parent,
}
use prv_application.Deletion.Blobs.{
  BlobBatch, Storage, blob_before, blob_id, delete_blob_batch, delete_blobs, mark_batch,
  mark_deleted, pending_batch, remove_batch, remove_objects,
}
use prv_application.Deletion.Removing.{mark_deleted-pending, pending_of}
use prv_application.Deletion.Valid.{found_job}

-- A row that satisfies the test leaves the rows that do not.
fewer_left {ℓ} :
    {A : Type ℓ} (p : A → Bool) (xs : List A)
    → any_of p xs ≡ true
    → suc (length (select (λ x. not (p x)) xs)) ≤ length xs
fewer_left p [] h = cc
fewer_left p (x ∷ xs) h = elim (Bool-cases (p x)) [
  | inl e ↦ ground (arith, length-select (λ x. not (p x)) xs)
  | inr e ↦ ground (arith, fewer_left p xs)
]

-- The first of a positive number of rows is taken.
any_of-taken :
    (n : ℕ) (bs : List DeletionBlob)
    → 1 ≤ length bs
    → any_of (λ (b : DeletionBlob). elem b.id (map blob_id (take (suc n) bs))) bs ≡ true
any_of-taken n [] h = absurd (omega arith)
any_of-taken n (b ∷ bs) h = ground arith

module _ (refuses : String → String → Bool) (db : Tables) (size : ℕ) where
  mark_batch-fewer :
      (j : DeletionJob)
      → (mark_batch refuses db j (pending_batch db j.id (suc size))).1.has_more ≡ true
      → suc
          (length (pending_of j.id (mark_batch refuses db j (pending_batch db j.id (suc size))).0))
        ≤ length (pending_of j.id db)
  unfolding mark_batch pending_batch
  mark_batch-fewer j more =
      let pending = pending_of j.id db in
      let sorted = sort_by blob_before pending in
      let ids = map blob_id (take (suc size) sorted) in
      let left = mark_deleted-pending j.id ids db.deletion_blobs in
      let after = map (mark_deleted ids) db.deletion_blobs in
      let remains = any_of-length_pos (is_pending_of j.id) after more in
      let marked = λ (b : DeletionBlob). elem b.id ids in
      let among = length-select (λ (b : DeletionBlob). not (marked b)) pending in
      let taken =
        any_of-taken size sorted
          (omega (arith, ap length left, remains, among, length-sort_by blob_before pending)) in
      omega (
        arith,
        ap length left,
        fewer_left marked pending (sym (any_of-sort_by blob_before marked pending) ∙ taken),
      )

  remove_batch-fewer :
      (j : DeletionJob) (run : Storage × Bool) (left : Storage) (x : Tables × BlobBatch)
      → remove_batch refuses db j (pending_batch db j.id (suc size)) run ≡ (left, ok x)
      → x.1.has_more ≡ true
      → suc (length (pending_of j.id x.0)) ≤ length (pending_of j.id db)
  remove_batch-fewer j (objects, false) left x h more = absurd (err≢ok (ap (λ o. o.1) h))
  remove_batch-fewer j (objects, true) left x h more =
      subst
        (λ (y : Tables × BlobBatch).
          y.1.has_more ≡ true → suc (length (pending_of j.id y.0)) ≤ length (pending_of j.id db))
        (ok-injective (ap (λ o. o.1) h)) (mark_batch-fewer j) more

  -- A batch that is not the last leaves fewer pending rows.
  pub delete_blob_batch-fewer :
      (objects left : Storage) (job_id : ℕ) (x : Tables × BlobBatch)
      → delete_blob_batch refuses db objects job_id (suc size) ≡ (left, ok x)
      → x.1.has_more ≡ true
      → suc (length (pending_of job_id x.0)) ≤ length (pending_of job_id db)
  unfolding delete_blob_batch
  delete_blob_batch-fewer objects left job_id x h more = from (get_job db job_id) refl h
    where
      from :
          (o : Option DeletionJob)
          → get_job db job_id ≡ o
          → delete_blobs refuses db objects o (suc size) ≡ (left, ok x)
          → suc (length (pending_of job_id x.0)) ≤ length (pending_of job_id db)
      from none e h =
          absurd (err≢ok (ap (λ (o : Storage × Result DeletionError (Tables × BlobBatch)). o.1) h))
      from (some j) e h =
          subst (λ (i : ℕ). suc (length (pending_of i x.0)) ≤ length (pending_of i db))
            (found_job db job_id e)
            (remove_batch-fewer j
              (remove_objects refuses (pending_batch db j.id (suc size)) objects) left x h more)

abbrev pub SameItems : Tables → Tables → Type 0
SameItems db after = map item_id after.items ≡ map item_id db.items

saved_items :
    (db : Tables) (j : DeletionJob) → Ensures (λ saved. saved.items ≡ db.items) (save_job db j)
unfolding save_job
saved_items db j =
    Ensures-bind (λ saved. saved.items ≡ db.items)
      (refuse (any_of (rivals j) db.jobs) unique_violation) _ λ u e. refl

without_parent-ids :
    (c : ℕ) (is : List CollectionItem) → map item_id (map (without_parent c) is) ≡ map item_id is
without_parent-ids c [] = refl
without_parent-ids c (i ∷ is) = elim (Bool-cases (is_item_of c i)) [
  | inl e ↦ rw e (ap (◌∷◌ i.id) (without_parent-ids c is))
  | inr e ↦ rw e (ap (◌∷◌ i.id) (without_parent-ids c is))
]

pub prepare_deletion-items :
    (db : Tables) (job_id now : ℕ)
    → Ensures (λ (x : Tables × DeletionJob). SameItems db x.0) (prepare_deletion db job_id now)
unfolding prepare_deletion prepare_rows
prepare_deletion-items db job_id now =
    Ensures-bind (λ x. SameItems db x.0) (required (get_job db job_id) job_not_found) _
      λ j e.
        if_holds (Ensures (λ (x : Tables × DeletionJob). SameItems db x.0)) (is_completed j.status)
          (ok (db, j)) (prepare_rows db j now) refl
          (Ensures-bind (λ x. SameItems db x.0) (save_job db (prepared j now)) _
            λ saved g.
              without_parent-ids j.collection_id saved.items
              ∙ ap (map item_id) (
                  Ensures-at (λ saved. saved.items ≡ db.items) (save_job db (prepared j now)) g
                    (saved_items db (prepared j now))))

pub mark_validating-items :
    (db : Tables) (job_id : ℕ)
    → Ensures (λ (x : Tables × Option ℕ). SameItems db x.0) (mark_validating db job_id)
unfolding mark_validating
mark_validating-items db job_id =
    Ensures-bind (λ x. SameItems db x.0) (required (get_job db job_id) job_not_found) _
      λ j e.
        if_holds (Ensures (λ (x : Tables × Option ℕ). SameItems db x.0)) (is_completed j.status)
          (ok (db, none)) _ refl
          (Ensures-bind (λ x. SameItems db x.0) (save_job db (record j { status = validating })) _
            λ saved g. ap (map item_id) (
              Ensures-at (λ saved. saved.items ≡ db.items)
                (save_job db (record j { status = validating })) g
                (saved_items db (record j { status = validating }))))
