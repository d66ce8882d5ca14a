-- ===== src/Deletion/Failing.antt =====
-- What the failure of a deletion writes.
use prv_application.Prelude.{
  ==→≡, Bool-cases, List, Option, [], ap, arith, drop, false, find_first, find_first-holds, inl,
  inr, length, length-take-min, min, none, refl, some, sym, take, take-drop, ℕ, ◌++◌, ◌+◌, ◌==◌,
  ◌∙◌, ◌∷◌, ◌≡◌, ◌≤◌,
}
use prv_application.Deletion.{
  ClientCollection, CollectionStatus, DeletionJob, Tables, failed, get_collection, get_job,
  put_collection, put_job,
}
use prv_application.Deletion.Jobs.{fail_deletion, fail_job, is_untouched, set_collection_status}
use prv_application.Deletion.Stable.{find_first-put_job}

find_first-put_collection :
    (i : ℕ) (d : ClientCollection) (cs : List ClientCollection) {c : ClientCollection}
    → d.id ≡ i
    → find_first (λ (x : ClientCollection). x.id == i) cs ≡ some c
    → find_first (λ (x : ClientCollection). x.id == i) (put_collection d cs) ≡ some d
unfolding put_collection
find_first-put_collection i d [] e h = cc
find_first-put_collection i d (x ∷ xs) e h = elim (Bool-cases (x.id == d.id)) [
  | inl same ↦ rw same (ground (arith, e))
  | inr other ↦
      let here : (x.id == i) ≡ false = ground (arith, e, other) in
      rw (other, here) (find_first-put_collection i d xs e (rw here at h))
]

-- The collection with its former status.
abbrev pub restored : DeletionJob → Option ClientCollection → Option ClientCollection
restored j none = none
restored j (some c) = some (record c { status = j.previous_collection_status })

set_collection_status-restored :
    (db : Tables) (j : DeletionJob) (o : Option ClientCollection)
    → get_collection db j.collection_id ≡ o
    → get_collection (set_collection_status o j.previous_collection_status db) j.collection_id
      ≡ restored j o
set_collection_status-restored db j none h = h
set_collection_status-restored db j (some c) h =
    find_first-put_collection j.collection_id (record c { status = j.previous_collection_status })
      db.collections
      (==→≡ c.id j.collection_id
        (find_first-holds (λ (x : ClientCollection). x.id == j.collection_id) db.collections h))
      h

-- The job that a failure stores.
abbrev pub failed_job : DeletionJob → List ℕ → ℕ → DeletionJob
failed_job j message now = record j {
  status = failed;
  error_message = some (take 4000 message);
  completed_at = some now;
}

-- A job that records the failure, with the collection and the counts of the one before.
pub record RecordsFailure (j k : DeletionJob) (message : List ℕ) (now : ℕ) : Type 0 where
  pub status : k.status ≡ failed
  pub text :
      (kept : List ℕ) × (cut : List ℕ) × (k.error_message ≡ some kept)
      × (message ≡ kept ++ cut)
      × (length kept ≡ min 4000 (length message))
  pub completed_at : k.completed_at ≡ some now
  pub of_collection : (k.id ≡ j.id) × (k.collection_id ≡ j.collection_id)
  pub counts :
      (k.deleted_item_count ≡ j.deleted_item_count)
      × (k.deleted_artifact_count ≡ j.deleted_artifact_count)
      × (k.blob_count ≡ j.blob_count)

pub record Fails (db : Tables) (j : DeletionJob) (message : List ℕ) (now : ℕ) (after : Tables)
    : Type 0 where
  pub job : (k : DeletionJob) × (get_job after j.id ≡ some k) × RecordsFailure j k message now
  pub given_back :
      j.deleted_item_count + j.deleted_artifact_count + j.blob_count ≡ 0
      → get_collection after j.collection_id ≡ restored j (get_collection db j.collection_id)
  pub kept :
      1 ≤ j.deleted_item_count + j.deleted_artifact_count + j.blob_count
      → get_collection after j.collection_id ≡ get_collection db j.collection_id
  pub rows :
      (after.items ≡ db.items)
      × (after.artifacts ≡ db.artifacts)
      × (after.deletion_blobs ≡ db.deletion_blobs)

set_collection_status-rows :
    (db : Tables) (o : Option ClientCollection) (s : CollectionStatus)
    → let after = set_collection_status o s db in
      (after.jobs ≡ db.jobs)
      × (after.items ≡ db.items)
      × (after.artifacts ≡ db.artifacts)
      × (after.deletion_blobs ≡ db.deletion_blobs)
set_collection_status-rows db none s = (refl, refl, refl, refl)
set_collection_status-rows db (some c) s = (refl, refl, refl, refl)

fail_job-Fails :
    (db : Tables) (j : DeletionJob) (message : List ℕ) (now : ℕ)
    → get_job db j.id ≡ some j
    → Fails db j message now (fail_job db (some j) message now).0
unfolding fail_job
fail_job-Fails db j message now h =
    let saved = record db { jobs = put_job (failed_job j message now) db.jobs } in
    let failure : RecordsFailure j (failed_job j message now) message now = record {
      status = refl;
      text = (
        take 4000 message,
        drop 4000 message,
        refl,
        sym (take-drop 4000 message),
        length-take-min 4000 message,
      );
      completed_at = refl;
      of_collection = (refl, refl);
      counts = (refl, refl, refl);
    } in
    let stored = find_first-put_job j.id (failed_job j message now) db.jobs refl h in
    let o = get_collection db j.collection_id in
    elim (Bool-cases (is_untouched j)) [
      | inr e ↦ rw e (record {
        job = (failed_job j message now, stored, failure);
        given_back = λ z. absurd (ground (arith, e));
        kept = λ _. refl;
        rows = (refl, refl, refl);
      })
      | inl e ↦
          let (jobs, items, artifacts, rows) =
            set_collection_status-rows saved o j.previous_collection_status in
          rw e (record {
            job = (
              failed_job j message now,
              ap (find_first (λ (x : DeletionJob). x.id == j.id)) jobs ∙ stored,
              failure,
            );
            given_back = λ _. set_collection_status-restored saved j o refl;
            kept = λ p. absurd (ground (arith, e));
            rows = (items, artifacts, rows);
          })
    ]

-- The failure of a stored job marks it as failed, with the first 4000 characters of the message and
-- its counts as they were. It gives the collection its former status back if no item, artifact or
-- blob of it has been deleted or scheduled, and otherwise leaves the collection as it is; no item,
-- artifact or scheduled blob changes.
pub fail_deletion-Fails :
    (db : Tables) (j : DeletionJob) (message : List ℕ) (now : ℕ)
    → get_job db j.id ≡ some j
    → Fails db j message now (fail_deletion db j.id message now).0
unfolding fail_deletion
fail_deletion-Fails db j message now h = rw h (fail_job-Fails db j message now h)
