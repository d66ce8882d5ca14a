-- ===== src/Deletion/Stable.antt =====
-- What the deletion of artifacts leaves as it was, and the job that a write stores.
use prv_application.Prelude.{
  Bool-cases, List, Option, [], any_of, arith, false, find_first, inl, inr, none, refl, some, ℕ,
  ◌==◌, ◌∙◌, ◌∷◌, ◌≡◌,
}
use prv_application.Deletion.{ContentBlob, DeletionJob, Tables, put_job}
use prv_application.Deletion.Rows.{
  blobs_of, delete_artifacts_and_schedule_blobs, schedule_blob, schedule_blobs, schedule_found,
  uses_blob, without_artifacts,
}

-- The items and the jobs are those of before.
abbrev pub SameRows : Tables → Tables → Type 0
SameRows after before = (after.items ≡ before.items) × (after.jobs ≡ before.jobs)

module _ (new_id : ℕ → ℕ) where
  schedule_found-SameRows :
      (job_id : ℕ) (db : Tables) (o : Option ContentBlob)
      → SameRows (schedule_found new_id job_id db o).0 db
  schedule_found-SameRows job_id db none = (refl, refl)
  schedule_found-SameRows job_id db (some b) = (refl, refl)

  schedule_blob-SameRows :
      (job_id b : ℕ) (db : Tables) → SameRows (schedule_blob new_id job_id b db).0 db
  unfolding schedule_blob
  schedule_blob-SameRows job_id b db = elim (Bool-cases (any_of (uses_blob b) db.artifacts)) [
    | inl used ↦ rw used (refl, refl)
    | inr free ↦ rw free (
        schedule_found-SameRows job_id db
          (find_first (λ (c : ContentBlob). c.id == b) db.content_blobs))
  ]

  schedule_blobs-SameRows :
      (job_id : ℕ) (bs : List ℕ) (db : Tables) → SameRows (schedule_blobs new_id job_id bs db).0 db
  unfolding schedule_blobs
  schedule_blobs-SameRows job_id [] db = (refl, refl)
  schedule_blobs-SameRows job_id (b ∷ bs) db =
      let (items, jobs) = schedule_blobs-SameRows job_id bs (schedule_blob new_id job_id b db).0 in
      let (items', jobs') = schedule_blob-SameRows job_id b db in (items ∙ items', jobs ∙ jobs')

  pub delete_artifacts-SameRows :
      (job_id : ℕ) (ids : List ℕ) (db : Tables)
      → SameRows (delete_artifacts_and_schedule_blobs new_id job_id ids db).0 db
  unfolding delete_artifacts_and_schedule_blobs without_artifacts
  delete_artifacts-SameRows job_id [] db = (refl, refl)
  delete_artifacts-SameRows job_id (i ∷ is) db =
      schedule_blobs-SameRows job_id (blobs_of (i ∷ is) db) (without_artifacts (i ∷ is) db)

-- The job with an id is the one last written.
pub find_first-put_job :
    (i : ℕ) (k : DeletionJob) (js : List DeletionJob) {j : DeletionJob}
    → k.id ≡ i
    → find_first (λ (x : DeletionJob). x.id == i) js ≡ some j
    → find_first (λ (x : DeletionJob). x.id == i) (put_job k js) ≡ some k
unfolding put_job
find_first-put_job i k [] e h = cc
find_first-put_job i k (x ∷ xs) e h = elim (Bool-cases (x.id == k.id)) [
  | inl same ↦ rw same (ground (arith, e))
  | inr other ↦
      let here : (x.id == i) ≡ false = ground (arith, e, other) in
      rw (other, here) (find_first-put_job i k xs e (rw here at h))
]
