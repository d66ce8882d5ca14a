-- ===== src/Deletion/Valid.antt =====
-- What the deletion component keeps at all times, and that each of its operations keeps it.
use prv_application.Prelude.{
  ==→≡, Bool-cases, Ensures, Ensures-bind, List, Option-cases, Result, [], any_of, ap, arith,
  distinct, elem, err, false, find_first-holds, if_holds, inl, inr, length, length-append,
  length-select, map, none, ok, refl, refuse, select, select-append, some, true, ℕ, ◌&&◌, ◌++◌,
  ◌==◌, ◌||◌, ◌∷◌, ◌≡◌,
}
use prv_application.Deletion.{
  ClientCollection, DeletionError, DeletionJob, ProcessingRun, Tables, active_text_processing,
  already_deleting, collection_not_found, deleting, get_collection, get_job, put_collection,
  put_job, required, rivals, save_job,
}
use prv_application.Deletion.Jobs.{
  create_deletion_job, create_new_job, create_unless_active, create_unless_deleting,
  is_active_job_of, is_deleting, is_job_of, latest_job, new_job, unchanged,
}
use prv_application.Deletion.Needed.{BlobsSafe}
use prv_application.Deletion.Active.{JobsValid, job_key, saved-JobsValid}

pub record DeletionValid (db : Tables) : Type 0 where
  pub blobs : BlobsSafe db
  pub jobs : JobsValid db.jobs

-- The tables of a result.
abbrev pub ValidAt {ℓ} : {A : Type ℓ} → Tables × A → Type 0
ValidAt r = DeletionValid r.0

pub same_blobs-Valid :
    (db : Tables) (jobs : List DeletionJob) (collections : List ClientCollection)
    → BlobsSafe db
    → JobsValid jobs
    → DeletionValid (record db { jobs = jobs; collections = collections })
same_blobs-Valid db jobs collections b v = record {
  blobs = record { stored = b.stored; unneeded = b.unneeded };
  jobs = v;
}

pub found_job : (db : Tables) (i : ℕ) {j : DeletionJob} → get_job db i ≡ some j → j.id ≡ i
found_job db i h = ==→≡ _ i (find_first-holds (λ (x : DeletionJob). x.id == i) db.jobs h)

pub save_job-Valid :
    (db : Tables) (j : DeletionJob) → DeletionValid db → Ensures DeletionValid (save_job db j)
unfolding save_job
save_job-Valid db j v = elim (Bool-cases (any_of (rivals j) db.jobs)) [
  | inl e ↦ rw e tt
  | inr e ↦ rw e (
      same_blobs-Valid db (put_job j db.jobs) db.collections v.blobs
        (saved-JobsValid j db.jobs e v.jobs))
]

-- A new job of a collection without an active one.
no_latest : (js : List DeletionJob) → latest_job js ≡ none → js ≡ []
unfolding latest_job
no_latest [] h = refl
no_latest (j ∷ js) h = cc

appended-JobsValid :
    (j : DeletionJob) (js : List DeletionJob)
    → elem j.id (map job_key js) ≡ false
    → select (is_active_job_of j.collection_id) js ≡ []
    → JobsValid js
    → JobsValid (js ++ j ∷ [])
appended-JobsValid j js fresh idle v = record {
  keys = distinct_appended js v.keys fresh;
  one = λ c.
      let parts = ap length (select-append (is_active_job_of c) js (j ∷ [])) in
      let sum =
        length-append (select (is_active_job_of c) js) (select (is_active_job_of c) (j ∷ [])) in
      elim (Bool-cases (j.collection_id == c)) [
        | inl e ↦
            let none_active =
              ap (λ (d : ℕ). length (select (is_active_job_of d) js)) (==→≡ j.collection_id c e) in
            omega (
              arith,
              parts,
              sum,
              none_active,
              ap length idle,
              length-select (is_active_job_of c) (j ∷ []),
            )
        | inr e ↦
            let not_here : length (select (is_active_job_of c) (j ∷ [])) ≡ 0 = ground (arith, e) in
            omega (arith, parts, sum, not_here, v.one c)
      ];
}
  where
    distinct_appended :
        (ks : List DeletionJob)
        → distinct (map job_key ks) ≡ true
        → elem j.id (map job_key ks) ≡ false
        → distinct (map job_key (ks ++ j ∷ [])) ≡ true
    distinct_appended [] d f = refl
    distinct_appended (k ∷ ks) d f = ground (arith, distinct_appended ks, elem_appended k.id ks)
      where
        elem_appended :
            (i : ℕ) (ls : List DeletionJob)
            → elem i (map job_key (ls ++ j ∷ [])) ≡ (elem i (map job_key ls) || (j.id == i))
        elem_appended i [] = ground arith
        elem_appended i (l ∷ ls) = ground (arith, elem_appended i ls)

unchanged-Valid :
    (db : Tables) (r : Result DeletionError DeletionJob)
    → DeletionValid db
    → Ensures ValidAt (unchanged db r)
unchanged-Valid db (ok j) v = v
unchanged-Valid db (err e) v = tt

created-Valid :
    (db : Tables) (user id now : ℕ) (row : ClientCollection)
    → elem id (map job_key db.jobs) ≡ false
    → DeletionValid db
    → select (is_active_job_of row.id) db.jobs ≡ []
    → Ensures ValidAt (create_unless_deleting db row id now user)
unfolding create_unless_deleting create_new_job
created-Valid db user id now row fresh v idle =
    if_holds (Ensures ValidAt) (is_deleting row.status)
      (unchanged db (required (latest_job (select (is_job_of row.id) db.jobs)) already_deleting))
      (create_new_job db row id now user)
      (unchanged-Valid db
        (required (latest_job (select (is_job_of row.id) db.jobs)) already_deleting) v)
      (Ensures-bind ValidAt
        (refuse (any_of (λ (r : ProcessingRun). (r.collection_id == row.id) && r.is_active) db.runs)
          active_text_processing)
        (λ _. ok (
          record db {
            collections = put_collection (record row { status = deleting }) db.collections;
            jobs = db.jobs ++ new_job db row id now user ∷ [];
          },
          new_job db row id now user,
        ))
        λ t e.
          same_blobs-Valid db (db.jobs ++ new_job db row id now user ∷ [])
            (put_collection (record row { status = deleting }) db.collections) v.blobs
            (appended-JobsValid (new_job db row id now user) db.jobs fresh idle v.jobs))

pub create_deletion_job-Valid :
    (db : Tables) (c user id now : ℕ)
    → elem id (map job_key db.jobs) ≡ false
    → DeletionValid db
    → Ensures ValidAt (create_deletion_job db c user id now)
unfolding create_deletion_job create_unless_active
create_deletion_job-Valid db c user id now fresh v =
    Ensures-bind ValidAt (required (get_collection db c) collection_not_found) _ λ row e.
      elim (Option-cases (latest_job (select (is_active_job_of row.id) db.jobs))) [
        | inr (existing, f) ↦ rw f v
        | inl f ↦ rw f (
            created-Valid db user id now row fresh v
              (no_latest (select (is_active_job_of row.id) db.jobs) f))
      ]
