-- ===== src/Deletion/Active.antt =====
-- A collection has at most one active deletion job: the writes of a job keep this.
use prv_application.Prelude.{
  ==→≡, All, Bool-cases, List, [], any_of, ap, arith, distinct, distinct-select, elem, false,
  find_first, inl, inr, length, map, refl, select, some, some-injective, subst, sym, true, ℕ, ◌==◌,
  ◌∙◌, ◌∷◌, ◌≡◌, ◌≤◌,
}
use prv_application.Deletion.{DeletionJob, in_active, put_job, rivals}
use prv_application.Deletion.Jobs.{is_active_job_of}

abbrev pub job_key : DeletionJob → ℕ
job_key j = j.id

-- Jobs have different ids, and no collection has two active ones.
pub record JobsValid (jobs : List DeletionJob) : Type 0 where
  pub keys : distinct (map job_key jobs) ≡ true
  pub one : (c : ℕ) → length (select (is_active_job_of c) jobs) ≤ 1

map-put_job :
    (j : DeletionJob) (js : List DeletionJob) → map job_key (put_job j js) ≡ map job_key js
unfolding put_job
map-put_job j [] = refl
map-put_job j (k ∷ ks) = ground (arith, map-put_job j ks)

put_job_absent :
    (j : DeletionJob) (js : List DeletionJob)
    → elem j.id (map job_key js) ≡ false
    → put_job j js ≡ js
unfolding put_job
put_job_absent j [] h = refl
put_job_absent j (k ∷ ks) h = ground (arith, put_job_absent j ks)

-- A job that is not active for the collection makes no more active ones.
put_job-less :
    (c : ℕ) (j : DeletionJob) (js : List DeletionJob)
    → is_active_job_of c j ≡ false
    → length (select (is_active_job_of c) (put_job j js)) ≤ length (select (is_active_job_of c) js)
unfolding put_job
put_job-less c j [] h = omega arith
put_job-less c j (k ∷ ks) h = ground (arith, put_job-less c j ks h, h)

length-head :
    (c : ℕ) (j k : DeletionJob) (js : List DeletionJob)
    → is_active_job_of c j ≡ is_active_job_of c k
    → length (select (is_active_job_of c) (j ∷ js)) ≡ length (select (is_active_job_of c) (k ∷ js))
length-head c j k js e = ground (arith, e)

-- A job as active as the one that it replaces.
put_job-same :
    (c : ℕ) (j : DeletionJob) (js : List DeletionJob) {k : DeletionJob}
    → distinct (map job_key js) ≡ true
    → find_first (λ (x : DeletionJob). x.id == j.id) js ≡ some k
    → is_active_job_of c j ≡ is_active_job_of c k
    → length (select (is_active_job_of c) (put_job j js)) ≡ length (select (is_active_job_of c) js)
unfolding put_job
put_job-same c j [] d f e = refl
put_job-same c j (x ∷ xs) {k} d f e = elim (Bool-cases (x.id == j.id)) [
  | inl here ↦
      let same = ==→≡ x.id j.id here in
      let absent : elem j.id (map job_key xs) ≡ false =
        subst (λ (i : ℕ). elem i (map job_key xs) ≡ false) same (ground arith) in
      let found : x ≡ k = some-injective x k (rw here at f) in
      rw (here, put_job_absent j xs absent)
        (length-head c j x xs (e ∙ ap (is_active_job_of c) (sym found)))
  | inr other ↦ rw other (ground (arith, put_job-same c j xs (ground arith) (rw other at f) e))
]

-- Jobs with one id and different ids are at most one.
length-same_id :
    (i : ℕ) (js : List DeletionJob)
    → distinct (map job_key js) ≡ true
    → All (λ (k : DeletionJob). (k.id == i) ≡ true) js
    → length js ≤ 1
length-same_id i [] d h = omega arith
length-same_id i (j ∷ []) d h = omega arith
length-same_id i (j ∷ k ∷ ks) d (hj, (hk, h)) = absurd (ground (arith, hj, hk))

put_job-no_rival :
    (c : ℕ) (j : DeletionJob) (js : List DeletionJob)
    → any_of (rivals j) js ≡ false
    → is_active_job_of c j ≡ true
    → All (λ (k : DeletionJob). (k.id == j.id) ≡ true) (select (is_active_job_of c) (put_job j js))
unfolding put_job
put_job-no_rival c j [] h a = tt
put_job-no_rival c j (k ∷ ks) h a = elim (Bool-cases (k.id == j.id)) [
  | inl e ↦ rw (e, a) (ground arith, put_job-no_rival c j ks (ground arith) a)
  | inr e ↦
      let passed : is_active_job_of c k ≡ false = ground (arith, h, a, e) in
      rw (e, passed) (put_job-no_rival c j ks (ground arith) a)
]

keys-put_job :
    (j : DeletionJob) (js : List DeletionJob)
    → distinct (map job_key js) ≡ true
    → distinct (map job_key (put_job j js)) ≡ true
keys-put_job j js d = subst (λ (is : List ℕ). distinct is ≡ true) (sym (map-put_job j js)) d

-- The three kinds of writes.
pub inactive-JobsValid :
    (j : DeletionJob) (js : List DeletionJob)
    → in_active j.status ≡ false
    → JobsValid js
    → JobsValid (put_job j js)
inactive-JobsValid j js h v = record {
  keys = keys-put_job j js v.keys;
  one = λ c. omega (arith, put_job-less c j js (ground (arith, h)), v.one c);
}

pub same-JobsValid :
    (j : DeletionJob) (js : List DeletionJob) {k : DeletionJob}
    → find_first (λ (x : DeletionJob). x.id == j.id) js ≡ some k
    → j.collection_id ≡ k.collection_id
    → j.status ≡ k.status
    → JobsValid js
    → JobsValid (put_job j js)
same-JobsValid j js {k} f e s v = record {
  keys = keys-put_job j js v.keys;
  one = λ c. omega (arith, put_job-same c j js v.keys f (ground (arith, e, s)), v.one c);
}

pub saved-JobsValid :
    (j : DeletionJob) (js : List DeletionJob)
    → any_of (rivals j) js ≡ false
    → JobsValid js
    → JobsValid (put_job j js)
saved-JobsValid j js h v = record {
  keys = keys-put_job j js v.keys;
  one = λ c. elim (Bool-cases (is_active_job_of c j)) [
    | inl a ↦
        length-same_id j.id (select (is_active_job_of c) (put_job j js))
          (distinct-select job_key (is_active_job_of c) (put_job j js) (keys-put_job j js v.keys))
          (put_job-no_rival c j js h a)
    | inr a ↦ omega (arith, put_job-less c j js a, v.one c)
  ];
}
