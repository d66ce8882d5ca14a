-- ===== src/Deletion/Batches.antt =====
-- What a batch of items deletes: as many items of the collection as it counts, and no other item.
use prv_application.Deletion.Stable.{SameRows, delete_artifacts-SameRows}
use prv_application.Prelude.{
  All, All-intro, All-map, All-sort_by, All-take, Bool-cases, List, Memᴰ, [], any_of,
  any_of-length_pos, ap, arith, distinct, distinct-same, distinct-select, distinct-sort_by,
  distinct-take, elem, elem-map-select, elem-map-take, elem-sort_by, elem_keys, false, inl, inr,
  length, length-map, length-select-not, length-sort_by, length-take, length-take_pos, map, not,
  refl, select, select-select_kept, select_swap, sort_by, subst, sym, take, true, ℕ, ◌+◌, ◌==◌, ◌∙◌,
  ◌∷◌, ◌≡◌, ◌≤◌,
}
use prv_application.Deletion.{CollectionItem, DeletionJob, Tables}
use prv_application.Deletion.Jobs.{is_item_of}
use prv_application.Deletion.Rows.{
  ItemBatch, batch_ids, delete_artifacts_and_schedule_blobs, delete_batch, delete_items,
  item_artifact_ids, item_before, item_id, without_item_rows,
}

abbrev pub items_of : ℕ → Tables → List CollectionItem
items_of c db = select (is_item_of c) db.items

-- Items have different ids.
abbrev pub HasItemKeys : Tables → Type 0
HasItemKeys db = distinct (map item_id db.items) ≡ true

-- What a batch for the collection `c` did.
pub record Deletes (c batch_size : ℕ) (db after : Tables) (batch : ItemBatch) : Type 0 where
  pub counted : length (items_of c after) + batch.deleted_items ≡ length (items_of c db)
  pub limited : batch.deleted_items ≤ batch_size
  pub progress : 1 ≤ batch_size → 1 ≤ length (items_of c db) → 1 ≤ batch.deleted_items
  pub more : 1 ≤ batch_size → batch.has_more ≡ any_of (is_item_of c) after.items
  pub others : (d : ℕ) → (d == c) ≡ false → items_of d after ≡ items_of d db
  pub keys : HasItemKeys after

module _ (db : Tables) (c batch_size : ℕ) (unique : HasItemKeys db) where
  sorted : List CollectionItem
  sorted = sort_by item_before (items_of c db)

  abbrev ids : List ℕ
  ids = batch_ids db c batch_size

  ids-distinct : distinct ids ≡ true
  unfolding batch_ids sorted
  ids-distinct = distinct-take item_id batch_size sorted (
      distinct-sort_by item_id item_before (items_of c db)
        (distinct-select item_id (is_item_of c) db.items unique))

  ids-present : All (λ i. elem i (map item_id (items_of c db)) ≡ true) ids
  unfolding batch_ids sorted
  ids-present =
      All-map (λ i. elem i (map item_id (items_of c db)) ≡ true) item_id (take batch_size sorted)
        (All-take (λ (x : CollectionItem). elem x.id (map item_id (items_of c db)) ≡ true)
          batch_size sorted
          (All-sort_by item_before
            (λ (x : CollectionItem). elem x.id (map item_id (items_of c db)) ≡ true) (items_of c db)
            (elem_keys item_id (items_of c db))))

  ids-counted :
      length (select (is_item_of c) (select (λ (i : CollectionItem). not (elem i.id ids)) db.items))
        + length ids
      ≡ length (items_of c db)
  ids-counted = omega (
    arith,
    ap length (select_swap (is_item_of c) (λ (i : CollectionItem). not (elem i.id ids)) db.items),
    length-select-not item_id ids (items_of c db)
        (distinct-select item_id (is_item_of c) db.items unique) ids-distinct ids-present,
  )

  ids-limited : length ids ≤ batch_size
  unfolding batch_ids sorted
  ids-limited =
      omega (arith, length-map item_id (take batch_size sorted), length-take batch_size sorted)

  ids-nonempty : 1 ≤ batch_size → 1 ≤ length (items_of c db) → 1 ≤ length ids
  unfolding batch_ids sorted
  ids-nonempty size some_left = omega (
    arith,
    length-map item_id (take batch_size sorted),
    length-take_pos batch_size sorted size
        (omega (arith, length-sort_by item_before (items_of c db), some_left)),
  )

  -- An item of the batch is one of the collection.
  in_batch :
      (d : ℕ) (x : CollectionItem)
      → (d == c) ≡ false
      → Memᴰ x db.items
      → is_item_of d x ≡ true
      → not (elem x.id ids) ≡ true
  unfolding batch_ids sorted
  in_batch d x other m of_d = elim (Bool-cases (elem x.id ids)) [
    | inr e ↦ rw e
    | inl e ↦
        let taken : elem x.id (map item_id sorted) ≡ true =
          ground (arith, e, elem-map-take item_id batch_size x.id sorted) in
        let (y, n, of_c, same) =
          elem-map-select item_id (is_item_of c) x.id db.items
            (sym (elem-sort_by item_before item_id x.id (items_of c db)) ∙ taken) in
        let equal = distinct-same item_id db.items unique n m same in
        absurd
          (ground (arith, other, of_d, of_c, ap (λ (z : CollectionItem). z.collection_id) equal))
  ]

  ids-others :
      (d : ℕ)
      → (d == c) ≡ false
      → select (is_item_of d) (select (λ (i : CollectionItem). not (elem i.id ids)) db.items)
        ≡ items_of d db
  ids-others d other =
      select-select_kept (is_item_of d) (λ (i : CollectionItem). not (elem i.id ids)) db.items
        (All-intro (λ x. is_item_of d x ≡ true → not (elem x.id ids) ≡ true) db.items
          λ x m of_d. in_batch d x other m of_d)

-- A batch that is not empty, of the first items of the job's collection.
module _ (new_id : ℕ → ℕ) (db : Tables) (j : DeletionJob) where
  pub cleared-SameRows :
      (is : List ℕ)
      → SameRows
          (delete_artifacts_and_schedule_blobs new_id j.id
            (item_artifact_ids is db)
            (without_item_rows j.collection_id is db)).0
          db
  cleared-SameRows is =
      let (items, jobs) =
        delete_artifacts-SameRows new_id j.id (item_artifact_ids is db)
          (without_item_rows j.collection_id is db) in
      (items ∙ (unfold without_item_rows in refl), jobs ∙ (unfold without_item_rows in refl))

  abbrev kept_items : List ℕ → List CollectionItem
  kept_items is = select (λ (i : CollectionItem). not (elem i.id is)) db.items

  delete_items-items : (is : List ℕ) → (delete_items new_id db j is).0.items ≡ kept_items is
  unfolding delete_items
  delete_items-items is =
      ap (λ (xs : List CollectionItem). select (λ (i : CollectionItem). not (elem i.id is)) xs)
        (cleared-SameRows is).0

  delete_items-has_more :
      (is : List ℕ)
      → (delete_items new_id db j is).1.has_more
        ≡ any_of (is_item_of j.collection_id) (delete_items new_id db j is).0.items
  unfolding delete_items
  delete_items-has_more is = refl

  delete_items-deleted_items :
      (is : List ℕ) → (delete_items new_id db j is).1.deleted_items ≡ length is
  unfolding delete_items
  delete_items-deleted_items is = refl

module _ (new_id : ℕ → ℕ) (db : Tables) (j : DeletionJob) (batch_size : ℕ)
    (unique : HasItemKeys db) where
  nothing-Deletes :
      batch_ids db j.collection_id batch_size ≡ []
      → Deletes j.collection_id batch_size db db
          (record { deleted_items = 0; deleted_artifacts = 0; has_more = false })
  nothing-Deletes none_found = record {
    counted = omega arith;
    limited = omega arith;
    progress = λ size left. absurd (stuck size left);
    more = λ size. (elim (Bool-cases (any_of (is_item_of j.collection_id) db.items)) [
      | inr e ↦ sym e
      | inl e ↦ absurd (stuck size (any_of-length_pos (is_item_of j.collection_id) db.items e))
    ]);
    others = λ d e. refl;
    keys = unique;
  }
    where
      stuck : 1 ≤ batch_size → 1 ≤ length (items_of j.collection_id db) → ⊥
      stuck size left =
          omega (
            arith,
            ap length none_found,
            ids-nonempty db j.collection_id batch_size unique size left,
          )

  some-Deletes :
      (is : List ℕ)
      → batch_ids db j.collection_id batch_size ≡ is
      → Deletes j.collection_id batch_size db
          (delete_items new_id db j is).0
          (delete_items new_id db j is).1
  some-Deletes is e =
      let c = j.collection_id in
      let items = delete_items-items new_id db j is in
      let deleted = delete_items-deleted_items new_id db j is in
      let kept = ap (λ (xs : List ℕ). kept_items new_id db j xs) e in
      record {
        counted = omega (
          arith,
          deleted,
          ap length e,
          ap (λ (xs : List CollectionItem). length (select (is_item_of c) xs)) items,
          ap (λ (xs : List CollectionItem). length (select (is_item_of c) xs)) kept,
          ids-counted db c batch_size unique,
        );
        limited = omega (arith, deleted, ap length e, ids-limited db c batch_size unique);
        progress = λ size left.
            omega (arith, deleted, ap length e, ids-nonempty db c batch_size unique size left);
        more = λ size. delete_items-has_more new_id db j is;
        others = λ d other.
            ap (select (is_item_of d)) (items ∙ sym kept)
            ∙ ids-others db c batch_size unique d other;
        keys =
            subst (λ (xs : List CollectionItem). distinct (map item_id xs) ≡ true) (sym items)
              (distinct-select item_id (λ (i : CollectionItem). not (elem i.id is)) db.items
                unique);
      }

  pub delete_batch-Deletes :
      (is : List ℕ)
      → batch_ids db j.collection_id batch_size ≡ is
      → Deletes j.collection_id batch_size db
          (delete_batch new_id db j is).0
          (delete_batch new_id db j is).1
  unfolding delete_batch
  delete_batch-Deletes [] e = nothing-Deletes e
  delete_batch-Deletes (i ∷ is) e = some-Deletes (i ∷ is) e
