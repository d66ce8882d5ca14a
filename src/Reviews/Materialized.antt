-- ===== src/Reviews/Materialized.antt =====
-- What materialize_review_batch writes when it returns.
use prv_application.Search.{Body, SearchRequest}
use prv_application.Reviews.{
  BatchDocument, Generation, MatterRow, ReviewBatch, ReviewError, ReviewTables, SelectionType,
  all_matter, find_batch, is_member_of, no_generation, no_search, put_batch, random_batch,
  random_matter, ready, search_query,
}
use prv_application.Reviews.Sources.{
  MatterDocuments, SourceDocuments, documents-MatterDocuments, members-SourceDocuments,
}
use prv_application.Reviews.Paging.{collect_pages}
use prv_application.Reviews.Materialize.{
  Outcome, Outside, batch_body, build_batch, collected, database_document_ids, failed_batch,
  materialize_found, materialize_review_batch, numbered, sampled, search_document_ids, selected_ids,
  settled, source_ids, stored_batch,
}
use prv_application.Prelude.{
  ==_refl, ==→≡, All, All-mono, All-sort_by, All-take, Bool-cases, Ensures, Ensures-bind, List,
  Option, Result, [], ap, append-nil, arith, distinct, elem, err, err≢ok, false, find_first,
  find_first-holds, inl, inr, length, length-sort_by, length-take-min, ltb, map, min, none, not, ok,
  ok-injective, refl, select, select-All, select-append, select-holds, select-select_none,
  select_none, some, some_or, some_or-some, sort_by, subst, suc, sym, true, ℕ, ◌&&◌, ◌++◌, ◌==◌,
  ◌∙◌, ◌∷◌, ◌≡◌, ◌≢◌,
}

-- Numbers that count up from `n`.
abbrev pub CountsFrom : ℕ → List ℕ → Type 0
CountsFrom n [] = Unit
CountsFrom n (k ∷ ks) = (k ≡ n) × CountsFrom (suc n) ks

abbrev pub sequence_of : BatchDocument → ℕ
sequence_of m = m.sequence_number

abbrev pub document_of : BatchDocument → ℕ
document_of m = m.matter_document_id

numbered-CountsFrom :
    (batch_id n : ℕ) (ids : List ℕ) → CountsFrom n (map sequence_of (numbered batch_id n ids))
unfolding numbered
numbered-CountsFrom batch_id n [] = tt
numbered-CountsFrom batch_id n (i ∷ is) = (refl, numbered-CountsFrom batch_id (suc n) is)

map-numbered : (batch_id n : ℕ) (ids : List ℕ) → map document_of (numbered batch_id n ids) ≡ ids
unfolding numbered
map-numbered batch_id n [] = refl
map-numbered batch_id n (i ∷ is) = ap (◌∷◌ i) (map-numbered batch_id (suc n) is)

All-numbered :
    (batch_id n : ℕ) (ids : List ℕ)
    → All (λ m. is_member_of batch_id m ≡ true) (numbered batch_id n ids)
unfolding numbered
All-numbered batch_id n [] = tt
All-numbered batch_id n (i ∷ is) = (==_refl batch_id, All-numbered batch_id (suc n) is)

find_batch-put_batch :
    (id : ℕ) (b : ReviewBatch) (bs : List ReviewBatch) {old : ReviewBatch}
    → b.id ≡ id
    → find_first (λ (c : ReviewBatch). c.id == id) bs ≡ some old
    → find_first (λ (c : ReviewBatch). c.id == id) (put_batch b bs) ≡ some b
unfolding put_batch
find_batch-put_batch id b [] e h = cc
find_batch-put_batch id b (c ∷ cs) e h =
    let at_id : (b.id == id) ≡ true = ground arith in
    let same : (c.id == b.id) ≡ (c.id == id) = ap (λ (k : ℕ). c.id == k) e in
    elim (Bool-cases (c.id == id)) [
      | inl here ↦ rw (same ∙ here) (rw at_id refl)
      | inr there ↦ rw (same ∙ there) (rw there (find_batch-put_batch id b cs e (rw there at h)))
    ]

-- A random sample: documents of the source, as many as were asked for, or all.
pub record IsSample (source : List ℕ) (size : Option ℕ) (ids : List ℕ) : Type 0 where
  pub from_source : All (λ i. elem i source ≡ true) ids
  pub sized : length ids ≡ (elim size [ none ↦ length source | some n ↦ min n (length source) ])

-- The documents by the type of the selection: all of the matter in the order of their creation, a
-- sample of these or of the source batch, or what the pages of the search give in a matter's index.
abbrev pub IsChosen :
    Outside → ReviewTables → ReviewBatch → MatterRow → SelectionType → List ℕ → Type 0
IsChosen env db b matter all_matter ids = MatterDocuments db b ids
IsChosen env db b matter random_matter ids =
    (source : List ℕ) × MatterDocuments db b source × IsSample source b.sample_size ids
IsChosen env db b matter random_batch ids =
    (source : List ℕ) × SourceDocuments db b source × IsSample source b.sample_size ids
IsChosen env db b matter search_query ids =
    (r : SearchRequest) × (g : Generation) × (body : Body) × (b.search ≡ some r)
    × ((g.matter_id ≡ matter.id) × (g.is_active ≡ true))
    × (batch_body env db r matter ≡ ok body)
    × (collect_pages (env.search g.index_name body) body.size env.rounds none ≡ some ids)

elem-own : (xs : List ℕ) → All (λ i. elem i xs ≡ true) xs
elem-own [] = tt
elem-own (x ∷ xs) = (
  ground arith,
  All-mono (λ i. elem i xs ≡ true) (λ i. elem i (x ∷ xs) ≡ true) xs (λ i h. ground arith)
      (elem-own xs),
)

module _ (env : Outside) (db : ReviewTables) (b : ReviewBatch) (matter : MatterRow) where
  sampled-IsSample :
      (key : ℕ → ℕ) (source : List ℕ) (size : Option ℕ)
      → IsSample source size (sampled size (sort_by (λ i j. ltb (key i) (key j)) source))
  sampled-IsSample key source none = record {
    from_source =
        All-sort_by (λ i j. ltb (key i) (key j)) (λ i. elem i source ≡ true) source
          (elem-own source);
    sized = length-sort_by (λ i j. ltb (key i) (key j)) source;
  }
  sampled-IsSample key source (some n) =
      let sorted = sort_by (λ i j. ltb (key i) (key j)) source in
      record {
        from_source =
            All-take (λ i. elem i source ≡ true) n sorted
              (All-sort_by (λ i j. ltb (key i) (key j)) (λ i. elem i source ≡ true) source
                (elem-own source));
        sized =
            length-take-min n sorted
            ∙ ap (min n) (length-sort_by (λ i j. ltb (key i) (key j)) source);
      }

  collected-some : (o : Option (List ℕ)) {ids : List ℕ} → collected env o ≡ ok ids → o ≡ some ids
  collected-some none h = absurd (err≢ok h)
  collected-some (some ids) h = ap some (ok-injective h)

  current :
      (g : Generation)
      → ((g.matter_id == matter.id) && g.is_active) ≡ true
      → (g.matter_id ≡ matter.id) × (g.is_active ≡ true)
  current g h = (ground arith, ground arith)

  -- What the branch on the type of the selection returns.
  abbrev Chosen : SelectionType → ReviewBatch × List ℕ → Type 0
  Chosen type (chosen, ids) = (chosen.id ≡ b.id) × IsChosen env db b matter type ids

  search_document_ids-Chosen : Ensures (Chosen search_query) (search_document_ids env db b matter)
  unfolding search_document_ids
  search_document_ids-Chosen =
      let is_current = λ (g : Generation). (g.matter_id == matter.id) && g.is_active in
      Ensures-bind (Chosen search_query)
        (some_or (find_first is_current db.generations) no_generation) _
        λ g e. Ensures-bind (Chosen search_query) (some_or b.search no_search) _ λ r f.
          Ensures-bind (Chosen search_query) (batch_body env db r matter) _ λ body h.
            Ensures-bind (Chosen search_query)
              (collected env
                (collect_pages (env.search g.index_name body) body.size env.rounds none))
              _
              λ ids k. (
                refl,
                (
                  r,
                  g,
                  body,
                  some_or-some _ _ f,
                  current g (find_first-holds is_current db.generations (some_or-some _ _ e)),
                  h,
                  collected-some _ k,
                ),
              )

  database_document_ids-Chosen :
      (type : SelectionType)
      → b.selection_type ≡ type
      → type ≢ search_query
      → Chosen type (b, database_document_ids env db b)
  unfolding database_document_ids source_ids
  database_document_ids-Chosen all_matter e n = (refl, rw e (documents-MatterDocuments db b))
  database_document_ids-Chosen search_query e n = absurd (n refl)
  database_document_ids-Chosen random_matter e n = (
    refl,
    rw e (
      source_ids db b random_matter,
      documents-MatterDocuments db b,
      sampled-IsSample _ (source_ids db b random_matter) b.sample_size,
    ),
  )
  database_document_ids-Chosen random_batch e n = (
    refl,
    rw e (
      source_ids db b random_batch,
      members-SourceDocuments db b,
      sampled-IsSample _ (source_ids db b random_batch) b.sample_size,
    ),
  )

  selected_ids-Chosen :
      (type : SelectionType)
      → b.selection_type ≡ type
      → Ensures (Chosen type) (selected_ids env db b matter type)
  unfolding selected_ids
  selected_ids-Chosen search_query e = search_document_ids-Chosen
  selected_ids-Chosen all_matter e = database_document_ids-Chosen all_matter e (λ n. cc)
  selected_ids-Chosen random_matter e = database_document_ids-Chosen random_matter e (λ n. cc)
  selected_ids-Chosen random_batch e = database_document_ids-Chosen random_batch e (λ n. cc)

-- A batch that is ready: its documents are numbered from 1 in the order of their selection, each
-- once, the count is theirs, the documents of other batches are as they were, and a later call
-- returns the batch and changes nothing.
pub record IsMaterialized (env : Outside) (db : ReviewTables) (b : ReviewBatch)
    (after : ReviewTables) (done : ReviewBatch) : Type 1 where
  pub matter : MatterRow
  pub ids : List ℕ
  pub chosen : IsChosen env db b matter b.selection_type ids
  pub of_matter_row : matter.id ≡ b.matter_id
  pub rows : map document_of (select (is_member_of b.id) after.members) ≡ ids
  pub in_order : CountsFrom 1 (map sequence_of (select (is_member_of b.id) after.members))
  pub no_repeats : distinct ids ≡ true
  pub others :
      select (λ m. not (is_member_of b.id m)) after.members
      ≡ select (λ m. not (is_member_of b.id m)) db.members
  pub counted : done.document_count ≡ length ids
  pub again :
      (later : Outside) (now : ℕ) → materialize_review_batch later after b.id now ≡ (after, ok done)

module _ (env : Outside) (db : ReviewTables) (b : ReviewBatch) (matter : MatterRow) (now : ℕ)
    (found : find_batch db b.id ≡ some b) (of_row : matter.id ≡ b.matter_id) where
  ready-again :
      (after : ReviewTables) (done : ReviewBatch)
      → find_batch after b.id ≡ some done
      → done.status ≡ ready
      → (later : Outside) (time : ℕ)
      → materialize_review_batch later after b.id time ≡ (after, ok done)
  unfolding materialize_review_batch materialize_found
  ready-again after done stored is_ready later time = rw stored (rw is_ready refl)

  abbrev finished : ReviewBatch → List ℕ → ReviewBatch
  finished chosen ids = record chosen {
    status = ready;
    error_message = none;
    document_count = length ids;
    completed_at = some now;
  }

  abbrev filled : ReviewBatch → List ℕ → ReviewTables
  filled chosen ids = record db {
    members = select (λ m. not (is_member_of b.id m)) db.members ++ numbered b.id 1 ids;
    batches = put_batch (finished chosen ids) db.batches;
  }

  own_rows :
      (ids : List ℕ)
      → select
          (is_member_of b.id)
          (select (λ m. not (is_member_of b.id m)) db.members ++ numbered b.id 1 ids)
        ≡ numbered b.id 1 ids
  own_rows ids =
      let own = is_member_of b.id in
      let old = select (λ m. not (own m)) db.members in
      select-append own old (numbered b.id 1 ids)
      ∙ ap (λ (l : List BatchDocument). l ++ select own (numbered b.id 1 ids))
          (select-select_none own (λ m. not (own m)) db.members (λ m h. ground arith))
      ∙ select-All own (numbered b.id 1 ids) (All-numbered b.id 1 ids)

  other_rows :
      (ids : List ℕ)
      → select
          (λ m. not (is_member_of b.id m))
          (select (λ m. not (is_member_of b.id m)) db.members ++ numbered b.id 1 ids)
        ≡ select (λ m. not (is_member_of b.id m)) db.members
  other_rows ids =
      let own = is_member_of b.id in
      let other = λ (m : BatchDocument). not (own m) in
      select-append other (select other db.members) (numbered b.id 1 ids)
      ∙ ap (λ (l : List BatchDocument). select other (select other db.members) ++ l)
          (select_none other (numbered b.id 1 ids) (
            All-mono (λ m. own m ≡ true) (λ m. other m ≡ false) (numbered b.id 1 ids)
              (λ m h. ground arith) (All-numbered b.id 1 ids)))
      ∙ append-nil _
      ∙ select-All other (select other db.members) (select-holds other db.members)

  filled-IsMaterialized :
      (chosen : ReviewBatch) (ids : List ℕ)
      → chosen.id ≡ b.id
      → IsChosen env db b matter b.selection_type ids
      → distinct ids ≡ true
      → IsMaterialized env db b (filled chosen ids) (finished chosen ids)
  filled-IsMaterialized chosen ids same_id is_chosen no_repeats = record {
    matter = matter;
    ids = ids;
    chosen = is_chosen;
    of_matter_row = of_row;
    rows = ap (map document_of) (own_rows ids) ∙ map-numbered b.id 1 ids;
    in_order =
        subst (λ (l : List BatchDocument). CountsFrom 1 (map sequence_of l)) (sym (own_rows ids))
          (numbered-CountsFrom b.id 1 ids);
    no_repeats = no_repeats;
    others = other_rows ids;
    counted = refl;
    again =
        ready-again (filled chosen ids) (finished chosen ids)
          (find_batch-put_batch b.id (finished chosen ids) db.batches same_id found) refl;
  }

  stored_batch-IsMaterialized :
      (r : Result ReviewError (ReviewBatch × List ℕ))
      → Ensures (Chosen env db b matter b.selection_type) r
      → (done : ReviewBatch) → (stored_batch env db b now r).1 ≡ ok done
      → IsMaterialized env db b (stored_batch env db b now r).0 done
  unfolding stored_batch failed_batch
  stored_batch-IsMaterialized (err e) c done h = absurd (err≢ok h)
  stored_batch-IsMaterialized (ok (chosen, ids)) (same_id, is_chosen) done h =
      elim (Bool-cases (distinct ids)) [
        | inr repeated ↦ absurd (err≢ok (rw repeated at h))
        | inl no_repeats ↦ rw no_repeats (
            subst (IsMaterialized env db b (filled chosen ids)) (ok-injective (rw no_repeats at h))
              (filled-IsMaterialized chosen ids same_id is_chosen no_repeats))
      ]

module _ (env : Outside) (db : ReviewTables) (b : ReviewBatch) (now : ℕ) where
  build_batch-IsMaterialized :
      find_batch db b.id ≡ some b
      → (o : Option MatterRow) → find_first (λ (m : MatterRow). m.id == b.matter_id) db.matters ≡ o
      → (done : ReviewBatch) → (build_batch env db b now o).1 ≡ ok done
      → IsMaterialized env db b (build_batch env db b now o).0 done
  unfolding build_batch
  build_batch-IsMaterialized found none e done h = absurd (err≢ok h)
  build_batch-IsMaterialized found (some matter) e done h =
      stored_batch-IsMaterialized env db b matter now found
        (==→≡ _ _ (find_first-holds (λ (m : MatterRow). m.id == b.matter_id) db.matters e))
        (selected_ids env db b matter b.selection_type)
        (selected_ids-Chosen env db b matter b.selection_type refl) done h

  -- For a stored batch that is neither ready nor archived: if the call returns, the batch has the
  -- documents of its selection, each once and numbered from 1 in the selection's order: exactly the
  -- documents of the batch's matter by their creation, a sample of the size asked for of these or
  -- of the documents of the source batch, or those of the search's pages; the count is theirs,
  -- other batches keep their documents, and a later call changes nothing.
  pub materialize_review_batch-IsMaterialized :
      find_batch db b.id ≡ some b
      → settled b.status ≡ false
      → (done : ReviewBatch) → (materialize_review_batch env db b.id now).1 ≡ ok done
      → IsMaterialized env db b (materialize_review_batch env db b.id now).0 done
  unfolding materialize_review_batch materialize_found
  materialize_review_batch-IsMaterialized found unsettled done h =
      let matter = find_first (λ (m : MatterRow). m.id == b.matter_id) db.matters in
      let whole : materialize_review_batch env db b.id now ≡ build_batch env db b now matter =
        rw found (rw unsettled refl) in
      subst (λ (o : Outcome env). IsMaterialized env db b o.0 done) (sym whole)
        (build_batch-IsMaterialized found matter refl done (sym (ap (λ o. o.1) whole) ∙ h))
