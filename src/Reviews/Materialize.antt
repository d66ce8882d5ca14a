-- ===== src/Reviews/Materialize.antt =====
-- _database_document_ids, _search_document_ids and materialize_review_batch of
-- app/review_batches.py.
use prv_application.Metadata.Values.{Conversions}
use prv_application.Metadata.Types.{Float}
use prv_application.Search.{Body, Formats, SearchRequest, by_field}
use prv_application.Search.Compile.{compile_search_request}
use prv_application.Reviews.{
  BatchDocument, BatchStatus, DocumentRow, Generation, MatterRow, ReviewBatch, ReviewError,
  ReviewTables, SelectionType, all_matter, archived, duplicate_document, failed, find_batch,
  is_member_of, no_batch, no_generation, no_matter, no_search, put_batch, random_batch,
  random_matter, ready, refused_search, search_query, unanswered,
}
use prv_application.Reviews.Paging.{Hit, collect_pages}
use prv_application.Prelude.{
  Bool, List, Option, Result, String, [], distinct, err, false, find_first, if◌then◌else◌, is_id,
  length, ltb, map, none, not, ok, select, some, some_or, sort_by, str_eq, suc, take, true, zero, ℕ,
  ◌&&◌, ◌++◌, ◌==◌, ◌>>=◌, ◌||◌, ◌∷◌,
}

-- `s[:n]` of a text.
unfoldable pub first_chars : ℕ → String → String
first_chars zero s = String.[]
first_chars (suc n) String.[] = String.[]
first_chars (suc n) (String.◌∷◌ c s) = String.◌∷◌ c (first_chars n s)

abbrev pub settled : BatchStatus → Bool
settled ready = true
settled archived = true
settled _ = false

abbrev pub is_random : SelectionType → Bool
is_random random_matter = true
is_random random_batch = true
is_random _ = false

-- `ORDER BY created_at, id`
abbrev pub older : DocumentRow → DocumentRow → Bool
older d e = ltb d.created_at e.created_at || ((d.created_at == e.created_at) && ltb d.id e.id)

abbrev pub earlier_member : BatchDocument → BatchDocument → Bool
earlier_member m n = ltb m.sequence_number n.sequence_number

abbrev pub in_batch : Option ℕ → BatchDocument → Bool
in_batch source m = is_id source m.review_batch_id

abbrev pub of_matter : ℕ → DocumentRow → Bool
of_matter matter_id d = d.matter_id == matter_id

-- The ids before the sample is drawn, with `RANDOM_BATCH` from the source batch.
unfoldable pub source_ids : ReviewTables → ReviewBatch → SelectionType → List ℕ
unfolding sort_by
source_ids db b random_batch =
    map (λ (m : BatchDocument). m.matter_document_id)
      (sort_by earlier_member (select (in_batch b.source_batch_id) db.members))
source_ids db b all_matter =
    map (λ (d : DocumentRow). d.id) (sort_by older (select (of_matter b.matter_id) db.documents))
source_ids db b search_query =
    map (λ (d : DocumentRow). d.id) (sort_by older (select (of_matter b.matter_id) db.documents))
source_ids db b random_matter =
    map (λ (d : DocumentRow). d.id) (sort_by older (select (of_matter b.matter_id) db.documents))

abbrev pub sampled : Option ℕ → List ℕ → List ℕ
sampled none ids = ids
sampled (some n) ids = take n ids

-- `batch.random_seed or str(batch.id)`
abbrev pub seed_of : (ℕ → String) → ReviewBatch → Option String → String
seed_of uuid_text b none = uuid_text b.id
seed_of uuid_text b (some s) = if str_eq s "" then uuid_text b.id else s

-- `enumerate(document_ids, start=n)`
unfoldable pub numbered : ℕ → ℕ → List ℕ → List BatchDocument
numbered batch_id n [] = []
numbered batch_id n (i ∷ is) =
    record { review_batch_id = batch_id; matter_document_id = i; sequence_number = n }
    ∷ numbered batch_id (suc n) is

-- What the functions take from outside: `sha256` of the seed and an id as a number, `str` of a UUID
-- and of an exception, the floats and dates of the search compiler, the engine's answer to a body
-- with `search_after`, and the rounds of its loop.
pub record Outside : Type 0 where
  pub stable_key : String → ℕ → ℕ
  pub uuid_text : ℕ → String
  pub message : ReviewError → String
  pub python : Conversions
  pub formats : Formats
  pub score : Float → Float
  pub search : String → Body → Option ℕ → List Hit
  pub rounds : ℕ

module _ (env : Outside) where
  unfoldable pub database_document_ids : ReviewTables → ReviewBatch → List ℕ
  unfolding source_ids sort_by
  database_document_ids db b =
      let ids = source_ids db b b.selection_type in
      let key = env.stable_key (seed_of env.uuid_text b b.random_seed) in
      if is_random b.selection_type
      then sampled b.sample_size (sort_by (λ i j. ltb (key i) (key j)) ids)
      else ids

  -- The request for the first page of 500 documents by id; a body without `from` starts at 0.
  unfoldable pub batch_body : ReviewTables → SearchRequest → MatterRow → Result ReviewError Body
  unfolding compile_search_request
  batch_body db r matter =
      elim (compile_search_request env.python env.formats env.score
        (record r { offset = 0; size = 500; facets = [] }) (db.fields matter.id)
        (record {
          tenant_id = matter.tenant;
          matter_id = matter.uuid;
          query_vector = none;
          required_filters = [];
        })) [
          | err e ↦ err (refused_search e)
          | ok body ↦
              ok (record body {
                from = 0;
                highlight = none;
                sort = by_field "document_id" false ∷ [];
              })
        ]

  abbrev pub collected : Option (List ℕ) → Result ReviewError (List ℕ)
  collected none = err unanswered
  collected (some ids) = ok ids

  unfoldable pub search_document_ids :
      ReviewTables → ReviewBatch → MatterRow → Result ReviewError (ReviewBatch × List ℕ)
  unfolding batch_body collect_pages
  search_document_ids db b matter = do
    generation ←
        some_or
          (find_first (λ (g : Generation). (g.matter_id == matter.id) && g.is_active)
            db.generations)
          no_generation
    request ← some_or b.search no_search
    body ← batch_body db request matter
    ids ←
        collected (collect_pages (env.search generation.index_name body) body.size env.rounds none)
    ok (record b { search_index_generation_id = some generation.id }, ids)

  unfoldable pub selected_ids :
      ReviewTables
      → ReviewBatch
      → MatterRow
      → SelectionType
      → Result ReviewError (ReviewBatch × List ℕ)
  unfolding search_document_ids database_document_ids
  selected_ids db b matter search_query = search_document_ids db b matter
  selected_ids db b matter _ = ok (b, database_document_ids db b)

  abbrev pub Outcome : Type 0
  Outcome = ReviewTables × Result ReviewError ReviewBatch

  -- The except branch: the rollback, and the failure of the stored row.
  unfoldable pub failed_batch : ReviewTables → ReviewBatch → ReviewError → ℕ → Outcome
  unfolding put_batch first_chars
  failed_batch db b e now = (
    record db {
      batches =
          put_batch
            (record b {
              status = failed;
              error_message = some (first_chars 4000 (env.message e));
              completed_at = some now;
            })
            db.batches;
    },
    err e,
  )

  -- The insertion refuses a document that is selected twice, by the primary key of its rows.
  unfoldable pub stored_batch :
      ReviewTables → ReviewBatch → ℕ → Result ReviewError (ReviewBatch × List ℕ) → Outcome
  unfolding failed_batch numbered put_batch
  stored_batch db b now (err e) = failed_batch db b e now
  stored_batch db b now (ok (chosen, ids)) =
      let done = record chosen {
        status = ready;
        error_message = none;
        document_count = length ids;
        completed_at = some now;
      } in
      if distinct ids
      then (
        record db {
          members = select (λ m. not (is_member_of b.id m)) db.members ++ numbered b.id 1 ids;
          batches = put_batch done db.batches;
        },
        ok done,
      )
      else failed_batch db b duplicate_document now

  unfoldable pub build_batch : ReviewTables → ReviewBatch → ℕ → Option MatterRow → Outcome
  unfolding selected_ids stored_batch
  build_batch db b now none = (db, err no_matter)
  build_batch db b now (some matter) =
      stored_batch db b now (selected_ids db b matter b.selection_type)

  unfoldable pub materialize_found : ReviewTables → ℕ → Option ReviewBatch → Outcome
  unfolding build_batch
  materialize_found db now none = (db, err no_batch)
  materialize_found db now (some b) =
      if settled b.status
      then (db, ok b)
      else build_batch db b now (find_first (λ (m : MatterRow). m.id == b.matter_id) db.matters)

  unfoldable pub materialize_review_batch : ReviewTables → ℕ → ℕ → Outcome
  unfolding materialize_found
  materialize_review_batch db batch_id now = materialize_found db now (find_batch db batch_id)
