-- ===== src/Imports.antt =====
-- app/matter_imports.py: the import of a batch of collection items into a matter, and the progress of
-- its job, with the rows of app/models.py.
mod Examples
pub mod Progress
pub mod Replay
use prv_application.Prelude.{
  Bool, List, Option, Result, [], all_of, any_of, count, distinct, err, false, find_first,
  if◌then◌else◌, length, map, none, not, ok, require, select, some, true, ℕ, ◌&&◌, ◌++◌, ◌-◌, ◌==◌,
  ◌>>◌, ◌∷◌,
}

pub data JobStatus : Type 0 where
  queued snapshotting running completed failed canceled : JobStatus

-- `client_id` is that of the job's matter.
pub record ImportJob : Type 0 where
  pub id : ℕ
  pub matter_id : ℕ
  pub client_id : ℕ
  pub source_collection_id : ℕ
  pub status : JobStatus
  pub processed_count : ℕ
  pub added_count : ℕ
  pub duplicate_count : ℕ
  pub failed_count : ℕ
  pub error_message : Option (List ℕ)
  pub created_by_user_id : ℕ
  pub completed_at : Option ℕ

pub record ImportBatch : Type 0 where
  pub job_id : ℕ
  pub batch_number : ℕ
  pub is_completed : Bool  -- status == "COMPLETED"
  pub item_count : ℕ
  pub added_count : ℕ
  pub duplicate_count : ℕ
  pub failed_count : ℕ

pub record MatterDocument : Type 0 where
  pub id : ℕ
  pub matter_id : ℕ
  pub source_collection_id : ℕ
  pub collection_item_id : ℕ
  pub added_by_import_job_id : ℕ

pub data Relationship : Type 0 where
  primary common : Relationship

pub record CustodianLink : Type 0 where
  pub document_id : ℕ
  pub custodian_id : ℕ
  pub relationship_type : Relationship

pub record Custodian : Type 0 where
  pub id : ℕ
  pub client_id : ℕ

-- A DOCUMENT_UPSERT that `create_search_operation` queues.
pub record SearchOperation : Type 0 where
  pub matter_id : ℕ
  pub document_ids : List ℕ
  pub created_by_user_id : ℕ
  pub priority : ℕ

pub record ImportTables : Type 0 where
  pub jobs : List ImportJob
  pub batches : List ImportBatch
  pub documents : List MatterDocument
  pub links : List CustodianLink
  pub custodians : List Custodian
  pub operations : List SearchOperation

pub record ItemCustodian : Type 0 where
  pub custodian_id : ℕ
  pub relationship_type : Relationship

-- SelectionBatchItem
pub record BatchItem : Type 0 where
  pub item_id : ℕ
  pub custodians : List ItemCustodian

pub record BatchResult : Type 0 where
  pub item_count : ℕ
  pub added_count : ℕ
  pub duplicate_count : ℕ
  pub failed_count : ℕ

-- `unique_violation` is the IntegrityError of a unique or primary key.
pub data ImportError : Type 0 where
  job_not_found unknown_custodians unique_violation : ImportError

abbrev pub is_canceled : JobStatus → Bool
is_canceled canceled = true
is_canceled _ = false

abbrev pub get_job : ImportTables → ℕ → Option ImportJob
get_job db i = find_first (λ (j : ImportJob). j.id == i) db.jobs

abbrev pub required_job : Option ImportJob → Result ImportError ImportJob
required_job none = err job_not_found
required_job (some j) = ok j

abbrev pub is_batch : ℕ → ℕ → ImportBatch → Bool
is_batch job_id n b = (b.job_id == job_id) && (b.batch_number == n)

abbrev pub get_batch : ImportTables → ℕ → ℕ → Option ImportBatch
get_batch db job_id n = find_first (is_batch job_id n) db.batches

-- The write of a batch over the row with its key, or after all rows.
unfoldable pub put_batch : ImportBatch → List ImportBatch → List ImportBatch
put_batch b [] = b ∷ []
put_batch b (c ∷ cs) =
    let rest = put_batch b cs in if is_batch b.job_id b.batch_number c then b ∷ cs else c ∷ rest

abbrev pub result_of : ImportBatch → BatchResult
result_of b = record {
  item_count = b.item_count;
  added_count = b.added_count;
  duplicate_count = b.duplicate_count;
  failed_count = b.failed_count;
}

-- `existing_batch or MatterDocumentImportBatch(...)`
abbrev pub opened_batch : Option ImportBatch → ℕ → ℕ → ℕ → ImportBatch
opened_batch (some b) job_id n count = b
opened_batch none job_id n count = record {
  job_id = job_id;
  batch_number = n;
  is_completed = false;
  item_count = count;
  added_count = 0;
  duplicate_count = 0;
  failed_count = 0;
}

abbrev pub closed : ImportBatch → ℕ → ℕ → ImportBatch
closed b added duplicate = record b {
  is_completed = true;
  added_count = added;
  duplicate_count = duplicate;
}

abbrev pub counts : ℕ → ℕ → ℕ → BatchResult
counts items added duplicate = record {
  item_count = items;
  added_count = added;
  duplicate_count = duplicate;
  failed_count = 0;
}

-- The document of the job's matter for an item.
abbrev pub is_document_of : ℕ → ℕ → MatterDocument → Bool
is_document_of matter_id item d = (d.matter_id == matter_id) && (d.collection_item_id == item)

abbrev pub has_document : ImportTables → ℕ → ℕ → Bool
has_document db matter_id item = any_of (is_document_of matter_id item) db.documents

-- The items that the matter does not have.
unfoldable pub new_items : ImportTables → ImportJob → List ℕ → List ℕ
new_items db j ids = select (λ i. not (has_document db j.matter_id i)) ids

-- A custodian of the job's client.
abbrev pub is_known : ImportTables → ImportJob → ItemCustodian → Bool
is_known db j c =
    any_of (λ (k : Custodian). (k.id == c.custodian_id) && (k.client_id == j.client_id))
      db.custodians

abbrev pub same_link : CustodianLink → CustodianLink → Bool
same_link a b = (a.document_id == b.document_id) && (a.custodian_id == b.custodian_id)

-- No two links of one document and custodian, the primary key.
unfoldable pub distinct_links : List CustodianLink → Bool
distinct_links [] = true
distinct_links (l ∷ ls) = not (any_of (same_link l) ls) && distinct_links ls

abbrev pub document_id_or : Option MatterDocument → ℕ → ℕ
document_id_or none other = other
document_id_or (some d) other = d.id

abbrev pub item_ids : List BatchItem → List ℕ
item_ids items = map (λ (i : BatchItem). i.item_id) items

-- `new_id` gives the id of the document that is added for an item.
module _ (new_id : ℕ → ℕ) where
  abbrev pub new_document : ImportJob → ℕ → MatterDocument
  new_document j item = record {
    id = new_id item;
    matter_id = j.matter_id;
    source_collection_id = j.source_collection_id;
    collection_item_id = item;
    added_by_import_job_id = j.id;
  }

  -- `documents[item_id].id`
  abbrev pub document_id : ImportTables → ImportJob → ℕ → ℕ
  document_id db j item =
      document_id_or (find_first (is_document_of j.matter_id item) db.documents) (new_id item)

  -- The links of an item that are not stored.
  abbrev pub item_links : ImportTables → ImportJob → BatchItem → List CustodianLink
  item_links db j item =
      select (λ l. not (any_of (same_link l) db.links))
        (map
          (λ (c : ItemCustodian). record {
            document_id = document_id db j item.item_id;
            custodian_id = c.custodian_id;
            relationship_type = c.relationship_type;
          })
          item.custodians)

  unfoldable pub new_links : ImportTables → ImportJob → List BatchItem → List CustodianLink
  new_links db j [] = []
  new_links db j (i ∷ is) = item_links db j i ++ new_links db j is

  abbrev pub queued_operations : ImportJob → List ℕ → List SearchOperation
  queued_operations j [] = []
  queued_operations j (i ∷ is) =
      record {
        matter_id = j.matter_id;
        document_ids = map new_id (i ∷ is);
        created_by_user_id = j.created_by_user_id;
        priority = 100;
      }
      ∷ []

  -- What the commit of a batch writes, and the result.
  abbrev pub stored_items :
      ImportTables
      → ImportJob
      → ImportBatch
      → List ℕ
      → List ℕ
      → List CustodianLink
      → ImportTables × BatchResult
  stored_items db j b ids added links = (
    record db {
      batches = put_batch (closed b (length added) (length ids - length added)) db.batches;
      documents = db.documents ++ map (new_document j) added;
      links = db.links ++ links;
      operations = db.operations ++ queued_operations j added;
    },
    counts (length ids) (length added) (length ids - length added),
  )

  -- The batch of a job that is not canceled, up to the commit.
  unfoldable pub import_items :
      ImportTables
      → ImportJob
      → ImportBatch
      → List BatchItem
      → Result ImportError (ImportTables × BatchResult)
  unfolding new_items new_links distinct_links put_batch
  import_items db j b items = do
    let ids = item_ids items
    let added = new_items db j ids
    let links = new_links db j items
    require (distinct added) unique_violation
    require (all_of (λ (i : BatchItem). all_of (is_known db j) i.custodians) items)
        unknown_custodians
    require (distinct_links links) unique_violation
    ok (stored_items db j b ids added links)
