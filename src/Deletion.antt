-- ===== src/Deletion.antt =====
-- artifact_service/models.py: the tables that the deletion of a collection reads and changes, and
-- the queries on them. Ids are natural numbers, and a text is its list of code points.
mod Examples
pub mod Jobs
pub mod Rows
pub mod Stable
pub mod Batches
pub mod Workflow
pub mod Emptied
pub mod Ended
pub mod Shrinking
pub mod Active
pub mod Valid
pub mod Kept
pub mod Validating
pub mod Process
pub mod Reachable
pub mod Failing
pub mod Removing
pub mod Removed
pub mod Needed
pub mod Blobs
use prv_application.Prelude.{
  Bool, List, Option, Result, String, [], any_of, err, false, find_first, if◌then◌else◌, none, not,
  ok, refuse, some, true, ℕ, ◌&&◌, ◌==◌, ◌>>◌, ◌∷◌, ◌≡◌,
}

pub data CollectionStatus : Type 0 where
  opened sealed archived deleting : CollectionStatus

pub record ClientCollection : Type 0 where
  pub id : ℕ
  pub tenant_id : ℕ
  pub client_id : ℕ
  pub name : String
  pub status : CollectionStatus

pub data JobStatus : Type 0 where
  queued validating deleting_database_rows deleting_blobs completed failed : JobStatus

-- `workflow_id` holds the two parts of its text that vary, the job and the attempt.
pub record DeletionJob : Type 0 where
  pub id : ℕ
  pub collection_id : ℕ
  pub tenant_id : ℕ
  pub client_id : ℕ
  pub collection_name : String
  pub previous_collection_status : CollectionStatus
  pub status : JobStatus
  pub workflow_id : ℕ × ℕ
  pub attempt_count : ℕ
  pub item_count : ℕ
  pub artifact_count : ℕ
  pub blob_count : ℕ
  pub deleted_item_count : ℕ
  pub deleted_artifact_count : ℕ
  pub deleted_blob_count : ℕ
  pub error_message : Option (List ℕ)
  pub requested_by_user_id : ℕ
  pub created_at : ℕ
  pub started_at : Option ℕ
  pub completed_at : Option ℕ

pub record DeletionBlob : Type 0 where
  pub id : ℕ
  pub deletion_job_id : ℕ
  pub content_blob_id : ℕ
  pub bucket_name : String
  pub storage_key : String
  pub byte_length : ℕ
  pub is_pending : Bool  -- status == "PENDING"

pub record ContentBlob : Type 0 where
  pub id : ℕ
  pub bucket_name : String
  pub storage_key : String
  pub byte_length : ℕ

pub record CollectionItem : Type 0 where
  pub id : ℕ
  pub collection_id : ℕ
  pub parent_collection_item_id : Option ℕ

pub record Artifact : Type 0 where
  pub id : ℕ
  pub content_blob_id : ℕ

-- A row that joins two others, or that hangs on one, by the names of its columns.
pub record ItemArtifact : Type 0 where
  pub artifact_id : ℕ
  pub collection_item_id : ℕ

pub record CollectionArtifact : Type 0 where
  pub artifact_id : ℕ
  pub collection_id : ℕ

pub record ArtifactLineage : Type 0 where
  pub artifact_id : ℕ
  pub source_artifact_id : ℕ

pub record CollectionSelection : Type 0 where
  pub id : ℕ
  pub collection_id : ℕ

pub record SelectionItem : Type 0 where
  pub selection_id : ℕ
  pub collection_item_id : ℕ

pub record ProcessingRun : Type 0 where
  pub collection_id : ℕ
  pub is_active : Bool  -- status in ("QUEUED", "RUNNING")

-- The rows of CollectionItemEmail, CollectionItemEmailRecipient and CollectionItemCustodian are
-- known by their item, those of CollectionTextProcessingProfile by their collection.
pub record Tables : Type 0 where
  pub collections : List ClientCollection
  pub jobs : List DeletionJob
  pub deletion_blobs : List DeletionBlob
  pub content_blobs : List ContentBlob
  pub items : List CollectionItem
  pub artifacts : List Artifact
  pub item_artifacts : List ItemArtifact
  pub collection_artifacts : List CollectionArtifact
  pub lineage : List ArtifactLineage
  pub selections : List CollectionSelection
  pub selection_items : List SelectionItem
  pub item_emails : List ℕ
  pub email_recipients : List ℕ
  pub item_custodians : List ℕ
  pub profiles : List ℕ
  pub runs : List ProcessingRun

pub data DeletionError : Type 0 where
  collection_not_found already_deleting active_text_processing : DeletionError
  job_not_found not_failed items_remain blobs_remain : DeletionError
  unique_violation storage_error deletion_blocked : DeletionError

-- `status in ACTIVE_DELETION_STATUSES`
abbrev pub in_active : JobStatus → Bool
in_active completed = false
in_active failed = false
in_active _ = true

-- `db.get(CollectionDeletionJob, id)`
abbrev pub get_job : Tables → ℕ → Option DeletionJob
get_job db i = find_first (λ (j : DeletionJob). j.id == i) db.jobs

-- `db.get(ClientCollection, id)`
abbrev pub get_collection : Tables → ℕ → Option ClientCollection
get_collection db i = find_first (λ (c : ClientCollection). c.id == i) db.collections

abbrev pub required {ℓ} : {A : Type ℓ} → Option A → DeletionError → Result DeletionError A
required none e = err e
required (some a) e = ok a

pub required-ok {ℓ} :
    {A : Type ℓ} (o : Option A) (e : DeletionError) {a : A} → required o e ≡ ok a → o ≡ some a
required-ok none e h = cc
required-ok (some b) e h = cc

-- The write of a changed row over the row with its id.
unfoldable pub put_job : DeletionJob → List DeletionJob → List DeletionJob
put_job j [] = []
put_job j (k ∷ ks) = let rest = put_job j ks in if k.id == j.id then j ∷ rest else k ∷ rest

unfoldable pub put_collection : ClientCollection → List ClientCollection → List ClientCollection
put_collection c [] = []
put_collection c (d ∷ ds) =
    let rest = put_collection c ds in if d.id == c.id then c ∷ rest else d ∷ rest

-- Another job of the same collection that is active.
abbrev pub rivals : DeletionJob → DeletionJob → Bool
rivals j k =
    in_active j.status
    && in_active k.status
    && (k.collection_id == j.collection_id)
    && not (k.id == j.id)

-- The write of a job whose status may have become active: the partial unique index
-- `uq_collection_deletion_job_active` refuses a second active job of a collection.
unfoldable pub save_job : Tables → DeletionJob → Result DeletionError Tables
unfolding put_job
save_job db j = do
  refuse (any_of (rivals j) db.jobs) unique_violation
  ok (record db { jobs = put_job j db.jobs })
