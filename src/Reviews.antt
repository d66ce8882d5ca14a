-- ===== src/Reviews.antt =====
-- The rows of app/models.py that review batches read and write, and what their calls raise.
pub mod Paging
pub mod Sources
pub mod Materialize
pub mod Materialized
pub mod Runs
pub mod Coding
pub mod Recorded
pub mod Tracked
pub mod Progressing
pub mod Comparing
mod Examples
use prv_application.Agents.{AgentVersion}
use prv_application.Agents.Opening.{Agent}
use prv_application.Prelude.{
  Bool, List, Option, String, [], find_first, if◌then◌else◌, ℕ, ◌==◌, ◌∷◌,
}
use prv_application.Metadata.Types.{MetadataDefinition, ValueColumns}
use prv_application.Metadata.Values.{ValueError}
use prv_application.Search.{FieldDefinition, SearchError, SearchRequest}

pub data SelectionType : Type 0 where
  all_matter search_query random_matter random_batch : SelectionType

pub data BatchStatus : Type 0 where
  queued building ready failed archived : BatchStatus

pub record ReviewBatch : Type 0 where
  pub id : ℕ
  pub matter_id : ℕ
  pub selection_type : SelectionType
  pub search : Option SearchRequest  -- selection_definition["search"]
  pub source_batch_id : Option ℕ
  pub search_index_generation_id : Option ℕ
  pub sample_size : Option ℕ
  pub random_seed : Option String
  pub assigned_user_id : Option ℕ
  pub status : BatchStatus
  pub document_count : ℕ
  pub error_message : Option String
  pub completed_at : Option ℕ

-- ReviewBatchDocument
pub record BatchDocument : Type 0 where
  pub review_batch_id : ℕ
  pub matter_document_id : ℕ
  pub sequence_number : ℕ

-- The columns of MatterDocument that a selection reads.
pub record DocumentRow : Type 0 where
  pub id : ℕ
  pub matter_id : ℕ
  pub created_at : ℕ

pub record MatterRow : Type 0 where
  pub id : ℕ
  pub uuid : String
  pub tenant_id : ℕ  -- matter.client.tenant_id
  pub tenant : String  -- str(matter.client.tenant_id)

pub record Generation : Type 0 where
  pub id : ℕ
  pub matter_id : ℕ
  pub is_active : Bool  -- status == "ACTIVE"
  pub index_name : String

pub data RunType : Type 0 where
  human_run agent_run : RunType

pub data Purpose : Type 0 where
  review reference candidate : Purpose

pub data RunStatus : Type 0 where
  waiting running completed broken canceled : RunStatus

pub record ReviewRun : Type 0 where
  pub id : ℕ
  pub review_batch_id : ℕ
  pub run_type : RunType
  pub purpose : Purpose
  pub status : RunStatus
  pub parent_run_id : Option ℕ
  pub actor_user_id : Option ℕ
  pub agent_version_id : Option ℕ
  pub processed_document_count : ℕ
  pub created_at : ℕ
  pub completed_at : Option ℕ

pub data DocumentStatus : Type 0 where
  in_progress reviewed skipped : DocumentStatus

-- ReviewBatchRunDocument
pub record RunDocument : Type 0 where
  pub run_id : ℕ
  pub document_id : ℕ
  pub status : DocumentStatus
  pub started_at : ℕ
  pub completed_at : Option ℕ

-- ReviewBatchRunValue
pub record RunValue : Type 0 where
  pub run_id : ℕ
  pub document_id : ℕ
  pub definition_id : ℕ
  pub ordinal : ℕ
  pub columns : ValueColumns

-- ReviewBatchCodingField, with the batch of its group.
pub record CodingField : Type 0 where
  pub review_batch_id : ℕ
  pub definition_id : ℕ

pub record ReviewTables : Type 0 where
  pub batches : List ReviewBatch
  pub members : List BatchDocument
  pub documents : List DocumentRow
  pub matters : List MatterRow
  pub generations : List Generation
  pub fields : ℕ → List FieldDefinition  -- the definitions of a matter
  pub definitions : List MetadataDefinition
  pub coding_fields : List CodingField
  pub agents : List Agent
  pub versions : List AgentVersion
  pub runs : List ReviewRun
  pub run_documents : List RunDocument
  pub values : List RunValue

pub data ReviewError : Type 0 where
  no_batch no_matter no_generation no_search unanswered duplicate_document : ReviewError
  refused_search : SearchError → ReviewError
  forbidden no_run not_ready no_version not_assigned not_actor not_running not_reviewer :
      ReviewError
  not_member other_document not_coding_field one_value : ReviewError
  refused_value : ValueError → ReviewError

unfoldable pub put_batch : ReviewBatch → List ReviewBatch → List ReviewBatch
put_batch b [] = []
put_batch b (c ∷ cs) = let rest = put_batch b cs in if c.id == b.id then b ∷ rest else c ∷ rest

unfoldable pub put_run : ReviewRun → List ReviewRun → List ReviewRun
put_run r [] = []
put_run r (s ∷ ss) = let rest = put_run r ss in if s.id == r.id then r ∷ rest else s ∷ rest

abbrev pub find_batch : ReviewTables → ℕ → Option ReviewBatch
find_batch db id = find_first (λ (b : ReviewBatch). b.id == id) db.batches

abbrev pub is_member_of : ℕ → BatchDocument → Bool
is_member_of batch_id m = m.review_batch_id == batch_id
