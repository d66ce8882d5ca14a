-- ===== src/Deletion/Workflow.antt =====
-- app/workflows/collection_deletion.py: the two loops over batches, with the batch sizes of
-- artifact_service/deletion.py. `while True` runs on fuel, and `none` means that it ran out.
use prv_application.Prelude.{
  Bool, Option, Result, String, err, false, none, ok, some, suc, true, zero, ℕ, ◌>>=◌,
}
use prv_application.Deletion.{DeletionError, Tables}
use prv_application.Deletion.Rows.{delete_item_batch}
use prv_application.Deletion.Blobs.{BlobBatch, Storage, delete_blob_batch}

abbrev pub database_batch_size : ℕ
database_batch_size = 1000

abbrev pub blob_batch_size : ℕ
blob_batch_size = 250

-- The tables after the last batch, or the next round.
abbrev again :
    Bool → Tables → Result DeletionError (Option Tables) → Result DeletionError (Option Tables)
again true db rest = rest
again false db rest = ok (some db)

unfoldable pub delete_all_items : (ℕ → ℕ) → ℕ → Tables → ℕ → Result DeletionError (Option Tables)
unfolding delete_item_batch
delete_all_items new_id zero db job_id = ok none
delete_all_items new_id (suc fuel) db job_id = do
  (after, batch) ← delete_item_batch new_id db job_id database_batch_size
  again batch.has_more after (delete_all_items new_id fuel after job_id)

abbrev pub BlobRun : Type 0
BlobRun = Storage × Result DeletionError (Option Tables)

abbrev again_blobs : Bool → Storage → Tables → BlobRun → BlobRun
again_blobs true objects db rest = rest
again_blobs false objects db rest = (objects, ok (some db))

-- What the loop does with one batch, where `next` runs the rounds that remain.
abbrev pub after_blobs :
    Storage × Result DeletionError (Tables × BlobBatch) → (Tables → Storage → BlobRun) → BlobRun
after_blobs (objects, err e) next = (objects, err e)
after_blobs (objects, ok (db, batch)) next = again_blobs batch.has_more objects db (next db objects)

unfoldable pub delete_all_blobs : (String → String → Bool) → ℕ → Tables → Storage → ℕ → BlobRun
unfolding delete_blob_batch
delete_all_blobs refuses zero db objects job_id = (objects, ok none)
delete_all_blobs refuses (suc fuel) db objects job_id =
    after_blobs (delete_blob_batch refuses db objects job_id blob_batch_size)
      λ after left. delete_all_blobs refuses fuel after left job_id
