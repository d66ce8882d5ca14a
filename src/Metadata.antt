-- ===== src/Metadata.antt =====
-- Document metadata: immutable events, and the current value of each field that they resolve to
-- (app/document_metadata.py).
pub mod Types
pub mod Resolve
pub mod Values
pub mod Store
pub mod Batch
mod Examples
