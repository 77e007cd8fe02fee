-- ===== src/Blob.antt =====
-- The content-addressed store: go/internal/blob.
pub mod Ref
pub mod Store
pub mod Memory
pub mod File
