-- ===== src/Archive.antt =====
-- src/archive: the MRT archive.
pub mod Types
pub mod FilePath
pub mod Layout
pub mod Queue
pub mod Replicator
pub mod World
pub mod Triple
pub mod Manifest
pub mod Writer
pub mod Snapshot
pub mod Service
