-- ===== src/Audit.antt =====
-- internal/audit: the audit log, its hash chain, the writer and the reader.
pub mod Log
pub mod HashChain
pub mod Tamper
pub mod Writer
pub mod Reader
pub mod Reading
pub mod Indexing
pub mod Query
pub mod Interleaved
