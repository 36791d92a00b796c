-- ===== src/Repository.antt =====
-- internal/repository: the statements that the repositories send, as functions on the tables.
pub mod Sql
pub mod Users
pub mod Resets
pub mod Newest
pub mod Audit
