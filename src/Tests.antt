-- ===== src/Tests.antt =====
-- Tests and witnesses.
pub mod Table
pub mod Filters
pub mod Csv
pub mod Pages
pub mod Join
pub mod Query
