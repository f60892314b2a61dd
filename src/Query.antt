-- ===== src/Query.antt =====
-- include/query and src/query: expressions, terms, predicates and scans.
pub mod Scan
pub mod Predicate
pub mod Text
pub mod Update
pub mod Select
pub mod Project
pub mod Product
