-- ===== src/Materialize.antt =====
-- include/materialize and src/materialize: sorting, grouping and the merge join.
pub mod Compare
pub mod SortScan
pub mod Aggregate
pub mod GroupBy
pub mod MergeJoin
pub mod Cost
