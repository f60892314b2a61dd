-- ===== src/Metadata.antt =====
-- include/metadata and src/metadata: the catalog of tables and views, and the statistics. All of it
-- is kept in tables, which a transaction reads and writes through table scans.
pub mod Names
pub mod Scanning
pub mod Tables
pub mod Views
pub mod Stats
pub mod Manager
