-- ===== src/Examples.antt =====
-- Concrete inputs at which the conditions of the theorems hold.
mod Pages
mod Records
mod Pools
mod Locks
mod Logs
mod Fields
mod Values
mod Scans
mod Parsing
mod Planning
mod Transactions
mod Sorting
mod Updates
