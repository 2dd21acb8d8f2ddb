-- ===== src/Ledger/Apply.antt =====
-- What `applyFromGroups` of
-- apps/ledger/src/module/balance/repository/balance/balance.repository.ts does to the database.
pub mod Writes
pub mod Range
pub mod Batch
pub mod Accepted
pub mod Refinement
pub mod Concurrent
pub mod Solvency
