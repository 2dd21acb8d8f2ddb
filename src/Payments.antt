-- ===== src/Payments.antt =====
-- apps/core/src/module/payment-intent: incoming payments, from a transfer to balance changes.
pub mod Model
pub mod Fee
pub mod Operations
pub mod Match
pub mod Convert
pub mod Classification
pub mod Settlement
pub mod Pairing
pub mod FeeParts
mod Tests
pub mod Inbox
pub mod Finalize
pub mod Batches
pub mod Process
pub mod Receipts
