-- ===== src/Payouts.antt =====
-- apps/core/src/module/payout-intent: outgoing payouts, from a transfer to balance changes.
pub mod Model
pub mod Operations
pub mod Holds
pub mod Convert
pub mod Released
pub mod OwnFee
pub mod Create
mod Tests
