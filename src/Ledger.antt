-- ===== src/Ledger.antt =====
-- apps/ledger/src/module/balance: the event-sourced balances.
pub mod Amounts
pub mod Keys
pub mod Snapshots
pub mod Store
pub mod Spec
pub mod Apply
pub mod Groups
pub mod Process
mod Tests
