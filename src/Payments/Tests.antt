-- ===== src/Payments/Tests.antt =====
-- The payments' theorems at concrete data.
mod Data
mod Converters
mod Queue
mod Processing
