-- ===== src/Domain.antt =====
-- src/trader/domain: results, amounts and the frozen records.
pub mod Result
pub mod Decimal
pub mod Money
pub mod Models
pub mod Retry
