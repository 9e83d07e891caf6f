-- ===== src/Ledger.antt =====
-- src/trader/ledger: the database and its tables, and fills applied to positions.
pub mod Db
pub mod Repository
pub mod Portfolio
pub mod TradeCloser
pub mod Sources
