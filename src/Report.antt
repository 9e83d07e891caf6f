-- ===== src/Report.antt =====
-- src/trader/report: the estimate of what trading with real money would have cost.
pub mod Estimate
pub mod Metrics
