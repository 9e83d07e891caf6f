-- ===== src/Engine.antt =====
-- src/trader/engine: approvals, the execution of orders, fills, holdings and the kill switch.
pub mod Approval
pub mod Executor
pub mod KillSwitch
pub mod Fills
pub mod Holdings
pub mod Candidates
pub mod Cycle
