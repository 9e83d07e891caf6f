-- ===== src/Rules.antt =====
-- src/trader/rules: the rule set, the checks before a buy, the exits and the loss limits.
pub mod Schema
pub mod Loss
pub mod Entry
pub mod Exit
pub mod Lock
