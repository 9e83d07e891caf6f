-- ===== src/Analysis.antt =====
-- src/trader/analysis: what the LLM is asked, and what of its answer is adopted.
pub mod Prompt
pub mod Output
pub mod Analyst
