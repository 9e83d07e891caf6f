-- ===== src/Sources.antt =====
-- src/trader/sources: what is known of a ticker from the imported posts.
pub mod Evidence
pub mod Adapter
pub mod Serenity
