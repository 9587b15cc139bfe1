-- ===== src/Providers.antt =====
-- src/providers.rs and src/pipeline.rs: the metadata providers of the import pipeline.
pub mod Backoff
mod Tests
