-- ===== src/Ingest.antt =====
-- internal/ingest: the pipeline between the sources and the server.
pub mod Pipeline
pub mod Once
pub mod Retry
pub mod Tests
