-- ===== src/Indexer.antt =====
-- backend/internal/indexer: what is indexed of a repository, and in which pieces.
pub mod Chunk
pub mod State
pub mod Poller
pub mod Select
pub mod Write
pub mod Pipeline
