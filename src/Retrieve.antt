-- ===== src/Retrieve.antt =====
-- backend/internal/retrieve: what the search does with names, with paths and with ranked lists.
pub mod Edit
pub mod Paths
pub mod Hits
pub mod Fuse
pub mod Rerank
mod Tests
