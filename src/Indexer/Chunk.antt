-- ===== src/Indexer/Chunk.antt =====
-- backend/internal/indexer/chunk.go: a file is cut into regions, a region into windows of lines,
-- and an overlong line into pieces.
pub mod Windows
pub mod Cover
pub mod Regions
pub mod Partition
pub mod Kinds
pub mod Assemble
mod Blank
mod Keep
pub mod Complete
pub mod Key
mod Tests
pub mod Pieces
