-- ===== src/Ask.antt =====
-- backend/internal/ask: the answer as it streams to the reader.
pub mod Markers
pub mod Rewriting
pub mod Renumber
pub mod Gather
