-- ===== src/Llm.antt =====
-- backend/internal/llm: the client of the language model.
pub mod Retry
