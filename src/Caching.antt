-- ===== src/Caching.antt =====
-- src/llm_router/caching.py: the four caches, their keys and what may be reused.
pub mod Keys
pub mod Store
pub mod Kept
pub mod Semantic
pub mod Decisions
