-- ===== src/Engine.antt =====
-- What the gateway knows of the engine's load: src/llm_router/load.py, and from
-- src/llm_router/engine_stats.py the observation that it reads and the cold-start tracker.
pub mod Load
pub mod ColdStart
