-- ===== src/Artifacts.antt =====
-- src/llm_router/artifact_scan.py: what an artifact must be before it is released.
pub mod Tensors
pub mod Tiles
pub mod Files
pub mod Payloads
pub mod Scan
pub mod Clean
