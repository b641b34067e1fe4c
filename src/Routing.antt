-- ===== src/Routing.antt =====
-- src/llm_router/routing.py: which model answers a request.
pub mod Task
pub mod Router
pub mod Select
pub mod Eligible
pub mod Selection
