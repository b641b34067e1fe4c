-- ===== src/Resilience.antt =====
-- src/llm_router/resilience.py: the circuit breaker and the backend that it guards.
pub mod Breaker
pub mod Backend
pub mod Circuit
pub mod Trial
