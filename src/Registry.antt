-- ===== src/Registry.antt =====
-- src/llm_router/registry.py: the governed catalog of models, adapters, benchmarks, deployments,
-- tenants and engine variants.
pub mod Records
pub mod Catalog
pub mod Verdict
pub mod Validate
pub mod Entitlement
pub mod Adapters
pub mod History
pub mod Consistency
