-- ===== src/Governance.antt =====
-- src/llm_router/governance.py: the catalog's record in a model registry.
pub mod Records
pub mod Catalog
pub mod Plan
pub mod Ledger
pub mod Memory
pub mod Filed
pub mod Wanted
pub mod Planned
pub mod Effects
pub mod Steps
pub mod Covers
pub mod Settled
pub mod Facets
pub mod Sync
pub mod Refines
pub mod Promotions
pub mod Ends
pub mod Outcome
