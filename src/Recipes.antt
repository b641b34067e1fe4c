-- ===== src/Recipes.antt =====
-- src/llm_router/adapters.py: adapter recipes, their check against the catalog, and catalog entries.
pub mod Records
pub mod Check
pub mod Entry
pub mod Reproducible
