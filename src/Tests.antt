-- ===== src/Tests.antt =====
-- Concrete inputs, and the theorems at them.
mod Data
mod Routes
mod Circuits
mod Caches
mod Canaries
mod Catalogs
mod Callers
mod Gateways
mod Fallbacks
mod Governed
mod Keyrings
mod Scans
mod Trained
