-- ===== src/Credentials.antt =====
-- Who is calling: src/llm_router/credentials.py and `authenticate` of src/llm_router/app.py.
pub mod Verifier
pub mod Caller
pub mod Accepted
pub mod Named
pub mod Keys
pub mod Refresh
