-- ===== src/Admission.antt =====
-- src/llm_router/admission.py and the quota of src/llm_router/redis_state.py.
pub mod Quota
pub mod Window
pub mod History
pub mod Shared
pub mod Slots
