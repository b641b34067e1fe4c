-- ===== src/Gateway.antt =====
-- The completion handler of src/llm_router/app.py, `_complete`, in the stretches between its waits,
-- and the gateway as requests interleave.
pub mod State
pub mod Caches
pub mod Receive
pub mod Calls
pub mod Streams
pub mod Watch
pub mod Traffic
pub mod Slots
pub mod Leases
pub mod Steady
pub mod Bound
pub mod Floor
pub mod Privacy
pub mod Outside
pub mod Consent
pub mod Once
pub mod Reuse
pub mod Hits
pub mod Trials
pub mod Attempts
pub mod Freed
