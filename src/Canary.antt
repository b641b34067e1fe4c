-- ===== src/Canary.antt =====
-- src/llm_router/canary.py: plans, the evaluation rule, and the monitor that splits traffic.
pub mod Evaluate
pub mod Verdicts
pub mod Plans
pub mod Objectives
pub mod PlansTotal
pub mod Arms
pub mod Monitor
pub mod Suspension
