-- ===== src/Scheduler/Tests.antt =====
-- The theorems on the scheduler at concrete inputs.
mod LifecycleCalls
mod Placements
mod Replicas
mod Loops
mod Beats
