-- ===== src/Scheduler.antt =====
-- The scheduler (mikrom-scheduler): its domain types, its tables, and the services over them.
pub mod Job
pub mod Worker
pub mod World
pub mod Store
pub mod SixPn
pub mod Lifecycle
pub mod Deployment
pub mod Scaling
pub mod Reconcile
pub mod Heartbeats
mod Bounds
mod Addresses
mod Samples
mod Tests
