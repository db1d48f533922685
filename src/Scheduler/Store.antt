-- ===== src/Scheduler/Store.antt =====
-- The repositories over PostgreSQL: mikrom-scheduler/src/infrastructure/db/mod.rs. A table is the
-- list of its rows; each statement is modelled by what its SQL text says.
pub mod Jobs
pub mod Apps
pub mod Workers
