-- ===== src/Worker.antt =====
-- The clock (application/common/clock.py) and the jobs and handlers of apps/worker. Times are
-- microseconds since the epoch.
pub mod Clock
pub mod Opening
pub mod Jobs
pub mod DriftAlert
mod Tests
