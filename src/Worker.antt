-- ===== src/Worker.antt =====
-- worker/worker.py: what happens to one claimed task. The table is in `Tasks`.
pub mod Retry
pub mod Process
