-- ===== src/Daemon.antt =====
-- internal/daemon: the slot of the one run, and the schedule.
pub mod Runner
pub mod Schedule
pub mod OneRun
pub mod Owed
