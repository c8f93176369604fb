-- ===== src/Tasks.antt =====
-- internal/tasks.go and internal/queue.go: the task queue, the task states, runs and schedules.
pub mod Queue
pub mod States
pub mod Runs
pub mod Schedules
