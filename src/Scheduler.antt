-- ===== src/Scheduler.antt =====
-- The scheduler: graphs of tasks, and the pool of threads that runs tasks.
pub mod TaskGraph
pub mod ThreadPool
pub mod GraphExecutor
