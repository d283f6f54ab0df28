-- ===== src/Queue.antt =====
-- include/bridges/impl/ipc_queue_impl.hpp: the lock-free queues of the IPC bridge.
pub mod Spsc
pub mod Mpsc
