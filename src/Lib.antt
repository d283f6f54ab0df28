-- ===== src/Lib.antt =====
-- A model of the core of scicompute (C++), a library of scientific computing, with proofs.
--
-- Parts:
--   * Queue.Spsc, Queue.Mpsc: the two lock-free ring buffers of
--     include/bridges/impl/ipc_queue_impl.hpp. Each operation is a function on a record of the
--     class's fields; `none` stands for undefined behaviour (a division by zero, an access outside
--     the buffer) in `SPSCQueue`, and for the fuel running out in the compare-exchange loop of
--     `MPSCQueue::Push`. Threads is the concurrent reading: one step for each shared access, any
--     interleaving, with a release store seen whole by the acquire load that reads it.
--   * Memory.Allocator: `HostAllocator` of src/memory/allocator.cpp (its map of blocks and its
--     statistics), with what `posix_memalign` gives as an argument.
--   * Memory.BufferHandle: the owning handle of src/memory/buffer_handle.cpp, and programs of
--     statements on handles (Ownership).
--   * Memory.SlabPool: `SlabAllocator` and `SlabPoolBridge` of bridges/pool_bridge from one thread:
--     size classes (Sizes), and blocks that go out and come back (Bridge). What `new` gives is an
--     argument.
--   * Scheduler.ThreadPool: `ThreadPool` of src/scheduler/thread_pool.cpp as a step relation of its
--     clients and workers, with a step for each operation on the queue or on a counter, also inside
--     the critical sections; Workers has the sums over the workers, Counts the counters and the
--     order.
--   * Memory.Pools: include/memory/memory_pool.hpp. Stack is `LockFreeStack` with the links in its
--     blocks; the pools take their free list as the list of the blocks that it holds. FixedPool is
--     `FixedSizeMemoryPool` with the blocks that its client holds, Slabs is the `SlabAllocator` of
--     this header, whose slabs have the fields of FixedPool, TlsCache is the cache of a thread over
--     any allocator (`Laws` is what it relies on), Manager keeps the pools by block size. What
--     `new` gives is an argument.
--   * Scheduler.TaskGraph: the nodes and the edges of `TaskGraph` of src/scheduler/task_graph.cpp;
--     a flag says whether assertions are compiled in. Search is the depth-first search of
--     `topological_sort` and `is_dag`, with `is_valid`; Depends is `depends_on`.
--   * Scheduler.GraphExecutor: `GraphExecutor` of src/scheduler/task_graph.cpp with
--     `get_ready_tasks` and `FunctionalTask::execute` of src/scheduler/task.cpp. The rounds without
--     a thread pool are functions; with one, `Run` lets the thread of `execute`, the closures that
--     it enqueued and a canceller take turns; History and Steps have its invariant. What the
--     function of a task returns is an argument.
--   * Core.Status and Core.Expected: the codes, the factories and the comparisons of `Status`, and
--     `Expected`, of include/core/status.hpp.
--   * Device.Manager: `DeviceManager` of src/device/device.cpp: its registry (Registry), the
--     lookups that scan for devices (Lookup) and its callbacks, which return and do not call the
--     manager. What `CudaDevice::Create` gives is an argument.
--   * Core.Types and Core.Shape: the enumerations and `TensorShape` of include/core/types.hpp; Rows
--     is the row-major order, Writes the construction.
--   * Tensor: `Tensor` and `TensorView` of src/tensor/tensor.cpp, in a build without `SCI_DEBUG`,
--     where assertions check nothing. View has the views and the offsets of elements (Offsets,
--     Index), with slices (Slices, Inner), transposition (Swaps) and `is_contiguous` (Dense); Data
--     has the contents: `fill` (Fills) and the copies between devices (Spaces, Copies), the memory
--     operations of which are an argument (`DeviceOps`, with those of `CPUDevice`); Options has
--     `TensorOptions`. A buffer is an address and the list of its bytes; a block that is copied
--     says in which memory it lies, the host's or a device's.
--   * Math: the kernels of src/math: elementwise.cpp (Elementwise), reduction.cpp (Reduction),
--     softmax.cpp (Softmax, with its loop over rows in RowLoop) and normalization.cpp
--     (Normalization). `Float` has the operations on `float` that they use, as an instance
--     argument, and `IsOrdered` the laws of its comparison without NaN. A tensor is its shape, its
--     element type and its block seen as an array of floats.
-- Slabs and Manager use FixedPool, GraphExecutor uses TaskGraph, Tensor uses Core.Shape, and Math
-- uses both; else the parts do not call each other. They share Base (lists, options, tests, machine
-- words, Base.Assoc for `std::unordered_map`, Base.Sets for sets).
--
-- `size_t` is ℕ below 2 ^ 64 with its wrap-around written out in Base.Words, `intptr_t` is the ℤ of
-- Base.Int; addresses of the pools are unbounded, the bytes of a chunk are a `size_t`. Fuel: the
-- searches of `TaskGraph` go two levels deeper than there are entries in the edge map, since every
-- level but the last two expands an entry for the first time; `depends_on` takes as many rounds as
-- its queue can ever hold ids, and one more, since an id is expanded once. The fuel of the loop of
-- `GraphExecutor::execute` is an argument: with a task that fails it may never end. The fuel of
-- `MPSCQueue::Push` is one too. The loop of `Tensor::fill` has as many rounds of fuel as there are
-- elements, and needs fewer. Signed 64-bit arithmetic overflows to `none` (`mul_int64` of
-- Base.Int).
--
-- Not modelled: streams, the adapter of the thread pool and the benchmark runner; interleaved
-- operations of `LockFreeStack` (Memory.Pools.Stack.Tests runs one where a block that comes back
-- confuses `Pop`), futures, the callbacks of tasks; and, since they are calls of the operating
-- system or of the CUDA runtime, output or configuration, the CUDA devices and kernels, the GPU
-- memory and tensors, the shared-memory segments, the logger, timers, version strings, tests,
-- examples and the build.
pub mod Base
pub mod Core
pub mod Device
pub mod Math
pub mod Memory
pub mod Queue
pub mod Scheduler
pub mod Tensor
