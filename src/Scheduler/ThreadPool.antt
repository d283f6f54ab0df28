-- ===== src/Scheduler/ThreadPool.antt =====
-- `ThreadPool` of src/scheduler/thread_pool.cpp: clients and workers, interleaved at each operation
-- on the queue or on a counter; `mtx_` keeps the critical sections apart. What a task does, an exception included, is not seen.
pub mod Workers
pub mod Counts
mod Tests
use scicompute.Base.{
  ℕ, ◌≡◌, Bool, true, false, not, ◌||◌, Option, some, none, List, [], ◌∷◌, ◌++◌, get_elem?, set,
  replicate, add_size, sub_size,
}

-- Where `worker_loop` stands: at the wait; after `tasks_.pop()`; after `queued_.fetch_sub(1)`; in a
-- task, after `active_.fetch_add(1)`; between the two counters; or returned.
pub data Worker {ℓ} (A : Type ℓ) : Type ℓ where
  waiting : Worker A
  popped : (task : A) → Worker A
  dequeued : (task : A) → Worker A
  busy : (task : A) → Worker A
  counting : Worker A
  returned : Worker A

-- Who holds `mtx_`: nobody, a client between the push and the count of `enqueue`, or a worker that
-- takes a task.
pub data Lock : Type 0 where
  free : Lock
  enqueuing : Lock
  taking : Lock

-- `enqueued` are the tasks in the order in which they were enqueued, and `started` those that
-- workers have taken, in that order.
pub record ThreadPool {ℓ} (A : Type ℓ) : Type ℓ where
  pub workers : List (Worker A)
  pub tasks : List A
  pub lock : Lock
  pub stop : Bool
  pub pause : Bool
  pub active : ℕ
  pub queued : ℕ
  pub completed : ℕ
  pub enqueued : List A
  pub started : List A

module _ {ℓ} {A : Type ℓ} where
  -- `start(n)` in the constructor.
  abbrev pub create : ℕ → ThreadPool A
  create n = record {
    workers = replicate n Worker.waiting;
    tasks = [];
    lock = Lock.free;
    stop = false;
    pause = false;
    active = 0;
    queued = 0;
    completed = 0;
    enqueued = [];
    started = [];
  }

  -- `wakes` is the test of the wait, for a queue that is not empty.
  abbrev pub wakes : ThreadPool A → Bool
  wakes s = s.stop || not s.pause

  pub data Step (s : ThreadPool A) : ThreadPool A → Type ℓ where
    enqueue :
        (task : A)
        → s.lock ≡ Lock.free
        → s.stop ≡ false
        → Step s (record s {
          lock = Lock.enqueuing;
          tasks = s.tasks ++ task ∷ [];
          enqueued = s.enqueued ++ task ∷ [];
        })
    count_queued :
        s.lock ≡ Lock.enqueuing
        → Step s (record s { lock = Lock.free; queued = add_size s.queued 1 })
    take_task :
        (i : ℕ) (task : A) (rest : List A)
        → s.lock ≡ Lock.free
        → get_elem? s.workers i ≡ some Worker.waiting
        → wakes s ≡ true
        → s.tasks ≡ task ∷ rest
        → Step s (record s {
          lock = Lock.taking;
          workers = set s.workers i (Worker.popped task);
          tasks = rest;
          started = s.started ++ task ∷ [];
        })
    count_dequeued :
        (i : ℕ) (task : A)
        → get_elem? s.workers i ≡ some (Worker.popped task)
        → Step s (record s {
          workers = set s.workers i (Worker.dequeued task);
          queued = sub_size s.queued 1;
        })
    count_active :
        (i : ℕ) (task : A)
        → get_elem? s.workers i ≡ some (Worker.dequeued task)
        → Step s (record s {
          lock = Lock.free;
          workers = set s.workers i (Worker.busy task);
          active = add_size s.active 1;
        })
    leave :
        (i : ℕ)
        → s.lock ≡ Lock.free
        → get_elem? s.workers i ≡ some Worker.waiting
        → s.stop ≡ true
        → s.tasks ≡ []
        → Step s (record s { workers = set s.workers i Worker.returned })
    finish :
        (i : ℕ) (task : A)
        → get_elem? s.workers i ≡ some (Worker.busy task)
        → Step s
            (record s { workers = set s.workers i Worker.counting; active = sub_size s.active 1 })
    count_completed :
        (i : ℕ)
        → get_elem? s.workers i ≡ some Worker.counting
        → Step s (record s {
          workers = set s.workers i Worker.waiting;
          completed = add_size s.completed 1;
        })
    pauses : Step s (record s { pause = true })
    resumes : Step s (record s { pause = false })
    -- `resize`, one worker at a time.
    grows : s.lock ≡ Lock.free → Step s (record s { workers = s.workers ++ Worker.waiting ∷ [] })
    shuts_down : Step s (record s { stop = true })

  pub data Reach (n : ℕ) : ThreadPool A → Type ℓ where
    here : Reach n (create n)
    later : {s t : ThreadPool A} → Reach n s → Step s t → Reach n t
