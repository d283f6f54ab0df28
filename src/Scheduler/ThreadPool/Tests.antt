-- ===== src/Scheduler/ThreadPool/Tests.antt =====
-- `ThreadPool` at concrete inputs.
use scicompute.Base.{ℕ, ◌+◌, ◌≡◌, refl, false, [], ◌∷◌, ◌++◌, length, arith}
use scicompute.Base.Sums.{sum_by}
use scicompute.Scheduler.ThreadPool.{
  Worker, ThreadPool, enqueue, Lock, count_queued, count_dequeued, count_active, take_task, finish,
  Reach, here, later,
}
use scicompute.Scheduler.ThreadPool.Workers.{
  in_task, in_count, has_popped, has_dequeued, of_client, of_worker,
}
use scicompute.Scheduler.ThreadPool.Counts.{counters_account, wait_all_done}

-- One of two workers is in the task 7, and 8 waits.
abbrev halfway : ThreadPool ℕ
halfway = record {
  workers = Worker.waiting ∷ Worker.busy 7 ∷ [];
  tasks = 8 ∷ [];
  lock = Lock.free;
  stop = false;
  pause = false;
  active = 1;
  queued = 1;
  completed = 0;
  enqueued = 7 ∷ 8 ∷ [];
  started = 7 ∷ [];
}

halfway-Reach : Reach 2 halfway
halfway-Reach =
    later
      (later
        (later
          (later
            (later (later (later here (enqueue 7 refl refl)) (count_queued refl))
              (enqueue 8 refl refl))
            (count_queued refl))
          (take_task 1 7 (8 ∷ []) refl refl refl refl))
        (count_dequeued 1 7 refl))
      (count_active 1 7 refl)

-- The other worker has popped the task 8 and not counted it.
abbrev between : ThreadPool ℕ
between = record halfway {
  lock = Lock.taking;
  workers = Worker.popped 8 ∷ Worker.busy 7 ∷ [];
  tasks = [];
  started = 7 ∷ 8 ∷ [];
}

between-Reach : Reach 2 between
between-Reach = later halfway-Reach (take_task 0 8 [] refl refl refl refl)

counters_account_example :
    (between.queued + of_client between.lock
      ≡ length between.tasks + sum_by has_popped between.workers)
    × (between.active + sum_by has_popped between.workers + sum_by has_dequeued between.workers
        ≡ sum_by in_task between.workers)
    × (sum_by has_popped between.workers + sum_by has_dequeued between.workers
        ≡ of_worker between.lock)
    × (between.completed + sum_by in_task between.workers + sum_by in_count between.workers
        ≡ length between.started)
    × (between.enqueued ≡ between.started ++ between.tasks)
counters_account_example = counters_account 2 between between-Reach (omega arith)

-- Both tasks are over, and no worker has counted its own yet.
abbrev over : ThreadPool ℕ
over = record halfway {
  workers = Worker.counting ∷ Worker.counting ∷ [];
  tasks = [];
  active = 0;
  queued = 0;
  started = 7 ∷ 8 ∷ [];
}

over-Reach : Reach 2 over
over-Reach =
    later
      (later (later (later between-Reach (count_dequeued 0 8 refl)) (count_active 0 8 refl))
        (finish 1 7 refl))
      (finish 0 8 refl)

wait_all_done_example : (over.started ≡ over.enqueued) × (sum_by in_task over.workers ≡ 0)
wait_all_done_example = wait_all_done 2 over over-Reach (omega arith) refl refl refl
