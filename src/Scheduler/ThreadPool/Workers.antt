-- ===== src/Scheduler/ThreadPool/Workers.antt =====
-- The workers of `ThreadPool` that a task is with, and who holds the lock, as numbers to be summed.
use scicompute.Base.{List, ℕ, ◌+◌, ◌≤◌, ◌≡◌, refl, [], ◌∷◌, arith}
use scicompute.Base.Sums.{sum_by}
use scicompute.Scheduler.ThreadPool.{Worker, Lock}

-- Whether a client, or a worker, holds the lock.
abbrev pub of_client : Lock → ℕ
of_client Lock.free = 0
of_client Lock.enqueuing = 1
of_client Lock.taking = 0

abbrev pub of_worker : Lock → ℕ
of_worker Lock.free = 0
of_worker Lock.enqueuing = 0
of_worker Lock.taking = 1

pub one_holder : (l : Lock) → of_client l + of_worker l ≤ 1
one_holder Lock.free = omega arith
one_holder Lock.enqueuing = omega arith
one_holder Lock.taking = omega arith

module _ {ℓ} {A : Type ℓ} where
  -- A worker that has a task.
  abbrev pub in_task : Worker A → ℕ
  in_task Worker.waiting = 0
  in_task (Worker.popped task) = 1
  in_task (Worker.dequeued task) = 1
  in_task (Worker.busy task) = 1
  in_task Worker.counting = 0
  in_task Worker.returned = 0

  -- A worker that has left its task and not counted it.
  abbrev pub in_count : Worker A → ℕ
  in_count Worker.waiting = 0
  in_count (Worker.popped task) = 0
  in_count (Worker.dequeued task) = 0
  in_count (Worker.busy task) = 0
  in_count Worker.counting = 1
  in_count Worker.returned = 0

  -- A worker after `tasks_.pop()`, before `queued_.fetch_sub(1)`.
  abbrev pub has_popped : Worker A → ℕ
  has_popped Worker.waiting = 0
  has_popped (Worker.popped task) = 1
  has_popped (Worker.dequeued task) = 0
  has_popped (Worker.busy task) = 0
  has_popped Worker.counting = 0
  has_popped Worker.returned = 0

  -- A worker after `queued_.fetch_sub(1)`, before `active_.fetch_add(1)`.
  abbrev pub has_dequeued : Worker A → ℕ
  has_dequeued Worker.waiting = 0
  has_dequeued (Worker.popped task) = 0
  has_dequeued (Worker.dequeued task) = 1
  has_dequeued (Worker.busy task) = 0
  has_dequeued Worker.counting = 0
  has_dequeued Worker.returned = 0

  abbrev pub is_busy : Worker A → ℕ
  is_busy Worker.waiting = 0
  is_busy (Worker.popped task) = 0
  is_busy (Worker.dequeued task) = 0
  is_busy (Worker.busy task) = 1
  is_busy Worker.counting = 0
  is_busy Worker.returned = 0

  -- A worker that has a task has just popped it, has just dequeued it, or is in it.
  task_split : (w : Worker A) → in_task w ≡ has_popped w + has_dequeued w + is_busy w
  task_split Worker.waiting = refl
  task_split (Worker.popped task) = refl
  task_split (Worker.dequeued task) = refl
  task_split (Worker.busy task) = refl
  task_split Worker.counting = refl
  task_split Worker.returned = refl

  pub sum_by-task_split :
      (ws : List (Worker A))
      → sum_by in_task ws ≡ sum_by has_popped ws + sum_by has_dequeued ws + sum_by is_busy ws
  unfolding sum_by
  sum_by-task_split [] = refl
  sum_by-task_split (w ∷ ws) = omega (arith, task_split w, sum_by-task_split ws)
