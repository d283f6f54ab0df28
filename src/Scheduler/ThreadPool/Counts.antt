-- ===== src/Scheduler/ThreadPool/Counts.antt =====
-- The counters of `ThreadPool`, the order of its tasks, and what `wait_all` waits for.
use mathlib.Core.List.{append_assoc, append-nil}
use scicompute.Base.{
  ℕ, zero, suc, ◌+◌, ◌^◌, ◌≤◌, ◌<◌, ◌≡◌, refl, sym, ap, ◌∙◌, some, [], ◌∷◌, ◌++◌, arith, length,
  length-append, get_elem?, set, replicate,
}
use scicompute.Base.Sums.{sum_by, sum_by-append, sum_by-set}
use scicompute.Scheduler.ThreadPool.{
  Worker, Lock, ThreadPool, create, Step, enqueue, count_queued, take_task, count_dequeued,
  count_active, leave, finish, count_completed, pauses, resumes, grows, shuts_down, Reach, here,
  later,
}
use scicompute.Scheduler.ThreadPool.Workers.{
  in_task, in_count, has_popped, has_dequeued, is_busy, sum_by-task_split, of_client, of_worker,
  one_holder,
}

module _ {ℓ} {A : Type ℓ} where
  record Good (s : ThreadPool A) : Type ℓ where
    queued : s.queued + of_client s.lock ≡ length s.tasks + sum_by has_popped s.workers
    active :
        s.active + sum_by has_popped s.workers + sum_by has_dequeued s.workers
        ≡ sum_by in_task s.workers
    holder : sum_by has_popped s.workers + sum_by has_dequeued s.workers ≡ of_worker s.lock
    completed :
        s.completed + sum_by in_task s.workers + sum_by in_count s.workers ≡ length s.started
    order : s.enqueued ≡ s.started ++ s.tasks

  sum_by-replicate :
      (f : Worker A → ℕ) (n : ℕ) → f Worker.waiting ≡ 0 → sum_by f (replicate n Worker.waiting) ≡ 0
  unfolding sum_by
  sum_by-replicate f zero e = refl
  sum_by-replicate f (suc n) e = omega (arith, e, sum_by-replicate f n e)

  Good-create : (n : ℕ) → Good (create n)
  Good-create n =
      let a = sum_by-replicate in_task n refl in
      let b = sum_by-replicate in_count n refl in
      let c = sum_by-replicate has_popped n refl in
      let d = sum_by-replicate has_dequeued n refl in
      record {
        queued = omega arith;
        active = omega arith;
        holder = omega arith;
        completed = omega arith;
        order = refl;
      }

  all_of : (s : ThreadPool A) → Good s → length s.enqueued ≡ length s.started + length s.tasks
  all_of s g = ap (λ r. length r) g.order ∙ length-append s.started s.tasks

  -- What a step of the worker i does to a sum over the workers.
  abbrev Shift : (Worker A → ℕ) → ThreadPool A → ℕ → Worker A → Worker A → Type 0
  Shift f s i old new = sum_by f (set s.workers i new) + f old ≡ sum_by f s.workers + f new

  moved :
      (s : ThreadPool A) (i : ℕ) (old new : Worker A)
      → get_elem? s.workers i ≡ some old
      → Shift in_task s i old new
        × Shift in_count s i old new
        × Shift has_popped s i old new
        × Shift has_dequeued s i old new
  moved s i old new e = (
    sum_by-set in_task s.workers i old new e,
    sum_by-set in_count s.workers i old new e,
    sum_by-set has_popped s.workers i old new e,
    sum_by-set has_dequeued s.workers i old new e,
  )

  Good-Step : (s t : ThreadPool A) → Good s → length s.enqueued < 2 ^ 63 → Step s t → Good t
  Good-Step s t g small (enqueue task l e) =
      let unheld = ap of_client l in
      let idle = ap of_worker l in
      record {
        queued = omega (arith, g.queued, length-append s.tasks (task ∷ []));
        active = g.active;
        holder = omega (arith, g.holder);
        completed = g.completed;
        order = ap (λ r. r ++ task ∷ []) g.order ∙ append_assoc s.started s.tasks (task ∷ []);
      }
  Good-Step s t g small (count_queued l) =
      let client = ap of_client l in
      let idle = ap of_worker l in
      record {
        queued = omega (arith, g.queued, g.holder, all_of s g);
        active = g.active;
        holder = omega (arith, g.holder);
        completed = g.completed;
        order = g.order;
      }
  Good-Step s t g small (take_task i task rest l e w f) =
      let (a, b, c, d) = moved s i Worker.waiting (Worker.popped task) e in
      let unheld = ap of_client l in
      let idle = ap of_worker l in
      let long = ap (λ r. length r) f in
      record {
        queued = omega (arith, g.queued);
        active = omega (arith, g.active);
        holder = omega (arith, g.holder);
        completed = omega (arith, g.completed, length-append s.started (task ∷ []));
        order =
            g.order ∙ ap (λ r. s.started ++ r) f ∙ sym (append_assoc s.started (task ∷ []) rest);
      }
  Good-Step s t g small (count_dequeued i task e) =
      let (a, b, c, d) = moved s i (Worker.popped task) (Worker.dequeued task) e in
      let one = one_holder s.lock in
      record {
        queued = omega (arith, g.queued, g.holder, all_of s g);
        active = omega (arith, g.active);
        holder = omega (arith, g.holder);
        completed = omega (arith, g.completed);
        order = g.order;
      }
  Good-Step s t g small (count_active i task e) =
      let (a, b, c, d) = moved s i (Worker.dequeued task) (Worker.busy task) e in
      let one = one_holder s.lock in
      record {
        queued = omega (arith, g.queued, g.holder);
        active = omega (arith, g.active, g.completed, all_of s g);
        holder = omega (arith, g.holder);
        completed = omega (arith, g.completed);
        order = g.order;
      }
  Good-Step s t g small (leave i l e p f) =
      let (a, b, c, d) = moved s i Worker.waiting Worker.returned e in
      record {
        queued = omega (arith, g.queued);
        active = omega (arith, g.active);
        holder = omega (arith, g.holder);
        completed = omega (arith, g.completed);
        order = g.order;
      }
  Good-Step s t g small (finish i task e) =
      let (a, b, c, d) = moved s i (Worker.busy task) Worker.counting e in
      let busy = sum_by-set is_busy s.workers i (Worker.busy task) Worker.counting e in
      let split = sum_by-task_split s.workers in
      record {
        queued = omega (arith, g.queued);
        active = omega (arith, g.active, g.holder, all_of s g, g.completed);
        holder = omega (arith, g.holder);
        completed = omega (arith, g.completed);
        order = g.order;
      }
  Good-Step s t g small (count_completed i e) =
      let (a, b, c, d) = moved s i Worker.counting Worker.waiting e in
      record {
        queued = omega (arith, g.queued);
        active = omega (arith, g.active);
        holder = omega (arith, g.holder);
        completed = omega (arith, g.completed, all_of s g);
        order = g.order;
      }
  Good-Step s t g small pauses = record {
    queued = g.queued;
    active = g.active;
    holder = g.holder;
    completed = g.completed;
    order = g.order;
  }
  Good-Step s t g small resumes = record {
    queued = g.queued;
    active = g.active;
    holder = g.holder;
    completed = g.completed;
    order = g.order;
  }
  Good-Step s t g small (grows l) =
      let a = sum_by-append in_task s.workers Worker.waiting in
      let b = sum_by-append in_count s.workers Worker.waiting in
      let c = sum_by-append has_popped s.workers Worker.waiting in
      let d = sum_by-append has_dequeued s.workers Worker.waiting in
      record {
        queued = omega (arith, g.queued);
        active = omega (arith, g.active);
        holder = omega (arith, g.holder);
        completed = omega (arith, g.completed);
        order = g.order;
      }
  Good-Step s t g small shuts_down = record {
    queued = g.queued;
    active = g.active;
    holder = g.holder;
    completed = g.completed;
    order = g.order;
  }

  Step-more : (s t : ThreadPool A) → Step s t → length s.enqueued ≤ length t.enqueued
  Step-more s t (enqueue task l e) = omega (arith, length-append s.enqueued (task ∷ []))
  Step-more s t (count_queued l) = omega arith
  Step-more s t (take_task i task rest l e w f) = omega arith
  Step-more s t (count_dequeued i task e) = omega arith
  Step-more s t (count_active i task e) = omega arith
  Step-more s t (leave i l e p f) = omega arith
  Step-more s t (finish i task e) = omega arith
  Step-more s t (count_completed i e) = omega arith
  Step-more s t pauses = omega arith
  Step-more s t resumes = omega arith
  Step-more s t (grows l) = omega arith
  Step-more s t shuts_down = omega arith

  Reach-Good : (n : ℕ) (s : ThreadPool A) → Reach n s → length s.enqueued < 2 ^ 63 → Good s
  Reach-Good n s here small = Good-create n
  Reach-Good n s (later {s = r} h st) small =
      let before : length r.enqueued < 2 ^ 63 = omega (arith, Step-more r s st, small) in
      Good-Step r s (Reach-Good n r h before) before st

  -- At every moment at which fewer than 2^63 tasks were enqueued: `queued()` is the number of tasks in
  -- the queue, but for one that a client has pushed and not counted and one that a worker has popped
  -- and not counted; `active()` is the number of workers that have a task, but for one that has not
  -- counted itself; there is at most one of all these, and none when nobody holds the lock;
  -- `completed()` counts the tasks started but for those of workers that have a task or are before
  -- the counter; and tasks start in the order of `enqueue`.
  pub counters_account :
      (n : ℕ) (s : ThreadPool A)
      → Reach n s
      → length s.enqueued < 2 ^ 63
      → (s.queued + of_client s.lock ≡ length s.tasks + sum_by has_popped s.workers)
        × (s.active + sum_by has_popped s.workers + sum_by has_dequeued s.workers
            ≡ sum_by in_task s.workers)
        × (sum_by has_popped s.workers + sum_by has_dequeued s.workers ≡ of_worker s.lock)
        × (s.completed + sum_by in_task s.workers + sum_by in_count s.workers ≡ length s.started)
        × (s.enqueued ≡ s.started ++ s.tasks)
  counters_account n s r small =
      let g = Reach-Good n s r small in (g.queued, g.active, g.holder, g.completed, g.order)

  -- When the condition of `wait_all` holds, which is read while no other thread holds the lock, and
  -- fewer than 2^63 tasks were enqueued, every task enqueued so far was started, in order, and no
  -- worker has one.
  pub wait_all_done :
      (n : ℕ) (s : ThreadPool A)
      → Reach n s
      → length s.enqueued < 2 ^ 63
      → s.lock ≡ Lock.free
      → s.tasks ≡ []
      → s.active ≡ 0
      → (s.started ≡ s.enqueued) × (sum_by in_task s.workers ≡ 0)
  wait_all_done n s r small l e a =
      let g = Reach-Good n s r small in
      let idle = ap of_worker l in
      (
        sym (g.order ∙ ap (λ l. s.started ++ l) e ∙ append-nil s.started),
        omega (arith, g.active, g.holder),
      )
