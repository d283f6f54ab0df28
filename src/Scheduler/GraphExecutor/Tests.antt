-- ===== src/Scheduler/GraphExecutor/Tests.antt =====
-- `GraphExecutor` at concrete inputs.
use scicompute.Base.{
  ℕ, ◌≡◌, true, false, refl, suc, zero, subst, some_inj, sym, ◌∙◌, ◌≤◌, ◌≢◌, arith, Option, some,
  none, [], ◌∷◌, ◌==◌, if◌then◌else◌,
}
use scicompute.Base.Assoc.{find, find-miss, put, erase}
use scicompute.Base.Sets.{contains, count}
use scicompute.Scheduler.TaskGraph.{
  Status, Task, TaskGraph, get_task, get_dependencies, listed, without, has_task, add_task,
  add_edges, adds_task, adds_edges,
}
use scicompute.Scheduler.TaskGraph
use scicompute.Scheduler.TaskGraph.Search.{is_valid, is_dag}
use scicompute.Scheduler.GraphExecutor.{
  GraphExecutor, is_pending, is_completed, status_after, execute, reset, process_one,
  closure_executes, get_ready_tasks, Run, start, scans, takes, executes,
}
use scicompute.Scheduler.GraphExecutor.Finishing.{execute_completes}
use scicompute.Scheduler.GraphExecutor.Order.{runs_in_order}
use scicompute.Scheduler.GraphExecutor.History.{Succeeded, IsHistory, AllPending}

abbrev pending : ℕ → Task
pending i = record { id = i; status = Status.pending }

-- Two tasks, and the edge 1 → 2.
abbrev pair : TaskGraph
pair = record {
  tasks = (2, pending 2) ∷ (1, pending 1) ∷ [];
  edges = (1, 2 ∷ []) ∷ [];
  rev_edges = (2, 1 ∷ []) ∷ [];
}

abbrev idle : GraphExecutor
idle = record {
  graph = pair;
  running_tasks = [];
  completed_tasks = [];
  running = 0;
  completed = 0;
  cancelled = false;
  executed = [];
  pooled = [];
  begun = [];
}

abbrev succeed : ℕ → Option Status
succeed i = some Status.completed

-- The function of the task 1 throws.
abbrev throw : ℕ → Option Status
throw i = if i == 1 then none else some Status.completed

pair-AllPending : AllPending pair
unfolding find
pair-AllPending zero t e = cc
pair-AllPending (suc zero) t e = subst (λ (k : Task). is_pending k.status ≡ true) (some_inj e) refl
pair-AllPending (suc (suc zero)) t e =
    subst (λ (k : Task). is_pending k.status ≡ true) (some_inj e) refl
pair-AllPending (suc (suc (suc i))) t e =
    let far : (k : ℕ) → k ≤ 2 → suc (suc (suc i)) ≢ k =
      λ k l h. let bad : 1 ≤ 0 = omega arith in elim bad [ ] in
    cc (
      sym (find-miss (suc (suc (suc i))) (1, pending 1) [] (far 1 (omega arith)))
      ∙ sym
          (find-miss (suc (suc (suc i))) (2, pending 2) ((1, pending 1) ∷ []) (far 2 (omega arith)))
      ∙ e)

-- With a thread pool: the task 1 is given to it and runs there.
abbrev claimed : GraphExecutor
claimed = record idle { running_tasks = 1 ∷ []; running = 1; pooled = 1 ∷ [] }

abbrev ran : GraphExecutor
unfolding closure_executes
ran = closure_executes succeed 1 claimed

ran-Run : Run true succeed pair ran []
unfolding reset get_ready_tasks process_one get_task find get_dependencies listed closure_executes
    count
ran-Run = executes 1 (takes (scans (start idle refl refl))) (omega arith)

runs_in_order_example :
    IsHistory succeed pair ran.executed
    × ((id : ℕ) (t : Task)
        → find id ran.graph.tasks ≡ some t
        → is_completed t.status ≡ true
        → Succeeded succeed ran.executed id)
runs_in_order_example = runs_in_order true succeed pair ran [] pair-AllPending ran-Run

-- Without one: both tasks run, in order, in two rounds.
abbrev all_done : GraphExecutor
all_done = record {
  graph = record pair {
    tasks =
        (2, record { id = 2; status = Status.completed })
        ∷ (1, record { id = 1; status = Status.completed })
        ∷ [];
  };
  running_tasks = [];
  completed_tasks = 2 ∷ 1 ∷ [];
  running = 0;
  completed = 2;
  cancelled = false;
  executed = 2 ∷ 1 ∷ [];
  pooled = [];
  begun = [];
}

executed_all : execute succeed 3 pair idle ≡ some (none, all_done)
unfolding execute is_valid is_dag find listed without has_task get_task get_dependencies
executed_all = refl

-- When the function of 1 throws, the loop goes on for ever: after ten rounds it has not returned.
stuck : execute throw 10 pair idle ≡ none
unfolding execute is_valid is_dag find listed without has_task get_task get_dependencies
stuck = refl

pair-Reach : TaskGraph.Reach true pair
unfolding add_task add_edges find put erase
pair-Reach =
    adds_edges 1 (2 ∷ []) (adds_task (pending 2) (adds_task (pending 1) TaskGraph.start)) refl

execute_completes_example :
    (done : GraphExecutor) × (execute succeed 3 pair idle ≡ some (none, done))
    × ((x : ℕ)
        → has_task x pair ≡ true
        → (contains x done.executed ≡ true)
          × ((t : Task) × (find x done.graph.tasks ≡ some t) × (is_completed t.status ≡ true)))
    × (done.completed ≡ 2)
unfolding is_valid is_dag find listed without has_task status_after
execute_completes_example =
    execute_completes pair succeed idle pair-Reach refl pair-AllPending (λ id. refl) (omega arith)
