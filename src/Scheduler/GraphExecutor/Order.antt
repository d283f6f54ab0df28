-- ===== src/Scheduler/GraphExecutor/Order.antt =====
-- The order in which `GraphExecutor` runs the tasks.
use scicompute.Base.{ℕ, ◌≡◌, Bool, true, Option, some, List, ◌∷◌}
use scicompute.Base.Assoc.{find}
use scicompute.Scheduler.TaskGraph.{Status, Task, TaskGraph}
use scicompute.Scheduler.GraphExecutor.{
  GraphExecutor, is_completed, Run, start, scans, takes, executes, marks, cancels,
}
use scicompute.Scheduler.GraphExecutor.History.{
  Succeeded, IsHistory, AllPending, Inv, reset-Inv, scan-Inv,
}
use scicompute.Scheduler.GraphExecutor.Steps.{
  process_one-Inv, closure_executes-Inv, closure_marks-Inv, cancel-Inv,
}

module _ (g : TaskGraph) (func : ℕ → Option Status) where
  Run-Inv :
      (pool : Bool) (e : GraphExecutor) (ids : List ℕ)
      → AllPending g
      → Run pool func g e ids
      → Inv func g e ids
  Run-Inv pool e ids p (start d pooled begun) = reset-Inv g func p d pooled begun
  Run-Inv pool e ids p (scans {ids = old} r) = scan-Inv g func e old (Run-Inv pool e old p r)
  Run-Inv pool e ids p (takes {e = d} {id} r) =
      process_one-Inv g func pool id d ids (Run-Inv pool d (id ∷ ids) p r)
  Run-Inv pool e ids p (executes {e = d} id r h) =
      closure_executes-Inv g func id d ids (Run-Inv pool d ids p r) h
  Run-Inv pool e ids p (marks {e = d} id r h) =
      closure_marks-Inv g func id d ids (Run-Inv pool d ids p r) h
  Run-Inv pool e ids p (cancels {e = d} r) = cancel-Inv g func d ids (Run-Inv pool d ids p r)

-- However the thread of `execute`, the threads of the pool and a canceller take turns, and whatever
-- the functions of the tasks return, if all tasks are pending at first and no task of an earlier call
-- is still in the pool, then no task is run twice, and each is run only after all of its dependencies
-- were run and returned `kCompleted`; and a task with the status `kCompleted` is one that was run and
-- returned it.
pub runs_in_order :
    (pool : Bool) (func : ℕ → Option Status) (g : TaskGraph) (e : GraphExecutor) (ids : List ℕ)
    → AllPending g
    → Run pool func g e ids
    → IsHistory func g e.executed
      × ((id : ℕ) (t : Task)
          → find id e.graph.tasks ≡ some t
          → is_completed t.status ≡ true
          → Succeeded func e.executed id)
runs_in_order pool func g e ids p r = let v = Run-Inv g func pool e ids p r in (v.history, v.done)
