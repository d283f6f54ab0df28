-- ===== src/Scheduler/TaskGraph/Tests.antt =====
-- `TaskGraph` at concrete inputs.
use scicompute.Base.Sets.{count}
use scicompute.Base.{ℕ, ◌≡◌, Bool, true, false, refl, some, [], ◌∷◌}
use scicompute.Base.Assoc.{find, put, erase}
use scicompute.Scheduler.TaskGraph.{
  Status, Task, TaskGraph, empty, add_task, add_edge, add_edges, remove_task, has_task,
  get_dependencies, get_dependents, Reach, start, adds_task, adds_edges, removes_task,
}
use scicompute.Scheduler.TaskGraph.Edges.{edges_mirror}

abbrev task : ℕ → Task
task i = record { id = i; status = Status.pending }

abbrev tasks_only : TaskGraph
unfolding add_task
tasks_only = (add_task (task 3) (add_task (task 2) (add_task (task 1) empty).1).1).1

tasks_only-Reach : (checked : Bool) → Reach checked tasks_only
unfolding tasks_only
tasks_only-Reach checked = adds_task (task 3) (adds_task (task 2) (adds_task (task 1) start))

-- Task 1 before the tasks 2 and 3.
abbrev fork : (g : TaskGraph) × (add_edges true 1 (2 ∷ 3 ∷ []) tasks_only ≡ some g)
unfolding add_edges tasks_only find put erase
fork = (_, refl)

fork-Reach : Reach true fork.0
fork-Reach = adds_edges 1 (2 ∷ 3 ∷ []) (tasks_only-Reach true) fork.1

edges_mirror_example :
    count 3 (get_dependents 1 (remove_task 2 fork.0))
    ≡ count 1 (get_dependencies 3 (remove_task 2 fork.0))
edges_mirror_example = edges_mirror true (remove_task 2 fork.0) (removes_task 2 fork-Reach) 1 3

-- Without the assertions an edge to no task is accepted.
unchecked_edge : (g : TaskGraph) × (add_edge false 1 9 tasks_only ≡ some g) × (has_task 9 g ≡ false)
unfolding add_edge tasks_only has_task find put erase
unchecked_edge = (_, refl, refl)
