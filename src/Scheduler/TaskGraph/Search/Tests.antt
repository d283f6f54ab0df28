-- ===== src/Scheduler/TaskGraph/Search/Tests.antt =====
-- The searches of `TaskGraph` at concrete inputs.
use scicompute.Base.{ℕ, ◌≡◌, Bool, true, false, refl, ◌↔◌, some, List, [], ◌∷◌}
use scicompute.Base.Assoc.{find, put, erase}
use scicompute.Base.Sets.{contains}
use scicompute.Scheduler.TaskGraph.{
  Status, Task, TaskGraph, add_task, add_edges, has_task, listed, without, Reach, start, adds_task,
  adds_edges,
}
use scicompute.Scheduler.TaskGraph.Search.{topological_sort, is_dag, is_valid}
use scicompute.Scheduler.TaskGraph.Search.Order.{IsOrdered}
use scicompute.Scheduler.TaskGraph.Search.Walks.{Cycle}
use scicompute.Scheduler.TaskGraph.Search.Sorting.{
  not_is_dag-Cycle, is_dag_decides, topological_sort_lem,
}

abbrev task : ℕ → Task
task i = record { id = i; status = Status.pending }

-- Three tasks, and the edges 1 → 2, 1 → 3 and 2 → 3.
abbrev diamond : TaskGraph
diamond = record {
  tasks = (3, task 3) ∷ (2, task 2) ∷ (1, task 1) ∷ [];
  edges = (2, 3 ∷ []) ∷ (1, 2 ∷ 3 ∷ []) ∷ [];
  rev_edges = (3, 1 ∷ 2 ∷ []) ∷ (2, 1 ∷ []) ∷ [];
}

diamond-Reach : Reach true diamond
unfolding add_task add_edges find put erase
diamond-Reach =
    adds_edges 2 (3 ∷ [])
      (adds_edges 1 (2 ∷ 3 ∷ [])
        (adds_task (task 3) (adds_task (task 2) (adds_task (task 1) start))) refl)
      refl

diamond-is_dag : is_dag diamond ≡ some true
unfolding is_dag find listed without
diamond-is_dag = refl

diamond_sorted : topological_sort diamond ≡ some (1 ∷ 2 ∷ 3 ∷ [])
unfolding topological_sort find listed without
diamond_sorted = refl

diamond_valid : is_valid diamond ≡ some true
unfolding is_valid find listed without
diamond_valid = refl

-- The edges 1 → 2 and 2 → 1.
abbrev loop : TaskGraph
loop = record {
  tasks = (2, task 2) ∷ (1, task 1) ∷ [];
  edges = (2, 1 ∷ []) ∷ (1, 2 ∷ []) ∷ [];
  rev_edges = (1, 2 ∷ []) ∷ (2, 1 ∷ []) ∷ [];
}

loop-is_dag : is_dag loop ≡ some false
unfolding is_dag find listed without
loop-is_dag = refl

loop_sorted : topological_sort loop ≡ some []
loop_sorted = (not_is_dag-Cycle loop loop-is_dag).1

is_dag_decides_example : (b : Bool) × (is_dag diamond ≡ some b) × ((b ≡ true) ↔ ¬ Cycle diamond)
is_dag_decides_example = is_dag_decides diamond diamond-Reach

topological_sort_lem_example :
    (l : List ℕ) × (topological_sort diamond ≡ some l)
    × IsOrdered diamond l
    × ((x : ℕ) → contains x l ≡ has_task x diamond)
topological_sort_lem_example = topological_sort_lem diamond diamond-Reach diamond-is_dag
