-- ===== src/Scheduler/TaskGraph/Keys.antt =====
-- The keys of the task map of a `TaskGraph`.
use scicompute.Base.{ℕ, ◌≡◌, ap, subst, ◌∙◌, Bool, some, List, [], ◌∷◌, some_inj}
use scicompute.Base.Assoc.{Distinct, Distinct-put, Distinct-erase}
use scicompute.Base.Fallible.{>>=-eq-some}
use scicompute.Scheduler.TaskGraph.{
  TaskGraph, add_task, add_edge, add_edges, remove_task, clear, Reach, start, adds_task, adds_edges,
  removes_task, clears,
}
use scicompute.Scheduler.TaskGraph.Edges.{add_edge-added, added}

add_edges-tasks :
    (checked : Bool) (from : ℕ) (tos : List ℕ) (g h : TaskGraph)
    → add_edges checked from tos g ≡ some h
    → g.tasks ≡ h.tasks
unfolding add_edges added
add_edges-tasks checked from [] g h e = ap (λ (r : TaskGraph). r.tasks) (some_inj e)
add_edges-tasks checked from (to ∷ tos) g h e =
    let (g1, e1, e2) = >>=-eq-some (add_edge checked from to g) (add_edges checked from tos) e in
    ap (λ (r : TaskGraph). r.tasks) (add_edge-added checked from to g g1 e1).1
    ∙ add_edges-tasks checked from tos g1 h e2

-- No id is two keys of the task map.
pub tasks-Distinct : (checked : Bool) (g : TaskGraph) → Reach checked g → Distinct g.tasks
unfolding add_task remove_task clear Distinct
tasks-Distinct checked g start = tt
tasks-Distinct checked g (adds_task {g = f} task r) =
    Distinct-put task.id task f.tasks (tasks-Distinct checked f r)
tasks-Distinct checked h (adds_edges {g} from tos r e) =
    subst Distinct (add_edges-tasks checked from tos g h e) (tasks-Distinct checked g r)
tasks-Distinct checked g (removes_task {g = f} id r) =
    Distinct-erase id f.tasks (tasks-Distinct checked f r)
tasks-Distinct checked g (clears r) = tt
