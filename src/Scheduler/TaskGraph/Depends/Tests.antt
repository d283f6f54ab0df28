-- ===== src/Scheduler/TaskGraph/Depends/Tests.antt =====
-- `depends_on` at concrete inputs.
use scicompute.Base.{ℕ, ◌≡◌, Bool, true, false, refl, ◌↔◌, some, [], ◌∷◌}
use scicompute.Base.Assoc.{find, put, erase}
use scicompute.Scheduler.TaskGraph.{
  Status, Task, TaskGraph, add_task, add_edges, listed, Reach, start, adds_task, adds_edges,
}
use scicompute.Scheduler.TaskGraph.Search.Walks.{Walk}
use scicompute.Scheduler.TaskGraph.Depends.{depends_on}
use scicompute.Scheduler.TaskGraph.Depends.Walks.{depends_on_decides}

abbrev task : ℕ → Task
task i = record { id = i; status = Status.pending }

-- The edges 1 → 2 and 2 → 3.
abbrev chain : TaskGraph
chain = record {
  tasks = (3, task 3) ∷ (2, task 2) ∷ (1, task 1) ∷ [];
  edges = (2, 3 ∷ []) ∷ (1, 2 ∷ []) ∷ [];
  rev_edges = (3, 2 ∷ []) ∷ (2, 1 ∷ []) ∷ [];
}

chain-Reach : Reach true chain
unfolding add_task add_edges find put erase
chain-Reach =
    adds_edges 2 (3 ∷ [])
      (adds_edges 1 (2 ∷ []) (adds_task (task 3) (adds_task (task 2) (adds_task (task 1) start)))
        refl)
      refl

forwards : depends_on 3 1 chain ≡ some true
unfolding depends_on find listed
forwards = refl

backwards : depends_on 1 3 chain ≡ some false
unfolding depends_on find listed
backwards = refl

depends_on_decides_example :
    (r : Bool) × (depends_on 3 1 chain ≡ some r) × ((r ≡ true) ↔ ∥ Walk chain 1 3 ∥₁)
depends_on_decides_example = depends_on_decides true chain 3 1 chain-Reach
