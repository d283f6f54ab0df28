-- ===== src/Scheduler/TaskGraph.antt =====
-- `TaskGraph` of src/scheduler/task_graph.cpp. The order of an `unordered_map` is the order of the
-- association list.
pub mod Edges
pub mod Ends
pub mod Keys
pub mod Search
pub mod Depends
mod Tests
use scicompute.Base.{
  ℕ, ◌≡◌, Bool, true, false, not, Option, some, none, List, [], ◌∷◌, ◌++◌, ◌==◌, if◌then◌else◌,
  ◌&&◌,
}
use scicompute.Base.Assoc.{find, put, erase}
use scicompute.Base.Fallible.{◌>>=◌}

pub data Status : Type 0 where
  pending : Status
  ready : Status
  running : Status
  completed : Status
  failed : Status
  cancelled : Status

pub record Task : Type 0 where
  pub id : ℕ
  pub status : Status

pub record TaskGraph : Type 0 where
  pub tasks : List (ℕ × Task)
  pub edges : List (ℕ × List ℕ)
  pub rev_edges : List (ℕ × List ℕ)

abbrev pub empty : TaskGraph
empty = record { tasks = []; edges = []; rev_edges = [] }

unfoldable pub add_task : Task → TaskGraph → ℕ × TaskGraph
add_task task g = (task.id, record g { tasks = put task.id task g.tasks })

-- A null pointer is `none`.
unfoldable pub get_task : ℕ → TaskGraph → Option Task
get_task id g = find id g.tasks

abbrev pub is_some : Option Task → Bool
is_some none = false
is_some (some task) = true

unfoldable pub has_task : ℕ → TaskGraph → Bool
has_task id g = is_some (find id g.tasks)

-- The list at a key, empty if there is none.
abbrev pub or_empty : Option (List ℕ) → List ℕ
or_empty none = []
or_empty (some l) = l

unfoldable pub listed : ℕ → List (ℕ × List ℕ) → List ℕ
listed k m = or_empty (find k m)

-- `m[k].push_back(x)`
pub push_at : ℕ → ℕ → List (ℕ × List ℕ) → List (ℕ × List ℕ)
unfolding listed
push_at k x m = put k (listed k m ++ x ∷ []) m

-- `std::remove` and `erase` on a vector.
unfoldable pub without : ℕ → List ℕ → List ℕ
without id [] = []
without id (x ∷ xs) = let rest = without id xs in if x == id then rest else x ∷ rest

-- The loop over the lists of a map.
pub without_all : ℕ → List (ℕ × List ℕ) → List (ℕ × List ℕ)
unfolding without
without_all id [] = []
without_all id (p ∷ m) = (p.0, without id p.1) ∷ without_all id m

pub remove_task : ℕ → TaskGraph → TaskGraph
unfolding without_all
remove_task id g = record {
  tasks = erase id g.tasks;
  edges = without_all id (erase id g.edges);
  rev_edges = without_all id (erase id g.rev_edges);
}

-- `checked` says that assertions are compiled in, and `none` stands for a failed one.
pub add_edge : Bool → ℕ → ℕ → TaskGraph → Option TaskGraph
unfolding has_task push_at
add_edge checked from to g =
    if checked && not (has_task from g && has_task to g)
    then none
    else some
        (record g { edges = push_at from to g.edges; rev_edges = push_at to from g.rev_edges })

unfoldable pub add_edges : Bool → ℕ → List ℕ → TaskGraph → Option TaskGraph
unfolding add_edge
add_edges checked from [] g = some g
add_edges checked from (to ∷ tos) g = add_edge checked from to g >>= add_edges checked from tos

unfoldable pub get_dependencies : ℕ → TaskGraph → List ℕ
unfolding listed
get_dependencies id g = listed id g.rev_edges

unfoldable pub get_dependents : ℕ → TaskGraph → List ℕ
unfolding listed
get_dependents id g = listed id g.edges

pub clear : TaskGraph → TaskGraph
clear g = empty

-- The graphs that a client of the class can build.
pub data Reach (checked : Bool) : TaskGraph → Type 0 where
  start : Reach checked empty
  adds_task : {g : TaskGraph} (task : Task) → Reach checked g → Reach checked (add_task task g).1
  adds_edges :
      {g h : TaskGraph} (from : ℕ) (tos : List ℕ)
      → Reach checked g
      → add_edges checked from tos g ≡ some h
      → Reach checked h
  removes_task : {g : TaskGraph} (id : ℕ) → Reach checked g → Reach checked (remove_task id g)
  clears : {g : TaskGraph} → Reach checked g → Reach checked (clear g)
