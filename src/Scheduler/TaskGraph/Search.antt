-- ===== src/Scheduler/TaskGraph/Search.antt =====
-- The searches of `TaskGraph`: `topological_sort`, `is_dag`, `is_valid` and `depends_on`. `none` is
-- the fuel running out, which it does not with the fuel given here.
pub mod Fuel
pub mod Order
pub mod Walks
pub mod Forget
pub mod Sorting
mod Tests
use scicompute.Base.{
  ℕ, zero, suc, ◌+◌, ◌≡◌, Bool, true, false, not, ◌&&◌, ◌||◌, Option, some, none, List, [], ◌∷◌,
  ◌++◌, ◌==◌, length, if◌then◌else◌,
}
use mathlib.Core.List.{reverse}
use scicompute.Base.Sets.{contains}
use scicompute.Base.Fallible.{◌>>=◌}
use scicompute.Scheduler.TaskGraph.{Task, TaskGraph, listed, without, has_task}

-- The locals that the lambda `dfs` captures. `result` has the type R, which is `List ℕ` in
-- `topological_sort` and nothing in `is_dag`.
pub record Search {ℓ} (R : Type ℓ) : Type ℓ where
  pub visited : List ℕ
  pub in_stack : List ℕ
  pub result : R

module _ {ℓ} {R : Type ℓ} where
  -- `for (auto dep : it->second) if (!dfs(dep)) return false;`
  pub each :
      (ℕ → Search R → Option (Bool × Search R)) → List ℕ → Search R → Option (Bool × Search R)
  each f [] s = some (true, s)
  each f (d ∷ ds) s =
      f d s >>= λ (ok, s'). let rest = each f ds s' in if ok then rest else some (false, s')

  abbrev pub enter : ℕ → Search R → Search R
  enter id s = record s { visited = id ∷ s.visited; in_stack = id ∷ s.in_stack }

  -- The end of `dfs`, which puts `id` on the result by `push`.
  abbrev pub leave : (R → ℕ → R) → ℕ → Bool × Search R → Bool × Search R
  leave push id (false, s) = (false, s)
  leave push id (true, s) =
      (true, record s { in_stack = without id s.in_stack; result = push s.result id })

  pub dfs : (R → ℕ → R) → TaskGraph → ℕ → ℕ → Search R → Option (Bool × Search R)
  unfolding each
  dfs push g zero id s = none
  dfs push g (suc fuel) id s =
      let rest =
        each (dfs push g fuel) (listed id g.edges) (enter id s) >>= λ r. some (leave push id r) in
      if contains id s.in_stack
      then some (false, s)
      else if contains id s.visited
      then some (true, s)
      else rest

  -- The loop over the tasks.
  pub all_tasks :
      (R → ℕ → R) → TaskGraph → ℕ → List (ℕ × Task) → Search R → Option (Bool × Search R)
  unfolding dfs
  all_tasks push g fuel [] s = some (true, s)
  all_tasks push g fuel (p ∷ ps) s =
      let rest = all_tasks push g fuel ps in
      if contains p.0 s.visited
      then rest s
      else (dfs push g fuel p.0 s >>= λ (ok, s'). if ok then rest s' else some (false, s'))

  pub search : (R → ℕ → R) → R → TaskGraph → Option (Bool × Search R)
  unfolding all_tasks
  search push none_yet g =
      all_tasks push g (length g.edges + 2) g.tasks
        (record { visited = []; in_stack = []; result = none_yet })

-- `result.push_back(id)`
abbrev pub push_back : List ℕ → ℕ → List ℕ
push_back ids id = ids ++ id ∷ []

-- A failed search gives the empty list.
abbrev pub sorted_or_none : Bool × Search (List ℕ) → List ℕ
sorted_or_none (true, s) = reverse s.result
sorted_or_none (false, s) = []

pub topological_sort : TaskGraph → Option (List ℕ)
unfolding search
topological_sort g = search push_back [] g >>= λ r. some (sorted_or_none r)

-- `is_dag` runs the same search and keeps no result.
abbrev pub push_nothing : Unit {0} → ℕ → Unit {0}
push_nothing r id = tt

unfoldable pub is_dag : TaskGraph → Option Bool
unfolding search
is_dag g = search push_nothing tt g >>= λ r. some r.0

pub all_have_tasks : TaskGraph → List ℕ → Bool
unfolding has_task
all_have_tasks g [] = true
all_have_tasks g (to ∷ tos) = has_task to g && all_have_tasks g tos

-- The loop of `is_valid` over the edge map.
pub edges_have_tasks : TaskGraph → List (ℕ × List ℕ) → Bool
unfolding has_task all_have_tasks
edges_have_tasks g [] = true
edges_have_tasks g (p ∷ m) = has_task p.0 g && (all_have_tasks g p.1 && edges_have_tasks g m)

unfoldable pub is_valid : TaskGraph → Option Bool
unfolding is_dag edges_have_tasks
is_valid g = is_dag g >>= λ ok. some (ok && edges_have_tasks g g.edges)
