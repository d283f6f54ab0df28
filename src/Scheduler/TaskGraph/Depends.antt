-- ===== src/Scheduler/TaskGraph/Depends.antt =====
-- `depends_on` of `TaskGraph`: a breadth-first search along the reverse edges. `none` is the fuel
-- running out, which it does not with the fuel given here.
pub mod Fuel
pub mod Walks
mod Tests
use scicompute.Base.{
  ℕ, zero, suc, ◌+◌, ◌≡◌, Bool, true, false, Option, some, none, List, [], ◌∷◌, ◌++◌, ◌==◌, length,
  if◌then◌else◌,
}
use scicompute.Base.Sets.{contains}
use scicompute.Base.Assoc.{find}
use scicompute.Scheduler.TaskGraph.{TaskGraph, listed}

-- The `while` loop.
pub scan_queue : TaskGraph → ℕ → ℕ → List ℕ → List ℕ → Option Bool
scan_queue g b zero visited queue = none
scan_queue g b (suc fuel) visited [] = some false
scan_queue g b (suc fuel) visited (current ∷ queue) =
    let skip = scan_queue g b fuel visited queue in
    let expand = scan_queue g b fuel (current ∷ visited) (queue ++ listed current g.rev_edges) in
    if current == b then some true else if contains current visited then skip else expand

-- The lengths of all lists of a map.
pub all_lengths : List (ℕ × List ℕ) → ℕ
all_lengths [] = 0
all_lengths (p ∷ m) = length p.1 + all_lengths m

abbrev pub from_found : TaskGraph → ℕ → Option (List ℕ) → Option Bool
from_found g b none = some false
from_found g b (some deps) = scan_queue g b (length deps + all_lengths g.rev_edges + 1) [] deps

pub depends_on : ℕ → ℕ → TaskGraph → Option Bool
unfolding scan_queue all_lengths
depends_on a b g = from_found g b (find a g.rev_edges)
