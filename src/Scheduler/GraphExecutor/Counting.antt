-- ===== src/Scheduler/GraphExecutor/Counting.antt =====
-- When the count of `GraphExecutor` is that of the tasks, and what an ordered list of tasks says.
use scicompute.Base.{
  ℕ, ◌≤◌, ◌≡◌, sym, ap, ◌∙◌, true, inl, inr, List, [], ◌∷◌, length, ℕ_discrete, ==_ne, ==_iff,
  Bool-cases, arith,
}
use scicompute.Base.Sets.{contains, count, count-absent, count-contains, length-count_le}
use scicompute.Base.Assoc.{keys, Distinct-keys_count, length-keys, find-keys}
use scicompute.Scheduler.TaskGraph.{TaskGraph, has_task, is_some, get_dependents, listed, Reach}
use scicompute.Scheduler.TaskGraph.Keys.{tasks-Distinct}
use scicompute.Scheduler.TaskGraph.Search.Order.{IsOrdered}
use scicompute.Scheduler.TaskGraph.Search.Sorting.{key_of_task}
use scicompute.Scheduler.GraphExecutor.{GraphExecutor, all_complete}
use scicompute.Scheduler.GraphExecutor.Rounds.{Between, once_more, still_tasks}

module _ (g : TaskGraph) (r : Reach true g) where
  -- A list of tasks, each once, is no longer than the map of the tasks.
  pub at_most_tasks :
      (ran : List ℕ)
      → ((x : ℕ) → count x ran ≤ 1)
      → ((x : ℕ) → contains x ran ≡ true → has_task x g ≡ true)
      → length ran ≤ length g.tasks
  at_most_tasks ran once tasks =
      let short = length-count_le ran (keys g.tasks) (λ x. elim (Bool-cases (contains x ran)) [
        | inl t ↦
            let there = count-contains x (keys g.tasks) (key_of_task x g (tasks x t)) in
            let one = once x in omega arith
        | inr f ↦ let none_there = count-absent x ran f in omega arith
      ]) in
      omega (arith, length-keys g.tasks)

  module _ (e : GraphExecutor) (v : Between g e) where
    pub all_run_counts :
        ((x : ℕ) → has_task x g ≡ true → contains x e.executed ≡ true) → all_complete e ≡ true
    unfolding all_complete has_task
    all_run_counts every =
        let upper = at_most_tasks e.executed v.once v.tasks in
        let lower = length-count_le (keys g.tasks) e.executed (λ x.
          elim (Bool-cases (contains x (keys g.tasks))) [
            | inl t ↦
                let (k, f) = find-keys x g.tasks t in
                let one = Distinct-keys_count x g.tasks (tasks-Distinct true g r) in
                let there = count-contains x e.executed (every x (ap is_some f)) in omega arith
            | inr f ↦ let none_there = count-absent x (keys g.tasks) f in omega arith
          ]) in
        (==_iff e.completed (length e.graph.tasks)).1
          (omega (arith, v.counted, v.long, length-keys g.tasks))

    pub counted_all_run :
        all_complete e ≡ true → (x : ℕ) → has_task x g ≡ true → contains x e.executed ≡ true
    unfolding all_complete
    counted_all_run full x h = elim (Bool-cases (contains x e.executed)) [
      | inl t ↦ t
      | inr f ↦
          let longer =
            at_most_tasks (x ∷ e.executed) (once_more x e.executed f v.once)
              (still_tasks g x e.executed h v.tasks) in
          let same = (==_iff e.completed (length e.graph.tasks)).0 full in
          let bad : 1 ≤ 0 = omega (arith, v.counted, v.long) in elim bad [ ]
    ]

-- In an ordered list, what follows a member in the graph is a member.
pub ordered_after :
    (g : TaskGraph) (x : ℕ) (xs : List ℕ) (d y : ℕ)
    → IsOrdered g (x ∷ xs)
    → contains d (x ∷ xs) ≡ true
    → contains y (get_dependents d g) ≡ true
    → contains y xs ≡ true
unfolding get_dependents
ordered_after g x xs d y o h k = elim (ℕ_discrete d x) [
  | yes e ↦ o.0 y (ap (λ i. contains y (listed i g.edges)) (sym e) ∙ k)
  | no n ↦ later xs o.2 (ground (arith, ==_ne d x n))
]
  where
    later : (zs : List ℕ) → IsOrdered g zs → contains d zs ≡ true → contains y zs ≡ true
    later [] o h = cc
    later (z ∷ zs) o h = elim (ℕ_discrete d z) [
      | yes e ↦
          let there = o.0 y (ap (λ i. contains y (listed i g.edges)) (sym e) ∙ k) in ground arith
      | no n ↦ let there = later zs o.2 (ground (arith, ==_ne d z n)) in ground arith
    ]

pub once_ordered : (g : TaskGraph) (xs : List ℕ) → IsOrdered g xs → (x : ℕ) → count x xs ≤ 1
unfolding count
once_ordered g [] o x = omega arith
once_ordered g (y ∷ ys) o x = once_more y ys o.1 (once_ordered g ys o.2) x

pub all_counted :
    (g : TaskGraph) (r : Reach true g) (e : GraphExecutor)
    → Between g e
    → ((x : ℕ) → has_task x g ≡ true → contains x e.executed ≡ true)
    → e.completed ≡ length g.tasks
unfolding all_complete
all_counted g r e v every =
    (==_iff e.completed (length e.graph.tasks)).0 (all_run_counts g r e v every) ∙ v.long
