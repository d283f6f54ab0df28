-- ===== src/Scheduler/TaskGraph/Search/Sorting.antt =====
-- What `is_dag` and `topological_sort` answer.
use scicompute.Base.{
  ℕ, ◌+◌, ◌≡◌, Bool, true, false, refl, sym, ap, ◌∙◌, Option, some, none, List, [], ◌∷◌, arith,
  if_true, if_false, Bool-cases, inl, inr, some_inj, length, ◌↔◌,
}
use scicompute.Base.Sets.{count-contains, contains}
use scicompute.Base.Assoc.{find, keys, find-keys, keys-find}
use scicompute.Base.Fallible.{◌>>=◌, >>=-eq-some}
use scicompute.Scheduler.TaskGraph.{
  Task, TaskGraph, listed, has_task, is_some, get_dependents, Reach,
}
use scicompute.Scheduler.TaskGraph.Ends.{edges_known}
use scicompute.Scheduler.TaskGraph.Search.{
  Search, dfs, all_tasks, search, push_back, push_nothing, sorted_or_none, topological_sort, is_dag,
}
use scicompute.Scheduler.TaskGraph.Search.Fuel.{search_returns}
use scicompute.Scheduler.TaskGraph.Search.Forget.{forget_outcome, search-forget}
use scicompute.Scheduler.TaskGraph.Search.Order.{
  Inv, IsOrdered, finished, outcome, succeeded, dfs_finishes, all_tasks_finishes,
}
use scicompute.Scheduler.TaskGraph.Search.Walks.{Walk, edge, further, Cycle, dfs_cycles, no_cycle}

abbrev blank : Search (List ℕ)
blank = record { visited = []; in_stack = []; result = [] }

module _ (g : TaskGraph) (P : ℕ → Type 0)
    (closed : (x y : ℕ) → P x → contains y (listed x g.edges) ≡ true → P y) where
  Inv-blank : Inv g P closed blank
  Inv-blank = record { split = λ x. refl; apart = λ x h. cc; order = tt; within = λ x h. cc }

  all_tasks_cycles :
      (fuel : ℕ) (ps : List (ℕ × Task)) (s t : Search (List ℕ))
      → ((x : ℕ) → contains x (keys ps) ≡ true → P x)
      → Inv g P closed s
      → s.in_stack ≡ []
      → all_tasks push_back g fuel ps s ≡ outcome false t
      → Cycle g
  unfolding all_tasks
  all_tasks_cycles fuel [] s t ks v empty e = cc
  all_tasks_cycles fuel (p ∷ ps) s t ks v empty e = elim (Bool-cases (contains p.0 s.visited)) [
    | inl old ↦
        all_tasks_cycles fuel ps s t (λ x h. ks x (ground arith)) v empty
          (sym (if_true _ _ old) ∙ e)
    | inr new ↦
        let (r, e1, e2) = >>=-eq-some (dfs push_back g fuel p.0 s) _ (sym (if_false _ _ new) ∙ e) in
        let here : P p.0 = ks p.0 (ground arith) in
        elim (Bool-cases r.0) [
          | inr bad ↦
              dfs_cycles g P closed fuel p.0 s r.1 here v
                (λ y h. absurd (cc (h, ap (contains y) empty))) (e1 ∙ ap (λ b. outcome b r.1) bad)
          | inl ok ↦
              let one = dfs_finishes g P closed fuel p.0 s r.1 here v (e1 ∙ succeeded r ok) in
              all_tasks_cycles fuel ps r.1 t (λ x h. ks x (ground arith)) one.inv
                (one.stack ∙ empty) (sym (if_true _ _ ok) ∙ e2)
        ]
  ]

-- The search of `topological_sort` and the answer of `is_dag` go together.
is_dag-search :
    (g : TaskGraph) (b : Bool)
    → is_dag g ≡ some b
    → (t : Search (List ℕ)) × (search push_back [] g ≡ outcome b t)
unfolding is_dag
is_dag-search g b e =
    let (r, found) = search_returns push_back g [] in
    let same : r.0 ≡ b = some_inj (
      sym (
        ap (λ o. o >>= λ q. some q.0) (search-forget g)
        ∙ ap (λ o. forget_outcome o >>= λ q. some q.0) found)
      ∙ e) in
    (r.1, found ∙ ap (λ c. outcome c r.1) same)

-- `is_dag` and `topological_sort` return on every graph.
pub searches_return :
    (g : TaskGraph)
    → ((b : Bool) × (is_dag g ≡ some b)) × ((l : List ℕ) × (topological_sort g ≡ some l))
unfolding is_dag topological_sort
searches_return g =
    let (r, e) = search_returns push_nothing g tt in
    let (q, f) = search_returns push_back g [] in
    (
      (r.0, ap (λ o. o >>= λ t. some t.0) e),
      (sorted_or_none q, ap (λ o. o >>= λ t. some (sorted_or_none t)) f),
    )

-- When `is_dag` answers `false`, some id has a walk to itself, and `topological_sort` answers the
-- empty list.
pub not_is_dag-Cycle :
    (g : TaskGraph) → is_dag g ≡ some false → Cycle g × (topological_sort g ≡ some [])
unfolding search topological_sort
not_is_dag-Cycle g e =
    let (t, found) = is_dag-search g false e in
    (
      all_tasks_cycles g (λ x. Unit) (λ x y h k. tt) (length g.edges + 2) g.tasks blank t
          (λ x h. tt) (Inv-blank g (λ x. Unit) (λ x y h k. tt)) refl found,
      ap (λ o. o >>= λ r. some (sorted_or_none r)) found,
    )

listed_key :
    (y : ℕ) (m : List (ℕ × Task)) (o : Option Task)
    → find y m ≡ o
    → is_some o ≡ true
    → contains y (keys m) ≡ true
listed_key y m none f h = cc
listed_key y m (some task) f h = keys-find y task m f

pub key_of_task : (y : ℕ) (g : TaskGraph) → has_task y g ≡ true → contains y (keys g.tasks) ≡ true
unfolding has_task
key_of_task y g h = listed_key y g.tasks (find y g.tasks) refl h

-- When `is_dag` answers `true`, no task of the graph has a walk to itself.
pub no_cycle_of_is_dag :
    (g : TaskGraph) (y : ℕ) → is_dag g ≡ some true → has_task y g ≡ true → ¬ Walk g y y
unfolding search
no_cycle_of_is_dag g y e h =
    let (t, found) = is_dag-search g true e in
    let (v, w, all) =
      all_tasks_finishes g (λ x. Unit) (λ x y h k. tt) (length g.edges + 2) g.tasks blank t
        (λ x h. tt) (Inv-blank g (λ x. Unit) (λ x y h k. tt)) refl found in
    no_cycle g y (finished t) v.order (all y (key_of_task y g h))

IsTask : TaskGraph → ℕ → Type 0
IsTask g x = has_task x g ≡ true

IsTask-closed :
    (g : TaskGraph)
    → Reach true g
    → (x y : ℕ) → IsTask g x
    → contains y (listed x g.edges) ≡ true
    → IsTask g y
unfolding IsTask get_dependents
IsTask-closed g r x y h k = (edges_known g x y r (count-contains y (get_dependents x g) k)).1

IsTask-keys : (g : TaskGraph) (x : ℕ) → contains x (keys g.tasks) ≡ true → IsTask g x
unfolding IsTask has_task
IsTask-keys g x h = let (task, f) = find-keys x g.tasks h in ap is_some f

-- On a graph that a client can build with the assertions of `add_edge` compiled in, and of which
-- `is_dag` answers `true`, `topological_sort` answers a list of exactly the tasks of the graph, each
-- once, in which each comes before its dependents.
pub topological_sort_lem :
    (g : TaskGraph)
    → Reach true g
    → is_dag g ≡ some true
    → (l : List ℕ) × (topological_sort g ≡ some l)
      × IsOrdered g l
      × ((x : ℕ) → contains x l ≡ has_task x g)
unfolding search topological_sort IsTask
topological_sort_lem g r e =
    let (t, found) = is_dag-search g true e in
    let (v, w, all) =
      all_tasks_finishes g (IsTask g) (IsTask-closed g r) (length g.edges + 2) g.tasks blank t
        (IsTask-keys g) (Inv-blank g (IsTask g) (IsTask-closed g r)) refl found in
    (
      finished t,
      ap (λ o. o >>= λ q. some (sorted_or_none q)) found,
      v.order,
      λ x. elim (Bool-cases (contains x (finished t))) [
        | inl there ↦ let old = v.split x in there ∙ sym (v.within x (ground arith))
        | inr absent ↦ elim (Bool-cases (has_task x g)) [
          | inl task ↦ absurd (cc (absent, all x (key_of_task x g task)))
          | inr none_there ↦ absent ∙ sym none_there
        ]
      ],
    )

-- The id at which a walk starts has an edge.
Walk-start :
    (g : TaskGraph) (a b : ℕ) → Walk g a b → (c : ℕ) × (contains c (get_dependents a g) ≡ true)
Walk-start g a b (edge h) = (b, h)
Walk-start g a b (further {b = c} w h) = Walk-start g a c w

-- On every graph that a client can build with the assertions of `add_edge` compiled in, `is_dag`
-- returns, and answers `true` exactly when no id has a walk to itself.
pub is_dag_decides :
    (g : TaskGraph) → Reach true g → (b : Bool) × (is_dag g ≡ some b) × ((b ≡ true) ↔ ¬ Cycle g)
is_dag_decides g r =
    let ((b, e), _) = searches_return g in
    (
      b,
      e,
      (
        λ yes_dag (y, w).
            let (c, h) = Walk-start g y y w in
            let there = edges_known g y c r (count-contains c (get_dependents y g) h) in
            no_cycle_of_is_dag g y (e ∙ ap some yes_dag) there.0 w,
        λ none_there. elim (Bool-cases b) [
          | inl t ↦ t
          | inr f ↦ absurd (none_there (not_is_dag-Cycle g (e ∙ ap some f)).0)
        ],
      ),
    )
