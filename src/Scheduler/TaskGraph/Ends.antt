-- ===== src/Scheduler/TaskGraph/Ends.antt =====
-- The ends of the edges of a `TaskGraph`.
use scicompute.Base.{
  ℕ, ◌<◌, ◌≡◌, ◌≢◌, Bool, true, false, refl, ap, subst, ◌∙◌, some, List, [], ◌∷◌, arith, ℕ_discrete,
  some_inj, ◌&&◌, not,
}
use scicompute.Base.Sets.{count}
use scicompute.Base.Assoc.{find, put, find-put_same, find-put_other, find-erase_other}
use scicompute.Base.Fallible.{>>=-eq-some}
use scicompute.Scheduler.TaskGraph.{
  Task, TaskGraph, add_task, has_task, is_some, remove_task, add_edge, add_edges, get_dependents,
  clear, Reach, start, adds_task, adds_edges, removes_task, clears,
}
use scicompute.Scheduler.TaskGraph.Edges.{count-push_at, count-removed, added, add_edge-added}

-- Both ends of an edge are tasks of the graph.
Known : TaskGraph → Type 0
Known g =
    (a b : ℕ) → 0 < count b (get_dependents a g) → (has_task a g ≡ true) × (has_task b g ≡ true)

has_task-add_task :
    (x : ℕ) (task : Task) (g : TaskGraph)
    → has_task x g ≡ true
    → has_task x (add_task task g).1 ≡ true
unfolding has_task add_task
has_task-add_task x task g h = elim (ℕ_discrete x task.id) [
  | yes e ↦
      ap (λ i. is_some (find i (put task.id task g.tasks))) e
      ∙ ap is_some (find-put_same task.id task g.tasks)
  | no n ↦ ap is_some (find-put_other x task.id task g.tasks n) ∙ h
]

has_task-remove_task :
    (x id : ℕ) (g : TaskGraph) → x ≢ id → has_task x g ≡ true → has_task x (remove_task id g) ≡ true
unfolding has_task remove_task
has_task-remove_task x id g n h = ap is_some (find-erase_other x id g.tasks n) ∙ h

both : (p q : Bool) → true && not (p && q) ≡ false → (p ≡ true) × (q ≡ true)
both true true h = (refl, refl)
both true false h = cc
both false q h = cc

Known-added :
    (from to : ℕ) (g : TaskGraph)
    → Known g
    → true && not (has_task from g && has_task to g) ≡ false
    → Known (added true from to g)
unfolding added Known get_dependents has_task
Known-added from to g k h a b lt =
    let (source, target) = both (has_task from g) (has_task to g) h in
    let l = count-push_at a b from to g.edges in
    elim (ℕ_discrete a from) [
      | no n ↦ k a b (ground arith)
      | yes e ↦ elim (ℕ_discrete b to) [
        | no n ↦ k a b (ground arith)
        | yes f ↦ (ap (λ i. has_task i g) e ∙ source, ap (λ i. has_task i g) f ∙ target)
      ]
    ]

Known-remove_task : (id : ℕ) (g : TaskGraph) → Known g → Known (remove_task id g)
unfolding remove_task Known get_dependents
Known-remove_task id g k a b lt =
    let l = count-removed a b id g.edges in
    let apart : (a ≢ id) × (b ≢ id) = (λ e. ground arith, λ e. ground arith) in
    let old = k a b (ground arith) in
    (has_task-remove_task a id g apart.0 old.0, has_task-remove_task b id g apart.1 old.1)

Known-add_edges :
    (from : ℕ) (tos : List ℕ) (g h : TaskGraph)
    → Known g
    → add_edges true from tos g ≡ some h
    → Known h
unfolding add_edges
Known-add_edges from [] g h k e = subst Known (some_inj e) k
Known-add_edges from (to ∷ tos) g h k e =
    let (g1, e1, e2) = >>=-eq-some (add_edge true from to g) _ e in
    let (both_there, same) = add_edge-added true from to g g1 e1 in
    Known-add_edges from tos g1 h (subst Known same (Known-added from to g k both_there)) e2

Reach-Known : (g : TaskGraph) → Reach true g → Known g
unfolding Known get_dependents find count clear add_task
Reach-Known g start a b lt = elim lt [ ]
Reach-Known g (adds_task {g = f} task r) a b lt =
    let old = Reach-Known f r a b lt in
    (has_task-add_task a task f old.0, has_task-add_task b task f old.1)
Reach-Known h (adds_edges {g} from tos r e) a b lt =
    Known-add_edges from tos g h (Reach-Known g r) e a b lt
Reach-Known g (removes_task {g = f} id r) a b lt = Known-remove_task id f (Reach-Known f r) a b lt
Reach-Known g (clears r) a b lt = elim lt [ ]

-- In every graph that a client can build with the assertions of `add_edge` compiled in, both ends
-- of an edge are tasks of the graph.
pub edges_known :
    (g : TaskGraph) (a b : ℕ)
    → Reach true g
    → 0 < count b (get_dependents a g)
    → (has_task a g ≡ true) × (has_task b g ≡ true)
unfolding Known
edges_known g a b r lt = Reach-Known g r a b lt
