-- ===== src/Scheduler/TaskGraph/Edges.antt =====
-- The two edge maps of a `TaskGraph` mirror each other, and name tasks of the graph only.
use scicompute.Base.{
  ℕ, ◌+◌, ◌≡◌, Bool, false, refl, sym, ap, subst, ◌∙◌, some, none, List, [], ◌∷◌, ◌++◌, arith, ◌==◌,
  if◌then◌else◌, if_true, if_false, ==_refl, ==_ne, ℕ_discrete, some_inj, ◌&&◌, not, Bool-cases,
  inl, inr,
}
use scicompute.Base.Assoc.{
  find, put, erase, find-put_same, find-put_other, find-erase_same, find-erase_other, find-hit,
  find-miss,
}
use scicompute.Base.Sets.{count}
use scicompute.Base.Fallible.{>>=-eq-some}
use scicompute.Scheduler.TaskGraph.{
  TaskGraph, add_task, has_task, listed, push_at, without, without_all, remove_task, add_edge,
  add_edges, or_empty, get_dependencies, get_dependents, clear, Reach, start, adds_task, adds_edges,
  removes_task, clears,
}

count-append :
    (x y : ℕ) (ys : List ℕ) → count x (ys ++ y ∷ []) ≡ count x ys + (if x == y then 1 else 0)
unfolding count
count-append x y [] = omega arith
count-append x y (z ∷ ys) = omega (arith, count-append x y ys)

count-without :
    (x id : ℕ) (ys : List ℕ) → count x (without id ys) ≡ (if x == id then 0 else count x ys)
unfolding count without
count-without x id [] = ground arith
count-without x id (y ∷ ys) = let ih = count-without x id ys in ground arith

find-without_all :
    (id k : ℕ) (m : List (ℕ × List ℕ)) → listed k (without_all id m) ≡ without id (listed k m)
unfolding listed without_all without find
find-without_all id k [] = refl
find-without_all id k (p ∷ m) = elim (ℕ_discrete k p.0) [
  | yes e ↦
      ap or_empty (find-hit k (p.0, without id p.1) (without_all id m) e)
      ∙ ap (λ r. without id (or_empty r)) (sym (find-hit k p m e))
  | no n ↦
      ap or_empty (find-miss k (p.0, without id p.1) (without_all id m) n)
      ∙ find-without_all id k m
      ∙ ap (λ r. without id (or_empty r)) (sym (find-miss k p m n))
]

-- The lists of a map after `m[k].push_back(y)`, and after a task was removed.
pub count-push_at :
    (a x k y : ℕ) (m : List (ℕ × List ℕ))
    → count x (listed a (push_at k y m))
      ≡ count x (listed a m) + (if a == k then (if x == y then 1 else 0) else 0)
unfolding push_at listed
count-push_at a x k y m = elim (ℕ_discrete a k) [
  | yes e ↦
      ap (λ i. count x (or_empty (find i (put k (listed k m ++ y ∷ []) m)))) e
      ∙ ap (λ r. count x (or_empty r)) (find-put_same k (listed k m ++ y ∷ []) m)
      ∙ count-append x y (listed k m)
      ∙ ap (λ i. count x (listed i m) + (if x == y then 1 else 0)) (sym e)
      ∙ ap (λ n. count x (listed a m) + n) (sym (if_true _ _ (ap (◌==◌ a) (sym e) ∙ ==_refl a)))
  | no n ↦
      ap (λ r. count x (or_empty r)) (find-put_other a k (listed k m ++ y ∷ []) m n)
      ∙ omega (arith, if_false {A = ℕ} (if x == y then 1 else 0) 0 (==_ne a k n))
]

pub count-removed :
    (a x id : ℕ) (m : List (ℕ × List ℕ))
    → count x (listed a (without_all id (erase id m)))
      ≡ (if a == id then 0 else if x == id then 0 else count x (listed a m))
unfolding listed count without
count-removed a x id m = elim (ℕ_discrete a id) [
  | yes e ↦
      ap (count x) (find-without_all id a (erase id m))
      ∙ ap (λ i. count x (without id (or_empty (find i (erase id m))))) e
      ∙ ap (λ r. count x (without id (or_empty r))) (find-erase_same id m)
      ∙ sym (if_true _ _ (ap (◌==◌ a) (sym e) ∙ ==_refl a))
  | no n ↦
      ap (count x) (find-without_all id a (erase id m))
      ∙ ap (λ r. count x (without id (or_empty r))) (find-erase_other a id m n)
      ∙ count-without x id (listed a m)
      ∙ sym (if_false _ _ (==_ne a id n))
]

-- Every edge stands in both maps, equally often.
Mirror : TaskGraph → Type 0
Mirror g = (a b : ℕ) → count b (get_dependents a g) ≡ count a (get_dependencies b g)

unfoldable pub added : Bool → ℕ → ℕ → TaskGraph → TaskGraph
added checked from to g = record g {
  edges = push_at from to g.edges;
  rev_edges = push_at to from g.rev_edges;
}

pub add_edge-added :
    (checked : Bool) (from to : ℕ) (g h : TaskGraph)
    → add_edge checked from to g ≡ some h
    → (checked && not (has_task from g && has_task to g) ≡ false) × (added checked from to g ≡ h)
unfolding add_edge added
add_edge-added checked from to g h e =
    elim (Bool-cases (checked && not (has_task from g && has_task to g))) [
      | inl t ↦ elim (none-some (sym (if_true _ _ t) ∙ e)) [ ]
      | inr f ↦ (f, some_inj (sym (if_false _ _ f) ∙ e))
    ]
  where
    none-some : none ≡ some h → ⊥
    none-some k = cc

Mirror-added :
    (checked : Bool) (from to : ℕ) (g : TaskGraph) → Mirror g → Mirror (added checked from to g)
unfolding added Mirror get_dependents get_dependencies
Mirror-added checked from to g v a b =
    let l = count-push_at a b from to g.edges in
    let r = count-push_at b a to from g.rev_edges in let old = v a b in ground arith

Mirror-remove_task : (id : ℕ) (g : TaskGraph) → Mirror g → Mirror (remove_task id g)
unfolding remove_task Mirror get_dependents get_dependencies
Mirror-remove_task id g v a b =
    let l = count-removed a b id g.edges in
    let r = count-removed b a id g.rev_edges in let old = v a b in ground arith

add_edges-Mirror :
    (checked : Bool) (from : ℕ) (tos : List ℕ) (g h : TaskGraph)
    → Mirror g
    → add_edges checked from tos g ≡ some h
    → Mirror h
unfolding add_edges
add_edges-Mirror checked from [] g h v e = subst Mirror (some_inj e) v
add_edges-Mirror checked from (to ∷ tos) g h v e =
    let (g1, e1, e2) = >>=-eq-some (add_edge checked from to g) _ e in
    add_edges-Mirror checked from tos g1 h
      (subst Mirror (add_edge-added checked from to g g1 e1).1 (Mirror-added checked from to g v))
      e2

-- In every graph that a client can build, with or without the assertions of `add_edge`, the task b
-- stands among the dependents of a as often as a stands among the dependencies of b.
pub edges_mirror :
    (checked : Bool) (g : TaskGraph)
    → Reach checked g
    → (a b : ℕ) → count b (get_dependents a g) ≡ count a (get_dependencies b g)
unfolding Mirror get_dependents get_dependencies add_task clear find count
edges_mirror checked g start a b = refl
edges_mirror checked g (adds_task task r) a b = edges_mirror checked _ r a b
edges_mirror checked h (adds_edges {g} from tos r e) a b =
    add_edges-Mirror checked from tos g h (edges_mirror checked g r) e a b
edges_mirror checked g (removes_task {g = f} id r) a b =
    Mirror-remove_task id f (edges_mirror checked f r) a b
edges_mirror checked g (clears r) a b = refl
