-- ===== src/Scheduler/TaskGraph/Search/Forget.antt =====
-- The search of `is_dag` is the search of `topological_sort` without its result.
use scicompute.Base.{
  ℕ, zero, suc, ◌≡◌, Bool, true, false, refl, sym, ap, ◌∙◌, Option, some, none, List, [], ◌∷◌,
  if◌then◌else◌, if_true, if_false, Bool-cases, inl, inr, length, ◌+◌,
}
use scicompute.Base.Sets.{contains}
use scicompute.Base.Fallible.{◌>>=◌}
use scicompute.Scheduler.TaskGraph.{Task, TaskGraph, listed}
use scicompute.Scheduler.TaskGraph.Search.{
  Search, each, enter, leave, dfs, all_tasks, search, push_back, push_nothing,
}

abbrev forget : Search (List ℕ) → Search (Unit {0})
forget s = record { visited = s.visited; in_stack = s.in_stack; result = tt }

abbrev forget_result : Bool × Search (List ℕ) → Bool × Search (Unit {0})
forget_result r = (r.0, forget r.1)

abbrev pub forget_outcome : Option (Bool × Search (List ℕ)) → Option (Bool × Search (Unit {0}))
forget_outcome none = none
forget_outcome (some r) = some (forget_result r)

-- A step that goes on with a result if it succeeded.
abbrev on_success {ℓ} :
    {R : Type ℓ}
    → (Search R → Option (Bool × Search R))
    → Bool × Search R
    → Option (Bool × Search R)
on_success k r = if r.0 then k r.1 else some (false, r.1)

on_success-forget :
    (o : Option (Bool × Search (List ℕ))) (k : Search (List ℕ) → Option (Bool × Search (List ℕ)))
    (k' : Search (Unit {0}) → Option (Bool × Search (Unit {0})))
    → ((s : Search (List ℕ)) → k' (forget s) ≡ forget_outcome (k s))
    → (forget_outcome o >>= on_success k') ≡ forget_outcome (o >>= on_success k)
on_success-forget none k k' h = refl
on_success-forget (some (true, s)) k k' h = h s
on_success-forget (some (false, s)) k k' h = refl

module _ (g : TaskGraph) where
  each-forget :
      (fuel : ℕ) (ds : List ℕ) (s : Search (List ℕ))
      → ((id : ℕ) (t : Search (List ℕ))
          → dfs push_nothing g fuel id (forget t) ≡ forget_outcome (dfs push_back g fuel id t))
      → each (dfs push_nothing g fuel) ds (forget s)
        ≡ forget_outcome (each (dfs push_back g fuel) ds s)
  unfolding each
  each-forget fuel [] s h = refl
  each-forget fuel (d ∷ ds) s h =
      ap (λ o. o >>= on_success (each (dfs push_nothing g fuel) ds)) (h d s)
      ∙ on_success-forget (dfs push_back g fuel d s) (each (dfs push_back g fuel) ds)
          (each (dfs push_nothing g fuel) ds) (λ t. each-forget fuel ds t h)

  leave-forget :
      (id : ℕ) (o : Option (Bool × Search (List ℕ)))
      → (forget_outcome o >>= λ r. some (leave push_nothing id r))
        ≡ forget_outcome (o >>= λ r. some (leave push_back id r))
  leave-forget id none = refl
  leave-forget id (some (true, s)) = refl
  leave-forget id (some (false, s)) = refl

  dfs-forget :
      (fuel id : ℕ) (s : Search (List ℕ))
      → dfs push_nothing g fuel id (forget s) ≡ forget_outcome (dfs push_back g fuel id s)
  unfolding dfs
  dfs-forget zero id s = refl
  dfs-forget (suc fuel) id s = elim (Bool-cases (contains id s.in_stack)) [
    | inl on ↦ if_true _ _ on ∙ ap forget_outcome (sym (if_true _ _ on))
    | inr off ↦ elim (Bool-cases (contains id s.visited)) [
      | inl old ↦
          if_false _ _ off
          ∙ if_true _ _ old
          ∙ ap forget_outcome (sym (if_false _ _ off ∙ if_true _ _ old))
      | inr new ↦
          if_false _ _ off
          ∙ if_false _ _ new
          ∙ ap (λ o. o >>= λ r. some (leave push_nothing id r))
              (each-forget fuel (listed id g.edges) (enter id s) (dfs-forget fuel))
          ∙ leave-forget id (each (dfs push_back g fuel) (listed id g.edges) (enter id s))
          ∙ ap forget_outcome (sym (if_false _ _ off ∙ if_false _ _ new))
    ]
  ]

  all_tasks-forget :
      (fuel : ℕ) (ps : List (ℕ × Task)) (s : Search (List ℕ))
      → all_tasks push_nothing g fuel ps (forget s)
        ≡ forget_outcome (all_tasks push_back g fuel ps s)
  unfolding all_tasks
  all_tasks-forget fuel [] s = refl
  all_tasks-forget fuel (p ∷ ps) s = elim (Bool-cases (contains p.0 s.visited)) [
    | inl old ↦
        if_true _ _ old ∙ all_tasks-forget fuel ps s ∙ ap forget_outcome (sym (if_true _ _ old))
    | inr new ↦
        if_false _ _ new
        ∙ ap (λ o. o >>= on_success (all_tasks push_nothing g fuel ps)) (dfs-forget fuel p.0 s)
        ∙ on_success-forget (dfs push_back g fuel p.0 s) (all_tasks push_back g fuel ps)
            (all_tasks push_nothing g fuel ps) (all_tasks-forget fuel ps)
        ∙ ap forget_outcome (sym (if_false _ _ new))
  ]

  pub search-forget : search push_nothing tt g ≡ forget_outcome (search push_back [] g)
  unfolding search
  search-forget =
      all_tasks-forget (length g.edges + 2) g.tasks
        (record { visited = []; in_stack = []; result = [] })
