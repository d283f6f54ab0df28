-- ===== src/Scheduler/TaskGraph/Search/Fuel.antt =====
-- The depth-first search returns: each call enters an id that was not visited, and only the keys of
-- the edge map have edges to follow.
use scicompute.Base.{
  ℕ, zero, suc, ◌+◌, ◌≤◌, ◌<◌, ◌≡◌, Bool, true, false, refl, sym, ap, subst, ◌∙◌, Option, some,
  List, [], ◌∷◌, length, arith, if◌then◌else◌, if_true, if_false, ℕ_discrete, Bool-cases,
  Option-cases, inl, inr,
}
use scicompute.Base.Sets.{contains, Within}
use scicompute.Base.Assoc.{find, find-miss}
use scicompute.Base.Fallible.{◌>>=◌}
use scicompute.Scheduler.TaskGraph.{Task, TaskGraph, listed, or_empty}
use scicompute.Scheduler.TaskGraph.Search.{Search, each, enter, leave, dfs, all_tasks, search}

-- The entries of a map whose keys are not visited.
pub unseen : List ℕ → List (ℕ × List ℕ) → ℕ
unseen visited [] = 0
unseen visited (p ∷ m) = (if contains p.0 visited then 0 else 1) + unseen visited m

unseen_mono : (V W : List ℕ) (m : List (ℕ × List ℕ)) → Within V W → unseen W m ≤ unseen V m
unfolding unseen
unseen_mono V W [] h = omega arith
unseen_mono V W (p ∷ m) h = let ih = unseen_mono V W m h in let here = h p.0 in ground arith

unseen-le : (V : List ℕ) (m : List (ℕ × List ℕ)) → unseen V m ≤ length m
unfolding unseen
unseen-le V [] = omega arith
unseen-le V (p ∷ m) = let ih = unseen-le V m in ground arith

pub Within-enter : (id : ℕ) (V : List ℕ) → Within V (id ∷ V)
Within-enter id V x e = ground arith

-- Entering a key that was not visited leaves fewer entries.
unseen-enter :
    (id : ℕ) (V l : List ℕ) (m : List (ℕ × List ℕ))
    → contains id V ≡ false
    → find id m ≡ some l
    → unseen (id ∷ V) m < unseen V m
unfolding unseen find
unseen-enter id V l [] new e = cc
unseen-enter id V l (p ∷ m) new e = elim (ℕ_discrete id p.0) [
  | yes same ↦
      let less = unseen_mono V (id ∷ V) m (Within-enter id V) in
      let now : contains p.0 V ≡ false = ap (λ i. contains i V) (sym same) ∙ new in ground arith
  | no apart ↦ let ih = unseen-enter id V l m new (sym (find-miss id p m apart) ∙ e) in ground arith
]

module _ {ℓ} {R : Type ℓ} (push : R → ℕ → R) (g : TaskGraph) where
  -- A search that returns, and whose visited ids include those of before.
  abbrev Returning : List ℕ → Option (Bool × Search R) → Type ℓ
  Returning V o = (r : Bool × Search R) × (o ≡ some r) × Within V r.1.visited

  abbrev Runs : ℕ → (ℕ → Search R → Option (Bool × Search R)) → Type ℓ
  Runs fuel f =
      (id : ℕ) (s : Search R) → unseen s.visited g.edges < fuel → Returning s.visited (f id s)

  Within-trans : (U V W : List ℕ) → Within U V → Within V W → Within U W
  Within-trans U V W h k x e = k x (h x e)

  each_returns :
      (fuel : ℕ) (f : ℕ → Search R → Option (Bool × Search R)) (ds : List ℕ) (s : Search R)
      → Runs fuel f
      → unseen s.visited g.edges < fuel
      → Returning s.visited (each f ds s)
  unfolding each
  each_returns fuel f [] s runs lt = ((true, s), refl, λ x e. e)
  each_returns fuel f (d ∷ ds) s runs lt =
      let (r, e, w) = runs d s lt in
      let less = unseen_mono s.visited r.1.visited g.edges w in
      let (q, e2, w2) = each_returns fuel f ds r.1 runs (omega arith) in
      elim (Bool-cases r.0) [
        | inl ok ↦ (
          q,
          ap (λ o. o >>= λ t. if t.0 then each f ds t.1 else some (false, t.1)) e
              ∙ if_true _ _ ok
              ∙ e2,
          λ x h. w2 x (w x h),
        )
        | inr bad ↦ (
          (false, r.1),
          ap (λ o. o >>= λ t. if t.0 then each f ds t.1 else some (false, t.1)) e
              ∙ if_false _ _ bad,
          w,
        )
      ]

  entered_returns :
      (fuel : ℕ) (f : ℕ → Search R → Option (Bool × Search R)) (id : ℕ) (s : Search R)
      → Runs fuel f
      → unseen s.visited g.edges < suc fuel
      → contains id s.visited ≡ false
      → Returning (id ∷ s.visited) (each f (listed id g.edges) (enter id s))
  unfolding each listed
  entered_returns fuel f id s runs lt new = elim (Option-cases (find id g.edges)) [
    | inl e ↦ ((true, enter id s), ap (λ o. each f (or_empty o) (enter id s)) e, λ x h. h)
    | inr (l, e) ↦
        let less = unseen-enter id s.visited l g.edges new e in
        each_returns fuel f (listed id g.edges) (enter id s) runs (omega arith)
  ]

  leave-visited : (id : ℕ) (r : Bool × Search R) → (leave push id r).1.visited ≡ r.1.visited
  leave-visited id (true, s) = refl
  leave-visited id (false, s) = refl

  pub dfs_returns : (fuel : ℕ) → Runs fuel (dfs push g fuel)
  unfolding dfs
  dfs_returns zero id s lt = elim lt [ ]
  dfs_returns (suc fuel) id s lt = elim (Bool-cases (contains id s.in_stack)) [
    | inl on ↦ ((false, s), if_true _ _ on, λ x e. e)
    | inr off ↦ elim (Bool-cases (contains id s.visited)) [
      | inl old ↦ ((true, s), if_false _ _ off ∙ if_true _ _ old, λ x e. e)
      | inr new ↦
          let (r, e, w) = entered_returns fuel (dfs push g fuel) id s (dfs_returns fuel) lt new in
          (
            leave push id r,
            if_false _ _ off ∙ if_false _ _ new ∙ ap (λ o. o >>= λ t. some (leave push id t)) e,
            λ x h.
                subst (λ V. contains x V ≡ true) (sym (leave-visited id r))
                  (w x (Within-enter id s.visited x h)),
          )
    ]
  ]

  all_tasks_returns :
      (fuel : ℕ) (ps : List (ℕ × Task)) (s : Search R)
      → length g.edges < fuel
      → (r : Bool × Search R) × (all_tasks push g fuel ps s ≡ some r)
  unfolding all_tasks
  all_tasks_returns fuel [] s lt = ((true, s), refl)
  all_tasks_returns fuel (p ∷ ps) s lt = elim (Bool-cases (contains p.0 s.visited)) [
    | inl old ↦ let (r, e) = all_tasks_returns fuel ps s lt in (r, if_true _ _ old ∙ e)
    | inr new ↦
        let (r, e, w) = dfs_returns fuel p.0 s (omega (arith, unseen-le s.visited g.edges)) in
        let (q, e2) = all_tasks_returns fuel ps r.1 lt in
        let go : (dfs push g fuel p.0 s >>= λ t.
        if t.0 then all_tasks push g fuel ps t.1 else some (false, t.1))
            ≡ (if r.0 then all_tasks push g fuel ps r.1 else some (false, r.1)) =
          ap (λ o. o >>= λ t. if t.0 then all_tasks push g fuel ps t.1 else some (false, t.1)) e in
        elim (Bool-cases r.0) [
          | inl ok ↦ (q, if_false _ _ new ∙ go ∙ if_true _ _ ok ∙ e2)
          | inr bad ↦ ((false, r.1), if_false _ _ new ∙ go ∙ if_false _ _ bad)
        ]
  ]

  pub search_returns : (none_yet : R) → (r : Bool × Search R) × (search push none_yet g ≡ some r)
  unfolding search
  search_returns none_yet =
      all_tasks_returns (length g.edges + 2) g.tasks
        (record { visited = []; in_stack = []; result = none_yet }) (omega arith)
