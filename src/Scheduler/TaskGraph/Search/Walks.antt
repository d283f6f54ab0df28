-- ===== src/Scheduler/TaskGraph/Search/Walks.antt =====
-- A depth-first search that fails has met a cycle, and one that succeeds leaves no room for one.
use scicompute.Base.{
  ℕ, zero, suc, ◌<◌, ◌≤◌, ◌≡◌, ◌≢◌, Bool, true, false, refl, sym, ap, ◌∙◌, Option, some, List, [],
  ◌∷◌, arith, ◌==◌, if◌then◌else◌, if_true, if_false, ℕ_discrete, Bool-cases, inl, inr, length,
}
use scicompute.Base.Sets.{contains}
use scicompute.Base.Fallible.{>>=-eq-some}
use scicompute.Scheduler.TaskGraph.{TaskGraph, listed, get_dependents}
use scicompute.Scheduler.TaskGraph.Search.{Search, each, enter, leave, dfs, push_back}
use scicompute.Scheduler.TaskGraph.Search.Order.{
  Inv, Inv-enter, IsOrdered, outcome, succeeded, dfs_finishes,
}

-- One edge or more from one id to another.
pub data Walk (g : TaskGraph) (a : ℕ) : ℕ → Type 0 where
  edge : {b : ℕ} → contains b (get_dependents a g) ≡ true → Walk g a b
  further : {b c : ℕ} → Walk g a b → contains c (get_dependents b g) ≡ true → Walk g a c

abbrev pub Cycle : TaskGraph → Type 0
Cycle g = (y : ℕ) × Walk g y y

module _ (g : TaskGraph) (P : ℕ → Type 0)
    (closed : (x y : ℕ) → P x → contains y (listed x g.edges) ≡ true → P y) where
  -- Failure at `id` is a cycle, if every id on the stack has a walk to `id`.
  abbrev Cycling : (ℕ → Search (List ℕ) → Option (Bool × Search (List ℕ))) → Type 0
  Cycling f =
      (id : ℕ) (s t : Search (List ℕ))
      → P id
      → Inv g P closed s
      → ((y : ℕ) → contains y s.in_stack ≡ true → Walk g y id)
      → f id s ≡ outcome false t
      → Cycle g

  each_cycles :
      (fuel : ℕ) (ds : List ℕ) (s t : Search (List ℕ))
      → Cycling (dfs push_back g fuel)
      → ((x : ℕ) → contains x ds ≡ true → P x)
      → Inv g P closed s
      → ((y d : ℕ) → contains y s.in_stack ≡ true → contains d ds ≡ true → Walk g y d)
      → each (dfs push_back g fuel) ds s ≡ outcome false t
      → Cycle g
  unfolding each
  each_cycles fuel [] s t cyc ps v ws e = cc
  each_cycles fuel (d ∷ ds) s t cyc ps v ws e =
      let (r, e1, e2) = >>=-eq-some (dfs push_back g fuel d s) _ e in
      let here : contains d (d ∷ ds) ≡ true = ground arith in
      elim (Bool-cases r.0) [
        | inr bad ↦
            cyc d s r.1 (ps d here) v (λ y h. ws y d h here) (e1 ∙ ap (λ b. outcome b r.1) bad)
        | inl ok ↦
            let one = dfs_finishes g P closed fuel d s r.1 (ps d here) v (e1 ∙ succeeded r ok) in
            each_cycles fuel ds r.1 t cyc (λ x h. ps x (ground arith)) one.inv
              (λ y c h k. ws y c (ap (contains y) (sym one.stack) ∙ h) (ground arith))
              (sym (if_true _ _ ok) ∙ e2)
      ]

  leave-false :
      (id : ℕ) (r : Bool × Search (List ℕ)) (t : Search (List ℕ))
      → some (leave push_back id r) ≡ outcome false t
      → r.0 ≡ false
  leave-false id (true, s) t e = cc
  leave-false id (false, s) t e = refl

  pub dfs_cycles : (fuel : ℕ) → Cycling (dfs push_back g fuel)
  unfolding dfs get_dependents
  dfs_cycles zero id s t pid v ws e = cc
  dfs_cycles (suc fuel) id s t pid v ws e = elim (Bool-cases (contains id s.in_stack)) [
    | inl on ↦ (id, ws id on)
    | inr off ↦ elim (Bool-cases (contains id s.visited)) [
      | inl old ↦ elim (wrong (sym (if_true _ _ old) ∙ sym (if_false _ _ off) ∙ e)) [ ]
      | inr new ↦
          let (r, e1, e2) =
            >>=-eq-some (each (dfs push_back g fuel) (listed id g.edges) (enter id s)) _
              (sym (if_false _ _ new) ∙ sym (if_false _ _ off) ∙ e) in
          each_cycles fuel (listed id g.edges) (enter id s) r.1 (dfs_cycles fuel)
            (λ x h. closed id x pid h) (Inv-enter g P closed id s pid v off new)
            (λ y d h k. elim (ℕ_discrete y id) [
              | yes same ↦ edge (ap (λ i. contains d (listed i g.edges)) same ∙ k)
              | no other ↦ further (ws y (ground arith)) k
            ])
            (e1 ∙ ap (λ b. outcome b r.1) (leave-false id r t e2))
    ]
  ]
    where
      wrong : outcome true s ≡ outcome false t → ⊥
      wrong h = cc

-- In an ordered list a walk leads to a place nearer to the end.
place : ℕ → List ℕ → ℕ
place x [] = 0
place x (y ∷ ys) = if x == y then suc (length ys) else place x ys

place-le : (x : ℕ) (ys : List ℕ) → place x ys ≤ length ys
unfolding place
place-le x [] = omega arith
place-le x (y ∷ ys) = let ih = place-le x ys in ground arith

place-edge :
    (g : TaskGraph) (a b : ℕ) (xs : List ℕ)
    → IsOrdered g xs
    → contains a xs ≡ true
    → contains b (listed a g.edges) ≡ true
    → (contains b xs ≡ true) × (place b xs < place a xs)
unfolding place
place-edge g a b [] o h k = cc
place-edge g a b (x ∷ xs) o h k = elim (ℕ_discrete a x) [
  | yes same ↦
      let there = o.0 b (ap (λ i. contains b (listed i g.edges)) (sym same) ∙ k) in
      let less = place-le b xs in let apart = differs b there in ground arith
  | no other ↦
      let (there, less) = place-edge g a b xs o.2 (ground arith) k in
      let apart = differs b there in ground arith
]
  where
    differs : (b : ℕ) → contains b xs ≡ true → b ≢ x
    differs b h e = cc (h, o.1, ap (λ i. contains i xs) e)

place-Walk :
    (g : TaskGraph) (a b : ℕ) (xs : List ℕ)
    → IsOrdered g xs
    → contains a xs ≡ true
    → Walk g a b
    → (contains b xs ≡ true) × (place b xs < place a xs)
unfolding get_dependents
place-Walk g a b xs o h (edge k) = place-edge g a b xs o h k
place-Walk g a c xs o h (further {b} w k) =
    let (there, less) = place-Walk g a b xs o h w in
    let (at_end, more) = place-edge g b c xs o there k in (at_end, omega arith)

pub no_cycle :
    (g : TaskGraph) (y : ℕ) (xs : List ℕ) → IsOrdered g xs → contains y xs ≡ true → ¬ Walk g y y
no_cycle g y xs o h w = absurd (omega (arith, (place-Walk g y y xs o h w).1))
