-- ===== src/Scheduler/TaskGraph/Depends/Fuel.antt =====
-- `depends_on` returns: an id is expanded once, and puts its dependencies on the queue then.
use scicompute.Base.{
  ℕ, zero, suc, ◌+◌, ◌≤◌, ◌<◌, ◌≡◌, Bool, true, false, refl, sym, ap, ◌∙◌, some, List, [], ◌∷◌,
  ◌++◌, length, length-append, arith, ◌==◌, if◌then◌else◌, if_true, if_false, ℕ_discrete,
  Bool-cases, Option-cases, inl, inr,
}
use scicompute.Base.Sets.{contains}
use scicompute.Base.Assoc.{find, find-miss, find-hit}
use scicompute.Base.{some_inj}
use scicompute.Scheduler.TaskGraph.{TaskGraph, listed, or_empty}
use scicompute.Scheduler.TaskGraph.Depends.{scan_queue, all_lengths, from_found, depends_on}

-- The dependencies that unvisited ids can still put on the queue.
unqueued : List ℕ → List (ℕ × List ℕ) → ℕ
unqueued visited [] = 0
unqueued visited (p ∷ m) = (if contains p.0 visited then 0 else length p.1) + unqueued visited m

unqueued_more : (c : ℕ) (V : List ℕ) (m : List (ℕ × List ℕ)) → unqueued (c ∷ V) m ≤ unqueued V m
unfolding unqueued
unqueued_more c V [] = omega arith
unqueued_more c V (p ∷ m) = let ih = unqueued_more c V m in ground arith

unqueued-nil : (m : List (ℕ × List ℕ)) → unqueued [] m ≡ all_lengths m
unfolding unqueued all_lengths
unqueued-nil [] = refl
unqueued-nil (p ∷ m) = omega (arith, unqueued-nil m)

unqueued-expand :
    (c : ℕ) (V l : List ℕ) (m : List (ℕ × List ℕ))
    → contains c V ≡ false
    → find c m ≡ some l
    → unqueued (c ∷ V) m + length l ≤ unqueued V m
unfolding unqueued find
unqueued-expand c V l [] new e = cc
unqueued-expand c V l (p ∷ m) new e = elim (ℕ_discrete c p.0) [
  | yes same ↦
      let less = unqueued_more c V m in
      let now : contains p.0 V ≡ false = ap (λ i. contains i V) (sym same) ∙ new in
      let long : length p.1 ≡ length l =
        ap (λ r. length r) (some_inj (sym (find-hit c p m same) ∙ e)) in
      ground arith
  | no apart ↦
      let ih = unqueued-expand c V l m new (sym (find-miss c p m apart) ∙ e) in ground arith
]

listed-expand :
    (g : TaskGraph) (c : ℕ) (V : List ℕ)
    → contains c V ≡ false
    → unqueued (c ∷ V) g.rev_edges + length (listed c g.rev_edges) ≤ unqueued V g.rev_edges
unfolding listed
listed-expand g c V new = elim (Option-cases (find c g.rev_edges)) [
  | inl e ↦ omega (arith, unqueued_more c V g.rev_edges, ap (λ o. length (or_empty o)) e)
  | inr (l, e) ↦
      omega (arith, unqueued-expand c V l g.rev_edges new e, ap (λ o. length (or_empty o)) e)
]

scan_queue_returns :
    (g : TaskGraph) (b fuel : ℕ) (V q : List ℕ)
    → length q + unqueued V g.rev_edges < fuel
    → (r : Bool) × (scan_queue g b fuel V q ≡ some r)
unfolding scan_queue
scan_queue_returns g b zero V q lt = elim lt [ ]
scan_queue_returns g b (suc fuel) V [] lt = (false, refl)
scan_queue_returns g b (suc fuel) V (c ∷ q) lt = elim (Bool-cases (c == b)) [
  | inl hit ↦ (true, if_true _ _ hit)
  | inr miss ↦ elim (Bool-cases (contains c V)) [
    | inl old ↦
        let (r, e) = scan_queue_returns g b fuel V q (omega arith) in
        (r, if_false _ _ miss ∙ if_true _ _ old ∙ e)
    | inr new ↦
        let (r, e) =
          scan_queue_returns g b fuel (c ∷ V) (q ++ listed c g.rev_edges)
            (omega (arith, length-append q (listed c g.rev_edges), listed-expand g c V new)) in
        (r, if_false _ _ miss ∙ if_false _ _ new ∙ e)
  ]
]

-- `depends_on` returns on every graph and for all ids.
pub depends_on_returns : (a b : ℕ) (g : TaskGraph) → (r : Bool) × (depends_on a b g ≡ some r)
unfolding depends_on
depends_on_returns a b g = elim (Option-cases (find a g.rev_edges)) [
  | inl e ↦ (false, ap (from_found g b) e)
  | inr (deps, e) ↦
      let (r, h) =
        scan_queue_returns g b (length deps + all_lengths g.rev_edges + 1) [] deps
          (omega (arith, unqueued-nil g.rev_edges)) in
      (r, ap (from_found g b) e ∙ h)
]
