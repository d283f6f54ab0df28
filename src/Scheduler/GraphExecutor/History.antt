-- ===== src/Scheduler/GraphExecutor/History.antt =====
-- What `GraphExecutor` keeps of the history of the tasks, and its steps that run no task.
use scicompute.Base.{
  ◌≤◌, ◌+◌, ℕ, ◌≡◌, refl, sym, ap, ◌∙◌, true, false, ◌||◌, Option, some, List, [], ◌∷◌, ◌==◌,
  ℕ_discrete, ==_refl, ==_ne, arith,
}
use scicompute.Base.Sets.{contains, count}
use scicompute.Base.Assoc.{find}
use scicompute.Scheduler.TaskGraph.{Status, Task, TaskGraph, get_task, get_dependencies, listed}
use scicompute.Scheduler.GraphExecutor.{
  GraphExecutor, is_pending, is_completed, status_after, get_ready_tasks, claim, reset,
}
use scicompute.Scheduler.GraphExecutor.Ready.{
  ready_among-deps, all_deps_complete-each, complete_task,
}

-- The tasks d of the list that have returned `kCompleted`.
abbrev pub Succeeded : (ℕ → Option Status) → List ℕ → ℕ → Type 0
Succeeded func ran d = (contains d ran ≡ true) × (is_completed (status_after (func d)) ≡ true)

abbrev pub Behind : (ℕ → Option Status) → TaskGraph → ℕ → List ℕ → Type 0
Behind func g id ran = (d : ℕ) → contains d (get_dependencies id g) ≡ true → Succeeded func ran d

-- In a history, the last first, no task comes twice, and all dependencies of a task have succeeded
-- before it.
abbrev pub IsHistory : (ℕ → Option Status) → TaskGraph → List ℕ → Type 0
IsHistory func g [] = Unit
IsHistory func g (x ∷ xs) = (contains x xs ≡ false) × Behind func g x xs × IsHistory func g xs

abbrev pub AllPending : TaskGraph → Type 0
AllPending g = (id : ℕ) (t : Task) → find id g.tasks ≡ some t → is_pending t.status ≡ true

-- What holds of the executor in every interleaving.
pub record Inv (func : ℕ → Option Status) (g : TaskGraph) (e : GraphExecutor) (ids : List ℕ)
    : Type 0 where
  pub same : e.graph.rev_edges ≡ g.rev_edges
  pub done :
      (id : ℕ) (t : Task)
      → find id e.graph.tasks ≡ some t
      → is_completed t.status ≡ true
      → Succeeded func e.executed id
  pub waiting : (id : ℕ) → contains id ids ≡ true → Behind func g id e.executed
  pub claimed : (id : ℕ) → contains id e.running_tasks ≡ true → Behind func g id e.executed
  pub known :
      (id : ℕ)
      → contains id e.executed ≡ true
      → (contains id e.running_tasks || contains id e.completed_tasks) ≡ true
  pub history : IsHistory func g e.executed
  pub once : (id : ℕ) → count id e.pooled + count id e.executed ≤ 1
  pub handed : (id : ℕ) → 1 ≤ count id e.pooled → contains id e.running_tasks ≡ true
  pub underway : (id : ℕ) → 1 ≤ count id e.begun → 1 ≤ count id e.executed

module _ (g : TaskGraph) (func : ℕ → Option Status) where
  pending_apart : (s : Status) → is_pending s ≡ true → is_completed s ≡ true → ⊥
  pending_apart Status.pending p c = cc
  pending_apart Status.ready p c = cc
  pending_apart Status.running p c = cc
  pending_apart Status.completed p c = cc
  pending_apart Status.failed p c = cc
  pending_apart Status.cancelled p c = cc

  pub later : (id : ℕ) (ran : List ℕ) (d : ℕ) → Succeeded func ran d → Succeeded func (id ∷ ran) d
  later id ran d (h, s) = (ground arith, s)

  pub reset-Inv :
      AllPending g → (e : GraphExecutor) → e.pooled ≡ [] → e.begun ≡ [] → Inv func g (reset g e) []
  unfolding reset count
  reset-Inv p e pooled begun = record {
    same = refl;
    done = λ id t f c. absurd (pending_apart t.status (p id t f) c);
    waiting = λ id h x k. cc;
    claimed = λ id h x k. cc;
    known = λ id h. cc;
    history = tt;
    once = λ id. let none_yet = ap (count id) pooled in omega arith;
    handed = λ id h.
        let none_yet = ap (count id) pooled in let bad : 1 ≤ 0 = omega arith in elim bad [ ];
    underway = λ id h. let none_yet = ap (count id) begun in omega arith;
  }

  same_dependencies :
      (e : GraphExecutor) (ids : List ℕ) (id : ℕ)
      → Inv func g e ids
      → get_dependencies id e.graph ≡ get_dependencies id g
  unfolding get_dependencies
  same_dependencies e ids id v = ap (λ m. listed id m) v.same

  -- Ready tasks have their dependencies behind them.
  pub scan-Inv :
      (e : GraphExecutor) (ids : List ℕ) → Inv func g e ids → Inv func g e (get_ready_tasks e.graph)
  unfolding get_ready_tasks get_task
  scan-Inv e ids v = record {
    same = v.same;
    done = v.done;
    waiting = λ id h d k.
        let deps = ready_among-deps e.graph id e.graph.tasks h in
        let k' : contains d (get_dependencies id e.graph) ≡ true =
          ap (contains d) (same_dependencies e ids id v) ∙ k in
        let ready = all_deps_complete-each e.graph d (get_dependencies id e.graph) deps k' in
        let (t, f, c) = complete_task (get_task d e.graph) ready in v.done d t f c;
    claimed = v.claimed;
    known = v.known;
    history = v.history;
    once = v.once;
    handed = v.handed;
    underway = v.underway;
  }

  pub claim-Inv :
      (id : ℕ) (e : GraphExecutor) (ids : List ℕ)
      → Inv func g e (id ∷ ids)
      → Inv func g (claim id e) ids
  unfolding claim
  claim-Inv id e ids v = record {
    same = v.same;
    done = v.done;
    waiting = λ x h. v.waiting x (ground arith);
    claimed = λ x h. elim (ℕ_discrete x id) [
      | yes s ↦ v.waiting x (ap (λ b. b || contains x ids) (ap (λ k. x == k) (sym s) ∙ ==_refl x))
      | no n ↦ v.claimed x (ground (arith, ==_ne x id n))
    ];
    known = λ x h. let old = v.known x h in ground arith;
    history = v.history;
    once = v.once;
    handed = λ x h. let old = v.handed x h in ground arith;
    underway = v.underway;
  }

  pub skip-Inv :
      (id : ℕ) (e : GraphExecutor) (ids : List ℕ) → Inv func g e (id ∷ ids) → Inv func g e ids
  skip-Inv id e ids v = record {
    same = v.same;
    done = v.done;
    waiting = λ x h. v.waiting x (ground arith);
    claimed = v.claimed;
    known = v.known;
    history = v.history;
    once = v.once;
    handed = v.handed;
    underway = v.underway;
  }
