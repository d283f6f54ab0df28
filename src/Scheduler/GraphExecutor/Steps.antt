-- ===== src/Scheduler/GraphExecutor/Steps.antt =====
-- The steps of `GraphExecutor` that run tasks, inline or in the pool.
use scicompute.Base.{
  ◌≤◌, ◌+◌, ◌≢◌, dec_lt, if◌then◌else◌, ℕ, ◌≡◌, inl, inr, sym, ap, subst, ◌∙◌, Bool, true, false,
  ◌||◌, Option, some, none, List, ◌∷◌, ◌==◌, ℕ_discrete, ==_refl, ==_ne, if_true, if_false,
  Bool-cases, arith,
}
use scicompute.Base.Sets.{
  contains, count, take_out, count-take_out, count-contains, contains-count, count-absent,
}
use scicompute.Scheduler.TaskGraph.{Status, Task, TaskGraph, get_task}
use scicompute.Scheduler.GraphExecutor.{
  GraphExecutor, is_completed, status_after, claim, execute_task, insert, mark_completed, dispatch,
  process_found, process_one, cancel, closure_executes, closure_marks,
}
use scicompute.Scheduler.GraphExecutor.Ready.{
  set_status-find, contains-without, contains-without_rest, contains-insert_self,
  contains-insert_more,
}
use scicompute.Scheduler.GraphExecutor.History.{Inv, later, claim-Inv, skip-Inv}

module _ (g : TaskGraph) (func : ℕ → Option Status) where
  -- A closure of the pool runs its task, or the thread of `execute` does.
  pub execute_task-Inv :
      (id : ℕ) (e : GraphExecutor) (ids pooled begun : List ℕ)
      → Inv func g e ids
      → contains id e.running_tasks ≡ true
      → contains id e.executed ≡ false
      → ((x : ℕ) → count x pooled + (if x == id then 1 else 0) + count x e.executed ≤ 1)
      → ((x : ℕ) → count x pooled ≤ count x e.pooled)
      → ((x : ℕ) → count x begun ≤ count x e.begun + (if x == id then 1 else 0))
      → Inv func g (record (execute_task func id e) { pooled = pooled; begun = begun }) ids
  unfolding execute_task count
  execute_task-Inv id e ids pooled begun v r n single fewer more = record {
    same = v.same;
    done = λ x t f c. elim (set_status-find x id (status_after (func id)) e.graph.tasks t f) [
      | inl both ↦ (
        ap (λ b. b || contains x e.executed) (ap (λ k. x == k) (sym both.0) ∙ ==_refl x),
        ap (λ i. is_completed (status_after (func i))) both.0 ∙ ap is_completed (sym both.1) ∙ c,
      )
      | inr old ↦ later g func id e.executed x (v.done x t old c)
    ];
    waiting = λ x h d k. later g func id e.executed d (v.waiting x h d k);
    claimed = λ x h d k. later g func id e.executed d (v.claimed x h d k);
    known = λ x h. elim (ℕ_discrete x id) [
      | yes s ↦
          let there : contains x e.running_tasks ≡ true =
            ap (λ k. contains k e.running_tasks) s ∙ r in
          ground arith
      | no ne ↦ v.known x (ground (arith, ==_ne x id ne))
    ];
    history = (n, v.claimed id r, v.history);
    once = λ x. omega (arith, single x);
    handed = λ x h. v.handed x (omega (arith, fewer x));
    underway = λ x h. let old = v.underway x in let new = more x in ground arith;
  }

  pub mark_completed-Inv :
      (id : ℕ) (e : GraphExecutor) (ids begun : List ℕ)
      → Inv func g e ids
      → contains id e.executed ≡ true
      → ((x : ℕ) → count x begun ≤ count x e.begun)
      → Inv func g (record (mark_completed id e) { begun = begun }) ids
  unfolding mark_completed
  mark_completed-Inv id e ids begun v h fewer = record {
    same = v.same;
    done = v.done;
    waiting = v.waiting;
    claimed = λ x k. v.claimed x (contains-without_rest x id e.running_tasks k);
    known = λ x k. elim (ℕ_discrete x id) [
      | yes s ↦
          let here : contains x (insert id e.completed_tasks) ≡ true =
            ap (λ (y : ℕ). contains y (insert id e.completed_tasks)) s
            ∙ contains-insert_self id e.completed_tasks in
          ground arith
      | no ne ↦
          let kept = contains-without x id e.running_tasks ne in
          let more = contains-insert_more x id e.completed_tasks in
          elim (Bool-cases (contains x e.completed_tasks)) [
            | inl t ↦ let there = more t in ground arith
            | inr f ↦ let old = v.known x k in ground arith
          ]
    ];
    history = v.history;
    once = v.once;
    handed = λ x k.
        let running = v.handed x k in
        let other : x ≢ id = λ s.
          let ran = count-contains x e.executed (ap (λ i. contains i e.executed) s ∙ h) in
          let single = v.once x in let bad : 1 ≤ 0 = omega arith in elim bad [ ] in
        contains-without x id e.running_tasks other ∙ running;
    underway = λ x k. v.underway x (omega (arith, fewer x));
  }

  -- A task that is neither running nor completed was not run.
  not_executed :
      (id : ℕ) (e : GraphExecutor) (ids : List ℕ)
      → Inv func g e ids
      → (contains id e.running_tasks || contains id e.completed_tasks) ≡ false
      → contains id e.executed ≡ false
  not_executed id e ids v h = elim (Bool-cases (contains id e.executed)) [
    | inl t ↦ absurd (cc (v.known id t, h))
    | inr f ↦ f
  ]

  -- A closure for a task that neither ran nor waits in the pool.
  pool-Inv :
      (id : ℕ) (e : GraphExecutor) (ids : List ℕ)
      → Inv func g (claim id e) ids
      → contains id e.executed ≡ false
      → count id e.pooled ≡ 0
      → Inv func g (dispatch true func id (claim id e)) ids
  unfolding dispatch claim count
  pool-Inv id e ids v n none_pooled = record {
    same = v.same;
    done = v.done;
    waiting = v.waiting;
    claimed = v.claimed;
    known = v.known;
    history = v.history;
    once = λ x.
        let old = v.once x in
        elim (ℕ_discrete x id) [
          | yes s ↦
              let none_ran = count-absent id e.executed n in
              let a = ap (λ i. count i e.pooled) s in
              let b = ap (λ i. count i e.executed) s in ground arith
          | no ne ↦ let miss = ==_ne x id ne in ground arith
        ];
    handed = λ x h. elim (ℕ_discrete x id) [
      | yes s ↦ ap (λ b. b || contains x e.running_tasks) (ap (λ k. x == k) (sym s) ∙ ==_refl x)
      | no ne ↦ let miss = ==_ne x id ne in v.handed x (ground arith)
    ];
    underway = v.underway;
  }

  dispatch-Inv :
      (pool : Bool) (id : ℕ) (e : GraphExecutor) (ids : List ℕ)
      → Inv func g (claim id e) ids
      → contains id e.executed ≡ false
      → count id e.pooled ≡ 0
      → Inv func g (dispatch pool func id (claim id e)) ids
  unfolding dispatch claim execute_task count mark_completed
  dispatch-Inv true id e ids v n none_pooled = pool-Inv id e ids v n none_pooled
  dispatch-Inv false id e ids v n none_pooled =
      mark_completed-Inv id (execute_task func id (claim id e)) ids e.begun
        (execute_task-Inv id (claim id e) ids e.pooled e.begun v
          (ap (λ b. b || contains id e.running_tasks) (==_refl id)) n
          (λ x. elim (ℕ_discrete x id) [
            | yes s ↦
                let none_ran = count-absent id e.executed n in
                let a = ap (λ i. count i e.pooled) s in
                let b = ap (λ i. count i e.executed) s in ground arith
            | no ne ↦ let old = v.once x in let miss = ==_ne x id ne in ground arith
          ])
          (λ x. omega arith) (λ x. omega arith))
        (ap (λ b. b || contains id e.executed) (==_refl id)) (λ x. omega arith)

  -- No closure waits for a task that is not running.
  not_pooled :
      (id : ℕ) (e : GraphExecutor) (ids : List ℕ)
      → Inv func g e ids
      → (contains id e.running_tasks || contains id e.completed_tasks) ≡ false
      → count id e.pooled ≡ 0
  not_pooled id e ids v h = elim (dec_lt 0 (count id e.pooled)) [
    | yes l ↦ let there = v.handed id l in absurd (ground arith)
    | no n ↦ omega arith
  ]

  pub closure_executes-Inv :
      (id : ℕ) (e : GraphExecutor) (ids : List ℕ)
      → Inv func g e ids
      → 1 ≤ count id e.pooled
      → Inv func g (closure_executes func id e) ids
  unfolding closure_executes count
  closure_executes-Inv id e ids v h =
      execute_task-Inv id e ids (take_out id e.pooled) (id ∷ e.begun) v (v.handed id h)
        (elim (Bool-cases (contains id e.executed)) [
          | inl t ↦
              let ran = count-contains id e.executed t in
              let single = v.once id in let bad : 1 ≤ 0 = omega arith in elim bad [ ]
          | inr f ↦ f
        ])
        (λ x. let out = count-take_out id x e.pooled h in let single = v.once x in omega arith)
        (λ x. let out = count-take_out id x e.pooled h in omega arith) (λ x. omega arith)

  pub closure_marks-Inv :
      (id : ℕ) (e : GraphExecutor) (ids : List ℕ)
      → Inv func g e ids
      → 1 ≤ count id e.begun
      → Inv func g (closure_marks id e) ids
  unfolding closure_marks
  closure_marks-Inv id e ids v h =
      mark_completed-Inv id e ids (take_out id e.begun) v
        (contains-count id e.executed (v.underway id h))
        (λ x. let out = count-take_out id x e.begun h in omega arith)

  process_found-Inv :
      (pool : Bool) (id : ℕ) (o : Option Task) (e : GraphExecutor) (ids : List ℕ)
      → Inv func g e (id ∷ ids)
      → Inv func g (process_found pool func id o e) ids
  unfolding process_found
  process_found-Inv pool id none e ids v = skip-Inv g func id e ids v
  process_found-Inv pool id (some task) e ids v =
      elim (Bool-cases (contains id e.running_tasks || contains id e.completed_tasks)) [
        | inl t ↦ subst (λ d. Inv func g d ids) (sym (if_true _ _ t)) (skip-Inv g func id e ids v)
        | inr f ↦
            subst (λ d. Inv func g d ids) (sym (if_false _ _ f))
              (dispatch-Inv pool id e ids (claim-Inv g func id e ids v)
                (not_executed id e (id ∷ ids) v f) (not_pooled id e (id ∷ ids) v f))
      ]

  pub process_one-Inv :
      (pool : Bool) (id : ℕ) (e : GraphExecutor) (ids : List ℕ)
      → Inv func g e (id ∷ ids)
      → Inv func g (process_one pool func id e) ids
  unfolding process_one
  process_one-Inv pool id e ids v = elim (Bool-cases e.cancelled) [
    | inl t ↦ subst (λ d. Inv func g d ids) (sym (if_true _ _ t)) (skip-Inv g func id e ids v)
    | inr f ↦
        subst (λ d. Inv func g d ids) (sym (if_false _ _ f))
          (process_found-Inv pool id (get_task id e.graph) e ids v)
  ]

  pub cancel-Inv : (e : GraphExecutor) (ids : List ℕ) → Inv func g e ids → Inv func g (cancel e) ids
  unfolding cancel
  cancel-Inv e ids v = record {
    same = v.same;
    done = v.done;
    waiting = v.waiting;
    claimed = v.claimed;
    known = v.known;
    history = v.history;
    once = v.once;
    handed = v.handed;
    underway = v.underway;
  }
