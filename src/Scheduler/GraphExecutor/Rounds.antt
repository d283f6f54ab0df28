-- ===== src/Scheduler/GraphExecutor/Rounds.antt =====
-- The rounds of `GraphExecutor` without a thread pool, where all tasks succeed.
use scicompute.Base.{
  ℕ, ◌^◌, ◌≤◌, ◌<◌, ◌≡◌, ◌≢◌, inl, inr, sym, ap, subst, ◌∙◌, true, false, ◌||◌, Option, some, none,
  List, [], ◌∷◌, ◌==◌, length, ℕ_discrete, ==_refl, ==_ne, if_true, if_false, Bool-cases, arith,
}
use scicompute.Base.Sets.{contains, count, count-absent}
use scicompute.Base.Assoc.{find}
use scicompute.Scheduler.TaskGraph.{
  Status, Task, TaskGraph, get_task, has_task, get_dependencies, listed, without,
}
use scicompute.Scheduler.GraphExecutor.{
  GraphExecutor, is_pending, is_completed, status_after, dep_complete, all_deps_complete,
  get_ready_tasks, set_status, claim, execute_task, mark_completed, dispatch, process_found,
  process_one, process_all, process_ready_tasks,
}
use scicompute.Scheduler.GraphExecutor.Stores.{
  find-set_status_other, find-set_status_same, length-set_status, ready_among-contains,
  all_deps_complete_if,
}

-- Between two tasks of a round: the tasks run are those completed, and the others are pending.
pub record Between (g : TaskGraph) (e : GraphExecutor) : Type 0 where
  pub same : e.graph.rev_edges ≡ g.rev_edges
  pub long : length e.graph.tasks ≡ length g.tasks
  pub idle : e.running_tasks ≡ []
  pub goes_on : e.cancelled ≡ false
  pub as_run : e.completed_tasks ≡ e.executed
  pub counted : e.completed ≡ length e.executed
  pub once : (x : ℕ) → count x e.executed ≤ 1
  pub tasks : (x : ℕ) → contains x e.executed ≡ true → has_task x g ≡ true
  pub run :
      (x : ℕ)
      → contains x e.executed ≡ true
      → (t : Task) × (find x e.graph.tasks ≡ some t) × (is_completed t.status ≡ true)
  pub left :
      (x : ℕ)
      → has_task x g ≡ true
      → contains x e.executed ≡ false
      → (t : Task) × (find x e.graph.tasks ≡ some t) × (is_pending t.status ≡ true)
  pub others : (x : ℕ) → has_task x g ≡ false → find x e.graph.tasks ≡ none

pub once_more :
    (id : ℕ) (ran : List ℕ)
    → contains id ran ≡ false
    → ((x : ℕ) → count x ran ≤ 1)
    → (x : ℕ) → count x (id ∷ ran) ≤ 1
unfolding count
once_more id ran n o x = elim (ℕ_discrete x id) [
  | yes e ↦
      let absent : count x ran ≡ 0 = ap (λ k. count k ran) e ∙ count-absent id ran n in ground arith
  | no ne ↦ let h = o x in ground (arith, ==_ne x id ne)
]

pub still_tasks :
    (g : TaskGraph) (id : ℕ) (ran : List ℕ)
    → has_task id g ≡ true
    → ((x : ℕ) → contains x ran ≡ true → has_task x g ≡ true)
    → (x : ℕ) → contains x (id ∷ ran) ≡ true
    → has_task x g ≡ true
still_tasks g id ran h o x k = elim (ℕ_discrete x id) [
  | yes e ↦ ap (λ y. has_task y g) e ∙ h
  | no ne ↦ o x (ground (arith, ==_ne x id ne))
]

module _ (g : TaskGraph) (func : ℕ → Option Status)
    (succeeds : (id : ℕ) → is_completed (status_after (func id)) ≡ true)
    (small : (ran : List ℕ)
      → ((x : ℕ) → count x ran ≤ 1)
      → ((x : ℕ) → contains x ran ≡ true → has_task x g ≡ true)
      → length ran < 2 ^ 64) where
  -- The executor after a task was claimed, run and marked.
  abbrev after : ℕ → GraphExecutor → GraphExecutor
  after id e = mark_completed id (execute_task func id (claim id e))

  after-Between :
      (id : ℕ) (e : GraphExecutor)
      → Between g e
      → has_task id g ≡ true
      → contains id e.executed ≡ false
      → Between g (after id e)
  unfolding mark_completed execute_task claim
  after-Between id e v h n =
      let it = v.left id h n in
      let absent : contains id e.completed_tasks ≡ false = ap (contains id) v.as_run ∙ n in
      let once' = once_more id e.executed n v.once in
      let tasks' = still_tasks g id e.executed h v.tasks in
      let room = small (id ∷ e.executed) once' tasks' in
      record {
        same = v.same;
        long = length-set_status id (status_after (func id)) e.graph.tasks ∙ v.long;
        idle = ap (λ l. without id (id ∷ l)) v.idle ∙ if_true _ _ (==_refl id);
        goes_on = v.goes_on;
        as_run = if_false _ _ absent ∙ ap (◌∷◌ id) v.as_run;
        counted = omega (arith, v.counted);
        once = once';
        tasks = tasks';
        run = λ x k. elim (ℕ_discrete x id) [
          | yes s ↦ (
            record it.0 { status = status_after (func id) },
            ap (λ y. find y (set_status id (status_after (func id)) e.graph.tasks)) s
                ∙ find-set_status_same id (status_after (func id)) e.graph.tasks it.0 it.1,
            succeeds id,
          )
          | no ne ↦
              let (t, f, c) = v.run x (ground (arith, ==_ne x id ne)) in
              (t, find-set_status_other x id (status_after (func id)) e.graph.tasks ne ∙ f, c)
        ];
        left = λ x k m.
            let ne : x ≢ id = λ s.
              let here : contains x (id ∷ e.executed) ≡ true =
                ap (λ b. b || contains x e.executed) (ap (λ k. x == k) (sym s) ∙ ==_refl x) in
              cc (here, m) in
            let (t, f, c) = v.left x k (ground (arith, ==_ne x id ne)) in
            (t, find-set_status_other x id (status_after (func id)) e.graph.tasks ne ∙ f, c);
        others = λ x k.
            let ne : x ≢ id = λ s. absurd (cc (ap (λ y. has_task y g) s, h, k)) in
            find-set_status_other x id (status_after (func id)) e.graph.tasks ne ∙ v.others x k;
      }

  -- A round over an id: it is run, or was run before, if it is a task.
  Advances : ℕ → GraphExecutor → GraphExecutor → Type 0
  Advances id e d =
      Between g d
      × ((x : ℕ) → contains x e.executed ≡ true → contains x d.executed ≡ true)
      × (has_task id g ≡ true → contains id d.executed ≡ true)

  process_one-Advances :
      (id : ℕ) (e : GraphExecutor) → Between g e → Advances id e (process_one false func id e)
  unfolding process_one process_found dispatch get_task Advances execute_task mark_completed claim
  process_one-Advances id e v =
      let found : (o : Option Task)
          → find id e.graph.tasks ≡ o
          → process_one false func id e ≡ process_found false func id o e =
        λ o h. if_false _ _ v.goes_on ∙ ap (λ r. process_found false func id r e) h in
      elim (Bool-cases (contains id e.executed)) [
        | inl old ↦
            let (t, f, c) = v.run id old in
            let seen : (contains id e.running_tasks || contains id e.completed_tasks) ≡ true =
              ap (λ l. contains id e.running_tasks || contains id l) v.as_run
              ∙ ground (arith, old) in
            let stays : process_one false func id e ≡ e = found (some t) f ∙ if_true _ _ seen in
            subst (Advances id e) (sym stays) (v, λ x k. k, λ k. old)
        | inr new ↦ elim (Bool-cases (has_task id g)) [
          | inl task ↦
              let (t, f, c) = v.left id task new in
              let unseen : (contains id e.running_tasks || contains id e.completed_tasks) ≡ false =
                ap (λ l. contains id l || contains id e.completed_tasks) v.idle
                ∙ ap (contains id) v.as_run
                ∙ new in
              let runs : process_one false func id e ≡ after id e =
                found (some t) f ∙ if_false _ _ unseen in
              subst (Advances id e) (sym runs) (
                after-Between id e v task new,
                λ x k. ground (arith, k),
                λ k. ap (λ b. b || contains id e.executed) (==_refl id),
              )
          | inr no_task ↦
              let stays : process_one false func id e ≡ e = found none (v.others id no_task) in
              subst (Advances id e) (sym stays) (v, λ x k. k, λ k. absurd (cc (k, no_task)))
        ]
      ]

  process_all-Advances :
      (ids : List ℕ) (e : GraphExecutor)
      → Between g e
      → Between g (process_all false func ids e)
        × ((x : ℕ)
            → contains x e.executed ≡ true
            → contains x (process_all false func ids e).executed ≡ true)
        × ((x : ℕ)
            → contains x ids ≡ true
            → has_task x g ≡ true
            → contains x (process_all false func ids e).executed ≡ true)
  unfolding process_all Advances
  process_all-Advances [] e v = (v, λ x k. k, λ x k h. cc)
  process_all-Advances (id ∷ ids) e v =
      let (w, keeps, runs) = process_one-Advances id e v in
      let (u, keep, run) = process_all-Advances ids (process_one false func id e) w in
      (
        u,
        λ x k. keep x (keeps x k),
        λ x k h. elim (ℕ_discrete x id) [
          | yes s ↦ keep x (
              ap (λ y. contains y (process_one false func id e).executed) s
              ∙ runs (ap (λ y. has_task y g) (sym s) ∙ h))
          | no ne ↦ run x (ground (arith, ==_ne x id ne)) h
        ],
      )

  -- A round runs every task whose dependencies were run.
  pub round :
      (e : GraphExecutor)
      → Between g e
      → Between g (process_ready_tasks false func e)
        × ((x : ℕ)
            → contains x e.executed ≡ true
            → contains x (process_ready_tasks false func e).executed ≡ true)
        × ((x : ℕ)
            → has_task x g ≡ true
            → ((d : ℕ) → contains d (get_dependencies x g) ≡ true → contains d e.executed ≡ true)
            → contains x (process_ready_tasks false func e).executed ≡ true)
  unfolding process_ready_tasks get_ready_tasks get_dependencies get_task
  round e v =
      let (w, keep, run) = process_all-Advances (get_ready_tasks e.graph) e v in
      (
        w,
        keep,
        λ x h behind. elim (Bool-cases (contains x e.executed)) [
          | inl old ↦ keep x old
          | inr new ↦
              let (t, f, p) = v.left x h new in
              let deps : all_deps_complete e.graph (get_dependencies x e.graph) ≡ true =
                all_deps_complete_if e.graph (get_dependencies x e.graph) (λ d k.
                  let k' : contains d (get_dependencies x g) ≡ true =
                    ap (λ m. contains d (listed x m)) (sym v.same) ∙ k in
                  let (s, f', c) = v.run d (behind d k') in ap dep_complete f' ∙ c) in
              run x (ready_among-contains e.graph x t e.graph.tasks f p deps) h
        ],
      )
