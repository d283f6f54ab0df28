-- ===== src/Scheduler/GraphExecutor/Finishing.antt =====
-- `GraphExecutor::execute` without a thread pool runs every task of a graph whose tasks succeed.
use scicompute.Base.{
  ℕ, zero, suc, ◌+◌, ◌^◌, ◌≤◌, ◌<◌, ◌≡◌, refl, sym, ap, ◌∙◌, Bool, true, false, not, ◌&&◌, ◌||◌,
  inl, inr, Option, some, none, List, [], ◌∷◌, if◌then◌else◌, length, ℕ_discrete, ==_refl, ==_ne,
  if_true, if_false, some_inj, Bool-cases, arith,
}
use scicompute.Base.Sets.{contains, count, contains-count, count-contains}
use scicompute.Base.Assoc.{find}
use scicompute.Base.Fallible.{◌>>=◌, >>=-eq-some}
use scicompute.Scheduler.TaskGraph.{
  Status, Task, TaskGraph, has_task, is_some, get_dependencies, get_dependents, Reach,
}
use scicompute.Scheduler.TaskGraph.Edges.{edges_mirror}
use scicompute.Scheduler.TaskGraph.Ends.{edges_known}
use scicompute.Scheduler.TaskGraph.Search.{is_dag, is_valid, edges_have_tasks}
use scicompute.Core.Status.{Factory}
use scicompute.Scheduler.TaskGraph.Search.Order.{IsOrdered}
use scicompute.Scheduler.TaskGraph.Search.Sorting.{topological_sort_lem}
use scicompute.Scheduler.GraphExecutor.{
  GraphExecutor, is_pending, is_completed, status_after, all_complete, process_ready_tasks,
  run_loop, reset, execute, outcome,
}
use scicompute.Scheduler.GraphExecutor.History.{AllPending}
use scicompute.Scheduler.GraphExecutor.Rounds.{Between, round}
use scicompute.Scheduler.GraphExecutor.Counting.{
  at_most_tasks, all_run_counts, counted_all_run, ordered_after, once_ordered, all_counted,
}

module _ (g : TaskGraph) (r : Reach true g) (func : ℕ → Option Status)
    (succeeds : (id : ℕ) → is_completed (status_after (func id)) ≡ true)
    (small : length g.tasks < 2 ^ 64) where
  small_ran :
      (ran : List ℕ)
      → ((x : ℕ) → count x ran ≤ 1)
      → ((x : ℕ) → contains x ran ≡ true → has_task x g ≡ true)
      → length ran < 2 ^ 64
  small_ran ran once tasks = let short = at_most_tasks g r ran once tasks in omega arith

  -- A dependency has the task among its dependents, and is a task itself.
  mirrored :
      (x d : ℕ)
      → contains d (get_dependencies x g) ≡ true
      → (contains x (get_dependents d g) ≡ true) × (has_task d g ≡ true)
  mirrored x d h =
      let there = count-contains d (get_dependencies x g) h in
      let mirror = edges_mirror true g r d x in
      let edge : 1 ≤ count x (get_dependents d g) = omega arith in
      (contains-count x (get_dependents d g) edge, (edges_known g d x r edge).0)

  -- What the loop comes to.
  abbrev Finished : ℕ → GraphExecutor → Type 0
  Finished fuel e =
      (done : GraphExecutor) × (run_loop func fuel e ≡ some done)
      × Between g done
      × ((x : ℕ) → has_task x g ≡ true → contains x done.executed ≡ true)

  exits : (n : ℕ) (e : GraphExecutor) → Between g e → all_complete e ≡ true → Finished (suc n) e
  unfolding run_loop
  exits n e v full =
      (e, if_false _ _ (ap (λ b. not b && not e.cancelled) full), v, counted_all_run g r e v full)

  -- All tasks that were not run are in the rest of an ordered list, which gets shorter every round.
  loop :
      (rest : List ℕ) (fuel : ℕ) (e : GraphExecutor)
      → length rest < fuel
      → Between g e
      → IsOrdered g rest
      → ((x : ℕ) → contains x rest ≡ true → has_task x g ≡ true)
      → ((x : ℕ) → has_task x g ≡ true → contains x e.executed ≡ false → contains x rest ≡ true)
      → Finished fuel e
  unfolding run_loop
  loop rest zero e l v o tasks cover = elim l [ ]
  loop [] (suc n) e l v o tasks cover = exits n e v (
      all_run_counts g r e v (λ x h. elim (Bool-cases (contains x e.executed)) [
        | inl t ↦ t
        | inr f ↦ absurd (cc (cover x h f))
      ]))
  loop (x ∷ xs) (suc n) e l v (within, fresh, o) tasks cover =
      let (w, keep, run) = round g func succeeds small_ran e v in
      let task = tasks x (ap (λ b. b || contains x xs) (==_refl x)) in
      let behind : (d : ℕ)
          → contains d (get_dependencies x g) ≡ true
          → contains d e.executed ≡ true =
        λ d h. elim (Bool-cases (contains d e.executed)) [
          | inl t ↦ t
          | inr f ↦
              let (edge, known) = mirrored x d h in
              let ahead = ordered_after g x xs d x (within, fresh, o) (cover d known f) edge in
              absurd (cc (ahead, fresh))
        ] in
      let ran = run x task behind in
      elim (Bool-cases (all_complete e)) [
        | inl full ↦ exits n e v full
        | inr more ↦
            let goes : run_loop func (suc n) e
                ≡ run_loop func n (process_ready_tasks false func e) =
              if_true _ _ (both more v.goes_on) in
            let (done, finish, u, every) =
              loop xs n (process_ready_tasks false func e) (omega arith) w o
                (λ y k. tasks y (ground arith))
                (λ y h k. elim (Bool-cases (contains y e.executed)) [
                  | inl t ↦ absurd (cc (keep y t, k))
                  | inr f ↦ elim (ℕ_discrete y x) [
                    | yes s ↦ absurd (
                        cc (
                          ran,
                          ap (λ i. contains i (process_ready_tasks false func e).executed) s,
                          k,
                        ))
                    | no ne ↦ ground (arith, cover y h f, ==_ne y x ne)
                  ]
                ]) in
            (done, goes ∙ finish, u, every)
      ]
    where
      both : {a b : Bool} → a ≡ false → b ≡ false → (not a && not b) ≡ true
      both p q = cc (p, q)

  all_left : AllPending g → (e : GraphExecutor) → Between g (reset g e)
  unfolding reset has_task count
  all_left p e = record {
    same = refl;
    long = refl;
    idle = refl;
    goes_on = refl;
    as_run = refl;
    counted = refl;
    once = λ x. omega arith;
    tasks = λ x h. cc;
    run = λ x h. cc;
    left = λ x h k. by_task x (find x g.tasks) refl h;
    others = λ x h. by_none (find x g.tasks) h;
  }
    where
      by_task :
          (x : ℕ) (o : Option Task)
          → find x g.tasks ≡ o
          → is_some o ≡ true
          → (t : Task) × (find x g.tasks ≡ some t) × (is_pending t.status ≡ true)
      by_task x none f h = cc
      by_task x (some t) f h = (t, f, p x t f)

      by_none : (o : Option Task) → is_some o ≡ false → o ≡ none
      by_none none h = refl
      by_none (some t) h = cc

dag_of_valid : (g : TaskGraph) → is_valid g ≡ some true → is_dag g ≡ some true
unfolding is_valid
dag_of_valid g h =
    let (ok, e, k) = >>=-eq-some (is_dag g) (λ ok. some (ok && edges_have_tasks g g.edges)) h in
    elim (Bool-cases ok) [
      | inl t ↦ e ∙ ap some t
      | inr f ↦
          absurd (cc (some_inj (sym (ap (λ b. some (b && edges_have_tasks g g.edges)) f) ∙ k)))
    ]

-- On a valid graph that a client can build with the assertions of `add_edge` compiled in, whose tasks
-- are fewer than 2 ^ 64 and all pending and whose functions all return `kCompleted`, `execute`
-- without a thread pool, if nobody cancels it, leaves its loop after at most as many rounds as there
-- are tasks and returns `Ok`; every task then has the status `kCompleted` and was run, and the count
-- is that of the tasks.
pub execute_completes :
    (g : TaskGraph) (func : ℕ → Option Status) (e : GraphExecutor)
    → Reach true g
    → is_valid g ≡ some true
    → AllPending g
    → ((id : ℕ) → is_completed (status_after (func id)) ≡ true)
    → length g.tasks < 2 ^ 64
    → (done : GraphExecutor) × (execute func (length g.tasks + 1) g e ≡ some (none, done))
      × ((x : ℕ)
          → has_task x g ≡ true
          → (contains x done.executed ≡ true)
            × ((t : Task) × (find x done.graph.tasks ≡ some t) × (is_completed t.status ≡ true)))
      × (done.completed ≡ length g.tasks)
unfolding execute is_valid
execute_completes g func e r valid pending succeeds small =
    let (l, _, o, all) = topological_sort_lem g r (dag_of_valid g valid) in
    let tasks : (x : ℕ) → contains x l ≡ true → has_task x g ≡ true = λ x h. sym (all x) ∙ h in
    let short = at_most_tasks g r l (once_ordered g l o) tasks in
    let v = all_left g r func succeeds small pending e in
    let (done, finish, u, every) =
      loop g r func succeeds small l (length g.tasks + 1) (reset g e) (omega arith) v o tasks
        (λ x h k. all x ∙ h) in
    (
      done,
      ap
            (λ m. m >>= λ ok.
              let run = run_loop func (length g.tasks + 1) (reset g e) >>= λ d. some (outcome d) in
              if ok then run else some (some Factory.of_invalid_argument, reset g e))
            valid
          ∙ ap (λ m. m >>= λ d. some (outcome d)) finish
          ∙ ap (λ b. some (if b then some Factory.of_error else none, done)) u.goes_on,
      λ x h. (every x h, u.run x (every x h)),
      all_counted g r done u every,
    )
