-- ===== src/Scheduler/GraphExecutor.antt =====
-- `GraphExecutor` of src/scheduler/task_graph.cpp, with `FunctionalTask::execute` of
-- src/scheduler/task.cpp. What the function of a task returns is an argument: `none` is an exception.
pub mod Ready
pub mod History
pub mod Steps
pub mod Order
pub mod Stores
pub mod Rounds
pub mod Counting
pub mod Finishing
mod Tests
use scicompute.Base.{
  ◌≤◌, ℕ, zero, suc, add_size, sub_size, ◌≡◌, Bool, true, false, not, ◌&&◌, ◌||◌, Option, some,
  none, List, [], ◌∷◌, ◌==◌, if◌then◌else◌, length,
}
use scicompute.Base.Sets.{contains, count, take_out}
use scicompute.Base.Fallible.{◌>>=◌}
use scicompute.Core.Status.{Factory}
use scicompute.Scheduler.TaskGraph.{Status, Task, TaskGraph, get_task, get_dependencies, without}
use scicompute.Scheduler.TaskGraph.Search.{is_valid}

abbrev pub is_pending : Status → Bool
is_pending Status.pending = true
is_pending Status.ready = false
is_pending Status.running = false
is_pending Status.completed = false
is_pending Status.failed = false
is_pending Status.cancelled = false

abbrev pub is_completed : Status → Bool
is_completed Status.pending = false
is_completed Status.ready = false
is_completed Status.running = false
is_completed Status.completed = true
is_completed Status.failed = false
is_completed Status.cancelled = false

-- The status that `FunctionalTask::execute` sets and returns.
pub status_after : Option Status → Status
status_after none = Status.failed
status_after (some result) = if is_completed result then Status.completed else Status.failed

-- `!dep || dep->status() != kCompleted`, negated.
abbrev pub dep_complete : Option Task → Bool
dep_complete none = false
dep_complete (some dep) = is_completed dep.status

-- The loop over the dependencies of a task.
pub all_deps_complete : TaskGraph → List ℕ → Bool
unfolding get_task
all_deps_complete g [] = true
all_deps_complete g (dep ∷ deps) = dep_complete (get_task dep g) && all_deps_complete g deps

-- The loop over the tasks.
pub ready_among : TaskGraph → List (ℕ × Task) → List ℕ
unfolding all_deps_complete get_dependencies
ready_among g [] = []
ready_among g (p ∷ ps) =
    let rest = ready_among g ps in
    if is_pending p.1.status && all_deps_complete g (get_dependencies p.0 g)
    then p.0 ∷ rest
    else rest

pub get_ready_tasks : TaskGraph → List ℕ
unfolding ready_among
get_ready_tasks g = ready_among g g.tasks

-- The stores to the status of a task, which its graph shares.
pub set_status : ℕ → Status → List (ℕ × Task) → List (ℕ × Task)
set_status id status [] = []
set_status id status (p ∷ ps) =
    let rest = set_status id status ps in
    if p.0 == id then (p.0, record p.1 { status = status }) ∷ rest else p ∷ rest

-- The executor with the graph that it is given. `executed` is the history: the tasks whose function
-- was called, the last first. `pooled` are the closures that were enqueued and that no thread of the
-- pool has begun, each by the id of its task; `begun` are those that have called the function of the
-- task and have yet to mark it.
pub record GraphExecutor : Type 0 where
  pub graph : TaskGraph
  pub running_tasks : List ℕ
  pub completed_tasks : List ℕ
  pub running : ℕ
  pub completed : ℕ
  pub cancelled : Bool
  pub executed : List ℕ
  pub pooled : List ℕ
  pub begun : List ℕ

-- The block under the lock, and `running_.fetch_add(1)`.
pub claim : ℕ → GraphExecutor → GraphExecutor
claim id e = record e { running_tasks = id ∷ e.running_tasks; running = add_size e.running 1 }

-- `task->execute()`
pub execute_task : (ℕ → Option Status) → ℕ → GraphExecutor → GraphExecutor
unfolding set_status status_after
execute_task func id e = record e {
  graph = record e.graph { tasks = set_status id (status_after (func id)) e.graph.tasks };
  executed = id ∷ e.executed;
}

abbrev pub insert : ℕ → List ℕ → List ℕ
insert id ids = if contains id ids then ids else id ∷ ids

pub mark_completed : ℕ → GraphExecutor → GraphExecutor
unfolding without
mark_completed id e = record e {
  running_tasks = without id e.running_tasks;
  completed_tasks = insert id e.completed_tasks;
  running = sub_size e.running 1;
  completed = add_size e.completed 1;
}

-- What becomes of a claimed task: a closure is enqueued for the thread pool, or it is run here.
pub dispatch : Bool → (ℕ → Option Status) → ℕ → GraphExecutor → GraphExecutor
unfolding mark_completed execute_task
dispatch true func id e = record e { pooled = id ∷ e.pooled }
dispatch false func id e = mark_completed id (execute_task func id e)

pub process_found : Bool → (ℕ → Option Status) → ℕ → Option Task → GraphExecutor → GraphExecutor
unfolding dispatch claim
process_found pool func id none e = e
process_found pool func id (some task) e =
    if contains id e.running_tasks || contains id e.completed_tasks
    then e
    else dispatch pool func id (claim id e)

-- A round of the loop of `process_ready_tasks`; once cancelled, the loop is left, which is to do
-- nothing for each of the remaining ids. `pool` says whether there is a thread pool.
pub process_one : Bool → (ℕ → Option Status) → ℕ → GraphExecutor → GraphExecutor
unfolding process_found get_task
process_one pool func id e =
    if e.cancelled then e else process_found pool func id (get_task id e.graph) e

pub process_all : Bool → (ℕ → Option Status) → List ℕ → GraphExecutor → GraphExecutor
unfolding process_one
process_all pool func [] e = e
process_all pool func (id ∷ ids) e = process_all pool func ids (process_one pool func id e)

pub process_ready_tasks : Bool → (ℕ → Option Status) → GraphExecutor → GraphExecutor
unfolding process_all get_ready_tasks
process_ready_tasks pool func e = process_all pool func (get_ready_tasks e.graph) e

pub all_complete : GraphExecutor → Bool
all_complete e = e.completed == length e.graph.tasks

pub cancel : GraphExecutor → GraphExecutor
cancel e = record e { cancelled = true }

-- The factory of the status that is returned; `Ok` is `none`.
abbrev pub Returned : Type 0
Returned = Option Factory

-- The `while` loop without a thread pool; `none` is the fuel running out.
pub run_loop : (ℕ → Option Status) → ℕ → GraphExecutor → Option GraphExecutor
unfolding all_complete process_ready_tasks
run_loop func zero e = none
run_loop func (suc fuel) e =
    let rest = run_loop func fuel (process_ready_tasks false func e) in
    if not (all_complete e) && not e.cancelled then rest else some e

-- A closure in the pool: first it calls the function of the task, later it marks the task.
pub closure_executes : (ℕ → Option Status) → ℕ → GraphExecutor → GraphExecutor
unfolding execute_task
closure_executes func id e = record (execute_task func id e) {
  pooled = take_out id e.pooled;
  begun = id ∷ e.begun;
}

pub closure_marks : ℕ → GraphExecutor → GraphExecutor
unfolding mark_completed
closure_marks id e = record (mark_completed id e) { begun = take_out id e.begun }

-- The stores at the start of `execute`. The count of running tasks is not reset.
pub reset : TaskGraph → GraphExecutor → GraphExecutor
reset g e = record e {
  graph = g;
  running_tasks = [];
  completed_tasks = [];
  completed = 0;
  cancelled = false;
  executed = [];
}

-- The value that `execute` returns after the loop.
abbrev pub outcome : GraphExecutor → Returned × GraphExecutor
outcome e = (if e.cancelled then some Factory.of_error else none, e)

pub execute :
    (ℕ → Option Status) → ℕ → TaskGraph → GraphExecutor → Option (Returned × GraphExecutor)
unfolding run_loop reset
execute func fuel g e = is_valid g >>= λ valid.
    let run = run_loop func fuel (reset g e) >>= λ done. some (outcome done) in
    if valid then run else some (some Factory.of_invalid_argument, reset g e)

-- The arguments of the call of the progress callback, if there is one.
abbrev pub progress : Bool → GraphExecutor → Option (ℕ × ℕ)
progress given e =
    if given && not (length e.graph.tasks == 0)
    then some (e.completed, length e.graph.tasks)
    else none

-- `execute` with a progress callback, which may be null.
pub execute_progress :
    (ℕ → Option Status)
    → ℕ
    → TaskGraph
    → Bool
    → GraphExecutor
    → Option (Returned × GraphExecutor × Option (ℕ × ℕ))
unfolding execute
execute_progress func fuel g given e =
    execute func fuel g e >>= λ (result, done). some (result, done, progress given done)

-- `execute` with targets, which it does not read.
pub execute_targets :
    (ℕ → Option Status) → ℕ → TaskGraph → List ℕ → GraphExecutor → Option (Returned × GraphExecutor)
unfolding execute
execute_targets func fuel g targets e = execute func fuel g e

-- The executor and the ids that its round has yet to look at, whatever the interleaving, in a call of
-- `execute` that finds no task of an earlier call in the pool. The thread of `execute` scans the graph
-- and takes the ids one by one; the threads of the pool begin any closure that was enqueued, and end
-- any that was begun; and any thread may cancel.
pub data Run (pool : Bool) (func : ℕ → Option Status) (g : TaskGraph)
    : GraphExecutor → List ℕ → Type 0 where
  start : (e : GraphExecutor) → e.pooled ≡ [] → e.begun ≡ [] → Run pool func g (reset g e) []
  scans :
      {e : GraphExecutor} {ids : List ℕ}
      → Run pool func g e ids
      → Run pool func g e (get_ready_tasks e.graph)
  takes :
      {e : GraphExecutor} {id : ℕ} {ids : List ℕ}
      → Run pool func g e (id ∷ ids)
      → Run pool func g (process_one pool func id e) ids
  executes :
      {e : GraphExecutor} {ids : List ℕ} (id : ℕ)
      → Run pool func g e ids
      → 1 ≤ count id e.pooled
      → Run pool func g (closure_executes func id e) ids
  marks :
      {e : GraphExecutor} {ids : List ℕ} (id : ℕ)
      → Run pool func g e ids
      → 1 ≤ count id e.begun
      → Run pool func g (closure_marks id e) ids
  cancels :
      {e : GraphExecutor} {ids : List ℕ} → Run pool func g e ids → Run pool func g (cancel e) ids
