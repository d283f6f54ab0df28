-- ===== src/Queue/Spsc/Tests.antt =====
-- `SPSCQueue` at concrete inputs.
use scicompute.Base.{ℕ, ◌≡◌, refl, true, false, some, none, List, [], ◌∷◌, ◌++◌, arith, ◌<◌, length}
use scicompute.Queue.Spsc.{Spsc, fresh, init, push, pop, next_idx, fetch, store}
use scicompute.Queue.Spsc.Holds.{Holds, Holds-blank}
use scicompute.Queue.Spsc.Fifo.{Call, pushes, pops, pushed, popped, run, fifo_run, run_refines}
use scicompute.Queue.Spsc.Threads.{
  Producer, Consumer, System, push_load, pop_load, Reach, here, later, start,
}
use scicompute.Queue.Spsc.Threads.Delivery.{delivery, PushDefined, PopDefined, never_faults}

abbrev three : Spsc ℕ
three = record { buffer = some (0 ∷ 0 ∷ 0 ∷ []); capacity = 3; read_idx = 0; write_idx = 0 }

three-Holds : Holds three []
three-Holds = Holds-blank 0 3 (omega arith) (omega arith)

abbrev script : List (Call ℕ)
script = pushes 7 ∷ pushes 8 ∷ pushes 9 ∷ pops ∷ pushes 9 ∷ pops ∷ pops ∷ pops ∷ []

run-three :
    run script three
    ≡ some (
        pushed true
        ∷ pushed true
        ∷ pushed false
        ∷ popped (some 7)
        ∷ pushed true
        ∷ popped (some 8)
        ∷ popped (some 9)
        ∷ popped none
        ∷ [])
unfolding run push pop next_idx fetch store
run-three = refl

-- A capacity of 1 leaves no usable slot.
push-one :
    push {A = ℕ} 5 (init 0 1 fresh).1
    ≡ some (false, record { buffer = some (0 ∷ []); capacity = 1; read_idx = 0; write_idx = 0 })
unfolding push init fresh next_idx
push-one = refl

-- `Push` before `Init` divides by zero.
push-fresh : push {A = ℕ} 5 fresh ≡ none
unfolding push fresh next_idx
push-fresh = refl

run_refines_example : run script three ≡ some (fifo_run 3 script [])
run_refines_example = run_refines script three [] three-Holds

-- The producer stands between its loads when the consumer finds the queue empty.
abbrev mid_push : System ℕ
mid_push = record (start 0 3) { producer = Producer.loaded 7 0; consumer = Consumer.loaded 0 }

mid_push-Reach : Reach 0 3 mid_push
unfolding init fresh
mid_push-Reach = later (later here (push_load 7 refl)) (pop_load refl)

delivery_example : (xs : List ℕ) × ([] ≡ [] ++ xs) × Holds mid_push.mem xs × (length xs < 3)
delivery_example = delivery 0 3 mid_push (omega arith) (omega arith) mid_push-Reach

never_faults_example :
    PushDefined mid_push.mem (Producer.loaded 7 0) × PopDefined mid_push.mem (Consumer.loaded 0)
never_faults_example = never_faults 0 3 mid_push (omega arith) (omega arith) mid_push-Reach
