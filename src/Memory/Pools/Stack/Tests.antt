-- ===== src/Memory/Pools/Stack/Tests.antt =====
-- `LockFreeStack` at concrete inputs.
use scicompute.Base.{◌≡◌, refl, true, some, none, [], ◌∷◌}
use scicompute.Memory.Pools.Stack.{LockFreeStack, swap, push, pop, empty}
use scicompute.Memory.Pools.Stack.Linked.{Holds, is_nil, stack_refines}

abbrev bare : LockFreeStack
bare = record { head = none; next = λ b. none }

-- The blocks 1, 2 and 3, the first on top.
abbrev three : LockFreeStack
unfolding push
three = push 0 1 (push 0 2 (push 0 3 bare))

three-Holds : Holds three (1 ∷ 2 ∷ 3 ∷ [])
unfolding push three
three-Holds = (refl, (refl, (refl, refl)))

stack_refines_example :
    Holds (push 2 4 three) (4 ∷ 1 ∷ 2 ∷ 3 ∷ [])
    × ((pop 1 three).0 ≡ some 1)
    × Holds (pop 1 three).1 (2 ∷ 3 ∷ [])
    × (empty three ≡ is_nil (1 ∷ 2 ∷ 3 ∷ []))
stack_refines_example = stack_refines 1 2 4 three (1 ∷ 2 ∷ 3 ∷ []) three-Holds refl

-- One thread loads the head 1 and its next, 2; another pops 1 and 2 and pushes 1 again; the exchange
-- of the first succeeds, and the head is 2, which is in use.
abbrev meanwhile : LockFreeStack
unfolding push pop three
meanwhile = push 0 1 (pop 0 (pop 0 three).1).1

taken : ((pop 0 three).0 ≡ some 1) × ((pop 0 (pop 0 three).1).0 ≡ some 2)
unfolding push pop three
taken = (refl, refl)

stale :
    ((swap (some 1) (some 2) meanwhile).0 ≡ true)
    × ((swap (some 1) (some 2) meanwhile).1.head ≡ some 2)
unfolding push pop swap three meanwhile
stale = (refl, refl)
