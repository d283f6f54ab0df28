-- ===== src/Memory/BufferHandle/Tests.antt =====
-- `BufferHandle` at concrete inputs.
use scicompute.Base.{ℕ, ◌+◌, ◌≡◌, refl, some, none, List, [], ◌∷◌, ◌==◌, if◌then◌else◌}
use scicompute.Memory.BufferHandle.{
  Release, Statement, adopts, allocates, clones, moves, destroys, Program, exec, run, blank, adopt,
  clone, releases,
}
use scicompute.Memory.BufferHandle.Ownership.{measure, owned, releases_balance}

-- Two handles adopt the blocks 5 and 6; the second is moved over the first, a third handle gets the
-- block 7 of a device, a copy of it the block 8, and the four handles go.
abbrev script : List Statement
script =
    adopts (some 5) 64 0 (some 1)
    ∷ adopts (some 6) 64 0 (some 1)
    ∷ moves none 0 1
    ∷ allocates 2 1 4 (some 7) 32
    ∷ clones (λ d. 1) (λ d. d + 2) (some 8) 2
    ∷ destroys 3
    ∷ destroys 2
    ∷ destroys 1
    ∷ destroys 0
    ∷ []

abbrev result : (q : Program) × (run script blank ≡ some q)
unfolding run exec blank
result = (_, refl)

-- Counts the releases of the block 5.
abbrev five : Release → ℕ
five r = if r.1 == 5 then 1 else 0

releases_balance_example :
    measure five result.0.released + owned five result.0.handles + measure five result.0.detached
    ≡ measure five result.0.acquired
releases_balance_example = releases_balance five script result.0 result.1

released_once : result.0.released ≡ (1, 5) ∷ (4, 8) ∷ (4, 7) ∷ (1, 6) ∷ []
unfolding run exec blank releases
released_once = refl

-- `clone` of a handle that adopted a block calls a method on a null device.
clone_without_device : clone (λ d. d) (λ d. d) (some 9) (adopt (some 5) 64 0 (some 1)) ≡ none
unfolding clone adopt
clone_without_device = refl
