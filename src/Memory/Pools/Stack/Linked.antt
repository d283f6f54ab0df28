-- ===== src/Memory/Pools/Stack/Linked.antt =====
-- `LockFreeStack` against the list of its blocks.
use scicompute.Base.{
  ℕ, zero, suc, ◌≡◌, ◌≢◌, refl, sym, ap, subst, ◌∙◌, Bool, true, false, ◌||◌, Option, some, none,
  List, [], ◌∷◌, ◌==◌, if_true, if_false, ==_refl, ==_ne, arith,
}
use scicompute.Base.Sets.{contains}
use scicompute.Memory.Pools.Stack.{LockFreeStack, same_ptr, link, swap, push, pop_head, pop, empty}

-- The blocks that hang on a pointer.
abbrev Chain : (ℕ → Option ℕ) → Option ℕ → List ℕ → Type 0
Chain next p [] = p ≡ none
Chain next p (x ∷ xs) = (p ≡ some x) × Chain next (next x) xs

abbrev pub Holds : LockFreeStack → List ℕ → Type 0
Holds s xs = Chain s.next s.head xs

abbrev pub top : List ℕ → Option ℕ
top [] = none
top (x ∷ xs) = some x

abbrev pub rest : List ℕ → List ℕ
rest [] = []
rest (x ∷ xs) = xs

abbrev pub is_nil : List ℕ → Bool
is_nil [] = true
is_nil (x ∷ xs) = false

same_refl : (o : Option ℕ) → same_ptr o o ≡ true
same_refl none = refl
same_refl (some a) = ==_refl a

swap-loaded :
    (desired : Option ℕ) (s : LockFreeStack)
    → swap s.head desired s ≡ (true, record s { head = desired })
unfolding swap
swap-loaded desired s = if_true _ _ (same_refl s.head)

-- The links of the blocks in the stack do not change when another block is linked.
Chain-link :
    (ptr : ℕ) (head p : Option ℕ) (s : LockFreeStack) (xs : List ℕ)
    → contains ptr xs ≡ false
    → Chain s.next p xs
    → Chain (link ptr head s).next p xs
unfolding link
Chain-link ptr head p s [] n c = c
Chain-link ptr head p s (x ∷ xs) n (e, c) =
    let other : x ≢ ptr =
      λ h. cc (ap (λ k. k || contains ptr xs) (ap (λ k. ptr == k) h ∙ ==_refl ptr), n) in
    (
      e,
      subst (λ q. Chain (link ptr head s).next q xs) (sym (if_false _ _ (==_ne x ptr other)))
          (Chain-link ptr head (s.next x) s xs (ground (arith, n)) c),
    )

push-Holds :
    (n ptr : ℕ) (s : LockFreeStack) (xs : List ℕ)
    → contains ptr xs ≡ false
    → Holds s xs
    → Holds (push n ptr s) (ptr ∷ xs)
unfolding push link
push-Holds zero ptr s xs new h =
    let linked = Chain-link ptr s.head s.head s xs new h in
    subst (λ r. Holds r.1 (ptr ∷ xs)) (sym (swap-loaded (some ptr) (link ptr s.head s)))
      (
        refl,
        subst (λ q. Chain (link ptr s.head s).next q xs) (sym (if_true _ _ (==_refl ptr))) linked,
      )
push-Holds (suc n) ptr s xs new h =
    push-Holds n ptr (link ptr s.head s) xs new (Chain-link ptr s.head s.head s xs new h)

pop-Holds :
    (n : ℕ) (s : LockFreeStack) (xs : List ℕ)
    → Holds s xs
    → ((pop n s).0 ≡ top xs) × Holds (pop n s).1 (rest xs)
unfolding pop pop_head
pop-Holds (suc n) s xs h = pop-Holds n s xs h
pop-Holds zero s [] h =
    let e : pop_head s.head s ≡ (none, s) = ap (λ o. pop_head o s) h in
    (ap (λ r. r.0) e, subst (λ r. Holds r.1 []) (sym e) h)
pop-Holds zero s (x ∷ xs) (h, c) =
    let e : pop_head s.head s ≡ (some x, record s { head = s.next x }) =
      ap (λ o. pop_head o s) h
      ∙ ap (λ o. (some x, (swap o (s.next x) s).1)) (sym h)
      ∙ ap (λ r. (some x, r.1)) (swap-loaded (s.next x) s) in
    (ap (λ r. r.0) e, subst (λ r. Holds r.1 xs) (sym e) c)

empty-Holds : (s : LockFreeStack) (xs : List ℕ) → Holds s xs → empty s ≡ is_nil xs
unfolding empty
empty-Holds s [] h = ap (λ o. same_ptr o none) h
empty-Holds s (x ∷ xs) (h, c) = ap (λ o. same_ptr o none) h

-- Used by one thread, whatever the spurious failures, the linked blocks are a stack: `Push` of a
-- block that is not in it puts that block on top, `Pop` takes the top and gives a null pointer if
-- there is none, and `Empty` says whether there is none.
pub stack_refines :
    (m n ptr : ℕ) (s : LockFreeStack) (xs : List ℕ)
    → Holds s xs
    → contains ptr xs ≡ false
    → Holds (push n ptr s) (ptr ∷ xs)
      × ((pop m s).0 ≡ top xs)
      × Holds (pop m s).1 (rest xs)
      × (empty s ≡ is_nil xs)
stack_refines m n ptr s xs h new =
    let (first, others) = pop-Holds m s xs h in
    (push-Holds n ptr s xs new h, first, others, empty-Holds s xs h)
