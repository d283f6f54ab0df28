-- ===== src/Memory/BufferHandle/Ownership.antt =====
-- What the handles of a program own, and what they release.
use scicompute.Base.{
  ℕ, zero, suc, ◌+◌, ◌≡◌, ◌≢◌, true, some, List, [], ◌∷◌, ◌++◌, get_elem?, set, ap, refl, sym,
  subst, if_true, if_false, ◌∙◌, arith, ℕ_discrete, ◌==◌, ==_ne, ==_refl, some_inj, Option-cases,
  Option, none, inl, inr,
}
use scicompute.Base.Fallible.{>>=-eq-some}
use scicompute.Memory.BufferHandle.{
  Release, BufferHandle, Statement, declares, adopts, allocates, clones, on_device, clone, freed_by,
  declares_from, moves, resets, resets_to, detaches, destroys, Program, held, exec, run, blank,
  releases, deallocate, empty, adopt, move_construct, reset, reset_to, detach,
}

-- The sum of a weight of releases: with weight 1 for one release and 0 for the others, how often it
-- occurs.
unfoldable pub measure : (Release → ℕ) → List Release → ℕ
measure w [] = 0
measure w (r ∷ rs) = w r + measure w rs

measure-append :
    (w : Release → ℕ) (rs ss : List Release) → measure w (rs ++ ss) ≡ measure w rs + measure w ss
unfolding measure
measure-append w [] ss = omega arith
measure-append w (r ∷ rs) ss = omega (arith, measure-append w rs ss)

unfoldable pub owned : (Release → ℕ) → List BufferHandle → ℕ
owned w [] = 0
owned w (h ∷ hs) = measure w (held h) + owned w hs

owned-append :
    (w : Release → ℕ) (hs : List BufferHandle) (h : BufferHandle)
    → owned w (hs ++ h ∷ []) ≡ owned w hs + measure w (held h)
unfolding owned
owned-append w [] h = omega arith
owned-append w (g ∷ hs) h = omega (arith, owned-append w hs h)

owned-set :
    (w : Release → ℕ) (hs : List BufferHandle) (i : ℕ) (h g : BufferHandle)
    → get_elem? hs i ≡ some h
    → owned w (set hs i g) + measure w (held h) ≡ owned w hs + measure w (held g)
unfolding owned
owned-set w [] i h g e = cc
owned-set w (k ∷ hs) zero h g e = omega (arith, ap (λ b. measure w (held b)) (some_inj e))
owned-set w (k ∷ hs) (suc i) h g e = omega (arith, owned-set w hs i h g e)

get_elem?-set_other :
    (hs : List BufferHandle) (i j : ℕ) (g : BufferHandle)
    → i ≢ j
    → get_elem? (set hs i g) j ≡ get_elem? hs j
get_elem?-set_other [] i j g n = refl
get_elem?-set_other (h ∷ hs) zero zero g n = elim (n refl) [ ]
get_elem?-set_other (h ∷ hs) zero (suc j) g n = refl
get_elem?-set_other (h ∷ hs) (suc i) zero g n = refl
get_elem?-set_other (h ∷ hs) (suc i) (suc j) g n = get_elem?-set_other hs i j g (λ e. n (ap suc e))

-- Every release that the handles were made responsible for is made already, still due by a handle,
-- or was detached.
Balanced : (Release → ℕ) → Program → Type 0
Balanced w p =
    measure w p.released + owned w p.handles + measure w p.detached ≡ measure w p.acquired

-- A copy is responsible for the block that the device of the original gave.
held-clone :
    (ty dealloc : ℕ → ℕ) (given : Option ℕ) (h copy : BufferHandle)
    → clone ty dealloc given h ≡ some copy
    → held copy ≡ releases true given (freed_by dealloc h.device)
unfolding held clone on_device freed_by
held-clone ty dealloc given h copy e = elim (Option-cases h.device) [
  | inl f ↦ elim (absurd copy (sym (ap cloned f) ∙ e)) [ ]
  | inr (d, f) ↦
      sym (ap held (some_inj (sym (ap cloned f) ∙ e)))
      ∙ ap (λ o. releases true given (freed_by dealloc o)) (sym f)
]
  where
    cloned : Option ℕ → Option BufferHandle
    cloned o = elim o [ none ↦ none | some d ↦ some (on_device d (ty d) (dealloc d) given h.bytes) ]

    absurd : (b : BufferHandle) → none ≡ some b → ⊥
    absurd b e = cc

exec-Balanced :
    (w : Release → ℕ) (s : Statement) (p q : Program)
    → Balanced w p
    → exec s p ≡ some q
    → Balanced w q
unfolding exec Balanced measure releases
exec-Balanced w declares p q b e =
    subst (Balanced w) (some_inj e) (omega (arith, b, owned-append w p.handles empty))
exec-Balanced w (adopts ptr bytes ty dealloc) p q b e = subst (Balanced w) (some_inj e) (
    omega (
      arith,
      b,
      owned-append w p.handles (adopt ptr bytes ty dealloc),
      measure-append w p.acquired (releases true ptr dealloc),
    ))
exec-Balanced w (allocates device ty dealloc given bytes) p q b e =
    subst (Balanced w) (some_inj e) (
      omega (
        arith,
        b,
        owned-append w p.handles (on_device device ty dealloc given bytes),
        measure-append w p.acquired (releases true given (some dealloc)),
      ))
exec-Balanced w (clones ty dealloc given j) p q b e =
    let (other, f, e1) = >>=-eq-some (get_elem? p.handles j) _ e in
    let (copy, g, e2) = >>=-eq-some (clone ty dealloc given other) _ e1 in
    let due = releases true given (freed_by dealloc other.device) in
    subst (Balanced w) (some_inj e2) (
      omega (
        arith,
        b,
        owned-append w p.handles copy,
        ap (measure w) (held-clone ty dealloc given other copy g),
        measure-append w p.acquired due,
      ))
exec-Balanced w (declares_from left j) p q b e =
    let (other, f, e1) = >>=-eq-some (get_elem? p.handles j) _ e in
    let old = (move_construct left other).1 in
    subst (Balanced w) (some_inj e1) (
      omega
        (arith, b, owned-append w (set p.handles j old) other, owned-set w p.handles j other old f))
exec-Balanced w (moves left i j) p q b e =
    let (this, f, e1) = >>=-eq-some (get_elem? p.handles i) _ e in
    let (other, g, e2) = >>=-eq-some (get_elem? p.handles j) _ e1 in
    elim (ℕ_discrete i j) [
      | yes same ↦
          subst (Balanced w)
            (some_inj (sym (if_true _ _ (ap (◌==◌ i) (sym same) ∙ ==_refl i)) ∙ e2)) b
      | no ne ↦
          let old = (move_construct left other).1 in
          subst (Balanced w) (some_inj (sym (if_false _ _ (==_ne i j ne)) ∙ e2)) (
            omega (
              arith,
              b,
              owned-set w p.handles i this other f,
              owned-set w (set p.handles i other) j other old
                  (get_elem?-set_other p.handles i j other ne ∙ g),
              measure-append w p.released (held this),
            ))
    ]
exec-Balanced w (resets i) p q b e =
    let (h, f, e1) = >>=-eq-some (get_elem? p.handles i) _ e in
    subst (Balanced w) (some_inj e1) (
      omega
        (arith, b, owned-set w p.handles i h (reset h).1 f, measure-append w p.released (held h)))
exec-Balanced w (resets_to i ptr bytes ty dealloc) p q b e =
    let (h, f, e1) = >>=-eq-some (get_elem? p.handles i) _ e in
    subst (Balanced w) (some_inj e1) (
      omega (
        arith,
        b,
        owned-set w p.handles i h (reset_to ptr bytes ty dealloc h).1 f,
        measure-append w p.released (held h),
        measure-append w p.acquired (releases true ptr dealloc),
      ))
exec-Balanced w (detaches i) p q b e =
    let (h, f, e1) = >>=-eq-some (get_elem? p.handles i) _ e in
    subst (Balanced w) (some_inj e1) (
      omega
        (arith, b, owned-set w p.handles i h (detach h).1 f, measure-append w p.detached (held h)))
exec-Balanced w (destroys i) p q b e =
    let (h, f, e1) = >>=-eq-some (get_elem? p.handles i) _ e in
    subst (Balanced w) (some_inj e1) (
      omega (
        arith,
        b,
        owned-set w p.handles i h (deallocate h).1 f,
        measure-append w p.released (held h),
      ))

run-Balanced :
    (w : Release → ℕ) (ss : List Statement) (p q : Program)
    → Balanced w p
    → run ss p ≡ some q
    → Balanced w q
unfolding run
run-Balanced w [] p q b e = subst (Balanced w) (some_inj e) b
run-Balanced w (s ∷ ss) p q b e =
    let (p1, e1, e2) = >>=-eq-some (exec s p) _ e in
    run-Balanced w ss p1 q (exec-Balanced w s p p1 b e1) e2

-- After any statements on the handles of a program that starts without one, the releases made, the
-- releases that the handles would make now, and those that `detach` took away are together, under
-- any weight, the releases that the handles were made responsible for: each as often, so that no
-- block is released twice and none is forgotten.
pub releases_balance :
    (w : Release → ℕ) (ss : List Statement) (q : Program)
    → run ss blank ≡ some q
    → measure w q.released + owned w q.handles + measure w q.detached ≡ measure w q.acquired
unfolding blank Balanced measure owned
releases_balance w ss q e = run-Balanced w ss blank q (omega arith) e
