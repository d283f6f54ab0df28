-- ===== src/Scheduler/GraphExecutor/Ready.antt =====
-- The ready tasks of a graph, the stores to a status and the sets of `GraphExecutor`.
use scicompute.Base.{
  ℕ, ◌≡◌, ◌≢◌, ◌⊎◌, inl, inr, refl, sym, ap, subst, ◌∙◌, true, false, ◌&&◌, ◌||◌, Option, some,
  none, List, [], ◌∷◌, ◌==◌, ℕ_discrete, ==_refl, ==_ne, if_true, if_false, some_inj, Bool-cases,
  arith,
}
use scicompute.Base.Sets.{contains}
use scicompute.Base.Assoc.{find, find-hit, find-miss}
use scicompute.Scheduler.TaskGraph.{Status, Task, TaskGraph, get_task, get_dependencies, without}
use scicompute.Scheduler.GraphExecutor.{
  is_pending, is_completed, dep_complete, all_deps_complete, ready_among, set_status, insert,
}

set_status-same :
    (id : ℕ) (status : Status) (ps : List (ℕ × Task)) (t : Task)
    → find id (set_status id status ps) ≡ some t
    → t.status ≡ status
unfolding set_status find
set_status-same id status [] t e = cc
set_status-same id status (p ∷ ps) t e = elim (ℕ_discrete p.0 id) [
  | yes here ↦
      let kept = if_true _ _ (ap (λ k. k == id) here ∙ ==_refl id) in
      let found =
        sym (find-hit id (p.0, record p.1 { status = status }) (set_status id status ps) (sym here))
        ∙ sym (ap (find id) kept)
        ∙ e in
      ap (λ (r : Task). r.status) (sym (some_inj found))
  | no other ↦
      let kept = if_false _ _ (==_ne p.0 id other) in
      set_status-same id status ps t (
        sym (find-miss id p (set_status id status ps) (λ h. other (sym h)))
        ∙ sym (ap (find id) kept)
        ∙ e)
]

pub set_status-find :
    (x id : ℕ) (status : Status) (ps : List (ℕ × Task)) (t : Task)
    → find x (set_status id status ps) ≡ some t
    → ((x ≡ id) × (t.status ≡ status)) ⊎ (find x ps ≡ some t)
unfolding set_status find
set_status-find x id status [] t e = inr e
set_status-find x id status (p ∷ ps) t e = elim (ℕ_discrete x id) [
  | yes same ↦ inl (
    same,
    set_status-same id status (p ∷ ps) t
        (ap (λ k. find k (set_status id status (p ∷ ps))) (sym same) ∙ e),
  )
  | no ne ↦ elim (ℕ_discrete p.0 id) [
    | yes here ↦
        let kept = if_true _ _ (ap (λ k. k == id) here ∙ ==_refl id) in
        let miss : x ≢ p.0 = λ h. ne (h ∙ here) in
        let rest =
          sym (find-miss x (p.0, record p.1 { status = status }) (set_status id status ps) miss)
          ∙ sym (ap (find x) kept)
          ∙ e in
        elim (set_status-find x id status ps t rest) [
          | inl a ↦ inl a
          | inr b ↦ inr (find-miss x p ps miss ∙ b)
        ]
    | no other ↦
        let kept = if_false _ _ (==_ne p.0 id other) in
        elim (ℕ_discrete x p.0) [
          | yes hit ↦ inr (
              find-hit x p ps hit
              ∙ sym (find-hit x p (set_status id status ps) hit)
              ∙ sym (ap (find x) kept)
              ∙ e)
          | no miss ↦
              let rest =
                sym (find-miss x p (set_status id status ps) miss) ∙ sym (ap (find x) kept) ∙ e in
              elim (set_status-find x id status ps t rest) [
                | inl a ↦ inl a
                | inr b ↦ inr (find-miss x p ps miss ∙ b)
              ]
        ]
  ]
]

pub ready_among-deps :
    (g : TaskGraph) (id : ℕ) (ps : List (ℕ × Task))
    → contains id (ready_among g ps) ≡ true
    → all_deps_complete g (get_dependencies id g) ≡ true
unfolding ready_among
ready_among-deps g id [] h = cc
ready_among-deps g id (p ∷ ps) h =
    elim (Bool-cases (is_pending p.1.status && all_deps_complete g (get_dependencies p.0 g))) [
      | inl t ↦
          let here = sym (ap (contains id) (if_true _ _ t)) ∙ h in
          elim (ℕ_discrete id p.0) [
            | yes e ↦
                let deps : all_deps_complete g (get_dependencies p.0 g) ≡ true = ground arith in
                subst (λ (k : ℕ). all_deps_complete g (get_dependencies k g) ≡ true) (sym e) deps
            | no ne ↦ ready_among-deps g id ps (ground (arith, ==_ne id p.0 ne))
          ]
      | inr f ↦ ready_among-deps g id ps (sym (ap (contains id) (if_false _ _ f)) ∙ h)
    ]

pub all_deps_complete-each :
    (g : TaskGraph) (d : ℕ) (deps : List ℕ)
    → all_deps_complete g deps ≡ true
    → contains d deps ≡ true
    → dep_complete (get_task d g) ≡ true
unfolding all_deps_complete
all_deps_complete-each g d [] a h = cc
all_deps_complete-each g d (x ∷ xs) a h = elim (ℕ_discrete d x) [
  | yes e ↦
      let here : dep_complete (get_task x g) ≡ true = ground arith in
      subst (λ (k : ℕ). dep_complete (get_task k g) ≡ true) (sym e) here
  | no ne ↦ all_deps_complete-each g d xs (ground arith) (ground (arith, ==_ne d x ne))
]

pub complete_task :
    (o : Option Task)
    → dep_complete o ≡ true
    → (t : Task) × (o ≡ some t) × (is_completed t.status ≡ true)
complete_task none h = cc
complete_task (some t) h = (t, refl, h)

contains-without_self : (x : ℕ) (xs : List ℕ) → contains x (without x xs) ≡ false
unfolding without
contains-without_self x [] = refl
contains-without_self x (y ∷ ys) = let ih = contains-without_self x ys in ground arith

pub contains-without :
    (x id : ℕ) (xs : List ℕ) → x ≢ id → contains x (without id xs) ≡ contains x xs
unfolding without
contains-without x id [] n = refl
contains-without x id (y ∷ ys) n =
    let ih = contains-without x id ys n in
    let other = ==_ne x id n in
    elim (ℕ_discrete y id) [
      | yes e ↦
          let other' : (x == y) ≡ false = ==_ne x y (λ h. n (h ∙ e)) in
          ap (contains x) (if_true _ _ (ap (λ k. k == id) e ∙ ==_refl id)) ∙ ground arith
      | no ne ↦ ap (contains x) (if_false _ _ (==_ne y id ne)) ∙ ground arith
    ]

pub contains-without_rest :
    (x id : ℕ) (xs : List ℕ) → contains x (without id xs) ≡ true → contains x xs ≡ true
contains-without_rest x id xs h = elim (ℕ_discrete x id) [
  | yes e ↦ absurd (cc (h, ap (λ k. contains k (without id xs)) e, contains-without_self id xs))
  | no n ↦ sym (contains-without x id xs n) ∙ h
]

pub contains-insert_self : (x : ℕ) (xs : List ℕ) → contains x (insert x xs) ≡ true
contains-insert_self x xs = elim (Bool-cases (contains x xs)) [
  | inl t ↦ ap (contains x) (if_true _ _ t) ∙ t
  | inr f ↦ ap (contains x) (if_false _ _ f) ∙ ap (λ b. b || contains x xs) (==_refl x)
]

pub contains-insert_more :
    (x id : ℕ) (xs : List ℕ) → contains x xs ≡ true → contains x (insert id xs) ≡ true
contains-insert_more x id xs h = elim (Bool-cases (contains id xs)) [
  | inl t ↦ ap (contains x) (if_true _ _ t) ∙ h
  | inr f ↦ ap (contains x) (if_false _ _ f) ∙ ground arith
]
