-- ===== src/Scheduler/GraphExecutor/Stores.antt =====
-- What `GraphExecutor` finds of a task after a store to a status, and which tasks are ready.
use scicompute.Base.{
  ℕ, suc, ◌≡◌, ◌≢◌, inl, inr, refl, sym, ap, subst, ◌∙◌, true, ◌&&◌, ◌||◌, some, List, [], ◌∷◌,
  ◌==◌, length, ℕ_discrete, ==_refl, ==_ne, if_true, if_false, some_inj, Bool-cases, arith,
}
use scicompute.Base.Sets.{contains}
use scicompute.Base.Assoc.{find, find-hit, find-miss}
use scicompute.Scheduler.TaskGraph.{Status, Task, TaskGraph, get_task, get_dependencies}
use scicompute.Scheduler.GraphExecutor.{
  is_pending, dep_complete, all_deps_complete, ready_among, set_status,
}

pub find-set_status_other :
    (x id : ℕ) (status : Status) (ps : List (ℕ × Task))
    → x ≢ id
    → find x (set_status id status ps) ≡ find x ps
unfolding set_status find
find-set_status_other x id status [] n = refl
find-set_status_other x id status (p ∷ ps) n =
    let ih = find-set_status_other x id status ps n in
    elim (ℕ_discrete p.0 id) [
      | yes here ↦
          let miss : x ≢ p.0 = λ h. n (h ∙ here) in
          ap (find x) (if_true _ _ (ap (λ k. k == id) here ∙ ==_refl id))
          ∙ find-miss x (p.0, record p.1 { status = status }) (set_status id status ps) miss
          ∙ ih
          ∙ sym (find-miss x p ps miss)
      | no other ↦ ap (find x) (if_false _ _ (==_ne p.0 id other)) ∙ elim (ℕ_discrete x p.0) [
        | yes hit ↦ find-hit x p (set_status id status ps) hit ∙ sym (find-hit x p ps hit)
        | no miss ↦ find-miss x p (set_status id status ps) miss ∙ ih ∙ sym (find-miss x p ps miss)
      ]
    ]

pub find-set_status_same :
    (id : ℕ) (status : Status) (ps : List (ℕ × Task)) (t : Task)
    → find id ps ≡ some t
    → find id (set_status id status ps) ≡ some (record t { status = status })
unfolding set_status find
find-set_status_same id status [] t e = cc
find-set_status_same id status (p ∷ ps) t e = elim (ℕ_discrete p.0 id) [
  | yes here ↦
      let it : p.1 ≡ t = some_inj (sym (find-hit id p ps (sym here)) ∙ e) in
      ap (find id) (if_true _ _ (ap (λ k. k == id) here ∙ ==_refl id))
      ∙ find-hit id (p.0, record p.1 { status = status }) (set_status id status ps) (sym here)
      ∙ ap (λ (r : Task). some (record r { status = status })) it
  | no other ↦
      let miss : id ≢ p.0 = λ h. other (sym h) in
      ap (find id) (if_false _ _ (==_ne p.0 id other))
      ∙ find-miss id p (set_status id status ps) miss
      ∙ find-set_status_same id status ps t (sym (find-miss id p ps miss) ∙ e)
]

pub length-set_status :
    (id : ℕ) (status : Status) (ps : List (ℕ × Task)) → length (set_status id status ps) ≡ length ps
unfolding set_status
length-set_status id status [] = refl
length-set_status id status (p ∷ ps) =
    let ih = length-set_status id status ps in
    elim (Bool-cases (p.0 == id)) [
      | inl t ↦ ap length (if_true _ _ t) ∙ ap suc ih
      | inr f ↦ ap length (if_false _ _ f) ∙ ap suc ih
    ]

-- A pending task whose dependencies are complete is ready.
pub ready_among-contains :
    (g : TaskGraph) (id : ℕ) (t : Task) (ps : List (ℕ × Task))
    → find id ps ≡ some t
    → is_pending t.status ≡ true
    → all_deps_complete g (get_dependencies id g) ≡ true
    → contains id (ready_among g ps) ≡ true
unfolding ready_among find
ready_among-contains g id t [] e p a = cc
ready_among-contains g id t (q ∷ ps) e p a = elim (ℕ_discrete id q.0) [
  | yes hit ↦
      let it : q.1 ≡ t = some_inj (sym (find-hit id q ps hit) ∙ e) in
      let waits : is_pending q.1.status ≡ true = ap (λ (r : Task). is_pending r.status) it ∙ p in
      let deps : all_deps_complete g (get_dependencies q.0 g) ≡ true =
        subst (λ (k : ℕ). all_deps_complete g (get_dependencies k g) ≡ true) hit a in
      let both : (is_pending q.1.status && all_deps_complete g (get_dependencies q.0 g)) ≡ true =
        cc (waits, deps) in
      ap (contains id) (if_true _ _ both)
      ∙ ap (λ b. b || contains id (ready_among g ps)) (ap (λ k. id == k) (sym hit) ∙ ==_refl id)
  | no miss ↦
      let rest = ready_among-contains g id t ps (sym (find-miss id q ps miss) ∙ e) p a in
      elim (Bool-cases (is_pending q.1.status && all_deps_complete g (get_dependencies q.0 g))) [
        | inl ready ↦ ap (contains id) (if_true _ _ ready) ∙ ground arith
        | inr waits ↦ ap (contains id) (if_false _ _ waits) ∙ rest
      ]
]

pub all_deps_complete_if :
    (g : TaskGraph) (deps : List ℕ)
    → ((d : ℕ) → contains d deps ≡ true → dep_complete (get_task d g) ≡ true)
    → all_deps_complete g deps ≡ true
unfolding all_deps_complete
all_deps_complete_if g [] h = refl
all_deps_complete_if g (x ∷ xs) h =
    let here = h x (ap (λ b. b || contains x xs) (==_refl x)) in
    let rest = all_deps_complete_if g xs (λ d k. h d (ground arith)) in cc (here, rest)
