-- ===== src/Scheduler/TaskGraph/Search/Order.antt =====
-- A depth-first search that succeeds leaves the ids that it finished in order, each before the ids
-- that follow it in the graph.
use mathlib.Core.List.{reverse, reverse-append}
use scicompute.Base.{
  ℕ, zero, suc, ◌≡◌, ◌≢◌, Bool, true, false, ◌||◌, refl, sym, ap, subst, ◌∙◌, Option, some, List,
  [], ◌∷◌, arith, if_true, if_false, ==_refl, ==_ne, ℕ_discrete, Bool-cases, inl, inr, some_inj,
}
use scicompute.Base.Sets.{contains, Within}
use scicompute.Base.Assoc.{keys}
use scicompute.Base.Fallible.{>>=-eq-some}
use scicompute.Scheduler.TaskGraph.{Task, TaskGraph, listed, without}
use scicompute.Scheduler.TaskGraph.Search.{Search, each, enter, leave, dfs, all_tasks, push_back}

abbrev pub finished : Search (List ℕ) → List ℕ
finished s = reverse s.result

abbrev pub outcome : Bool → Search (List ℕ) → Option (Bool × Search (List ℕ))
outcome b s = some (b, s)

pub succeeded : (r : Bool × Search (List ℕ)) → r.0 ≡ true → some r ≡ outcome true r.1
succeeded r ok = ap (λ b. outcome b r.1) ok

module _ (g : TaskGraph) where
  -- The finished ids, the last one first, are in order: what follows an id comes after it, and no id
  -- comes twice.
  abbrev pub IsOrdered : List ℕ → Type 0
  IsOrdered [] = Unit
  IsOrdered (x ∷ xs) = Within (listed x g.edges) xs × (contains x xs ≡ false) × IsOrdered xs

-- `P` holds of the ids that the search can come to.
module _ (g : TaskGraph) (P : ℕ → Type 0)
    (closed : (x y : ℕ) → P x → contains y (listed x g.edges) ≡ true → P y) where
  pub record Inv (s : Search (List ℕ)) : Type 0 where
    pub split : (x : ℕ) → contains x s.visited ≡ (contains x s.in_stack || contains x (finished s))
    pub apart : (x : ℕ) → contains x s.in_stack ≡ true → contains x (finished s) ≡ false
    pub order : IsOrdered g (finished s)
    pub within : (x : ℕ) → contains x s.visited ≡ true → P x

  -- What a call at `id` that succeeds has done.
  pub record Done (ids : List ℕ) (s t : Search (List ℕ)) : Type 0 where
    pub inv : Inv t
    pub stack : t.in_stack ≡ s.in_stack
    pub kept : Within (finished s) (finished t)
    pub all : Within ids (finished t)

  abbrev Finishing : (ℕ → Search (List ℕ) → Option (Bool × Search (List ℕ))) → Type 0
  Finishing f =
      (id : ℕ) (s t : Search (List ℕ)) → P id → Inv s → f id s ≡ some (true, t) → Done (id ∷ []) s t

  each_finishes :
      (f : ℕ → Search (List ℕ) → Option (Bool × Search (List ℕ))) (ds : List ℕ)
      (s t : Search (List ℕ))
      → Finishing f
      → ((x : ℕ) → contains x ds ≡ true → P x)
      → Inv s
      → each f ds s ≡ some (true, t)
      → Done ds s t
  unfolding each
  each_finishes f [] s t fin ps v e =
      let same : s ≡ t = ap (λ r. r.1) (some_inj e) in
      subst (λ u. Done [] s u) same
        (record { inv = v; stack = refl; kept = λ x h. h; all = λ x h. cc })
  each_finishes f (d ∷ ds) s t fin ps v e =
      let (r, e1, e2) = >>=-eq-some (f d s) _ e in
      elim (Bool-cases r.0) [
        | inr bad ↦ elim (wrong r (sym (if_false _ _ bad) ∙ e2)) [ ]
        | inl ok ↦
            let one = fin d s r.1 (ps d (ground arith)) v (e1 ∙ succeeded r ok) in
            let rest =
              each_finishes f ds r.1 t fin (λ x h. ps x (ground arith)) one.inv
                (sym (if_true _ _ ok) ∙ e2) in
            record {
              inv = rest.inv;
              stack = rest.stack ∙ one.stack;
              kept = λ x h. rest.kept x (one.kept x h);
              all = λ x h.
                  let head = rest.kept x in
                  let tail = rest.all x in let first = one.all x in ground arith;
            }
      ]
    where
      wrong : (r : Bool × Search (List ℕ)) → outcome false r.1 ≡ outcome true t → ⊥
      wrong r h = cc

  without-absent : (id : ℕ) (xs : List ℕ) → contains id xs ≡ false → without id xs ≡ xs
  unfolding without
  without-absent id [] e = refl
  without-absent id (x ∷ xs) e = elim (ℕ_discrete x id) [
    | yes same ↦ absurd (cc (clash same))
    | no apart ↦ if_false _ _ (==_ne x id apart) ∙ ap (◌∷◌ x) (without-absent id xs (ground arith))
  ]
    where
      clash : x ≡ id → true ≡ false
      clash same = ground arith

  without-enter : (id : ℕ) (xs : List ℕ) → contains id xs ≡ false → without id (id ∷ xs) ≡ xs
  unfolding without
  without-enter id xs e = if_true _ _ (==_refl id) ∙ without-absent id xs e

  -- The search state after `dfs` has left `id`.
  abbrev left_at : ℕ → Search (List ℕ) → Search (List ℕ)
  left_at id s = record s { in_stack = without id s.in_stack; result = push_back s.result id }

  leave-true :
      (id : ℕ) (r : Bool × Search (List ℕ)) (t : Search (List ℕ))
      → some (leave push_back id r) ≡ some (true, t)
      → (r.0 ≡ true) × (left_at id r.1 ≡ t)
  leave-true id (true, s) t e = (refl, ap (λ r. r.1) (some_inj e))
  leave-true id (false, s) t e = cc

  pub Inv-enter :
      (id : ℕ) (s : Search (List ℕ))
      → P id
      → Inv s
      → contains id s.in_stack ≡ false
      → contains id s.visited ≡ false
      → Inv (enter id s)
  Inv-enter id s pid v off new = record {
    split = λ x. let old = v.split x in ground arith;
    apart = λ x h. elim (ℕ_discrete x id) [
      | yes same ↦
          let here = v.split id in
          let absent : contains id (finished s) ≡ false = ground arith in
          ap (λ i. contains i (finished s)) same ∙ absent
      | no other ↦ v.apart x (ground arith)
    ];
    order = v.order;
    within = λ x h. elim (ℕ_discrete x id) [
      | yes same ↦ subst P (sym same) pid
      | no other ↦ v.within x (ground arith)
    ];
  }

  finished-left_at : (id : ℕ) (s : Search (List ℕ)) → finished (left_at id s) ≡ id ∷ finished s
  finished-left_at id s = reverse-append s.result (id ∷ [])

  Inv-leave :
      (id : ℕ) (K : List ℕ) (s : Search (List ℕ))
      → Inv s
      → s.in_stack ≡ id ∷ K
      → contains id K ≡ false
      → Within (listed id g.edges) (finished s)
      → Inv (left_at id s)
  Inv-leave id K s v stack off deps =
      let now = finished-left_at id s in
      let rest : without id s.in_stack ≡ K = ap (without id) stack ∙ without-enter id K off in
      let on = λ (x : ℕ). ap (contains x) stack in
      let mine : contains id (finished s) ≡ false = v.apart id (on id ∙ ground arith) in
      record {
        split = λ x.
            let old = v.split x in
            let a = on x in
            let b = ap (contains x) rest in let c = ap (contains x) now in ground arith;
        apart = λ x h.
            let a = on x in
            let c = ap (contains x) now in
            let b = ap (contains x) rest in
            elim (ℕ_discrete x id) [
              | yes same ↦ absurd (cc (off, h, ap (λ i. contains i K) same))
              | no other ↦ let old = v.apart x (ground arith) in c ∙ ground arith
            ];
        order = subst (IsOrdered g) (sym now) (deps, mine, v.order);
        within = v.within;
      }

  pub dfs_finishes : (fuel : ℕ) → Finishing (dfs push_back g fuel)
  unfolding dfs
  dfs_finishes zero id s t pid v e = cc
  dfs_finishes (suc fuel) id s t pid v e = elim (Bool-cases (contains id s.in_stack)) [
    | inl on ↦ elim (wrong (sym (if_true _ _ on) ∙ e)) [ ]
    | inr off ↦ elim (Bool-cases (contains id s.visited)) [
      | inl old ↦
          let same : s ≡ t =
            ap (λ r. r.1) (some_inj (sym (if_true _ _ old) ∙ sym (if_false _ _ off) ∙ e)) in
          let here = v.split id in
          subst (λ u. Done (id ∷ []) s u) same
            (record {
              inv = v;
              stack = refl;
              kept = λ x h. h;
              all = λ x h. elim (ℕ_discrete x id) [
                | yes is ↦ ap (λ i. contains i (finished s)) is ∙ ground arith
                | no other ↦ absurd (cc (h, only x other))
              ];
            })
      | inr new ↦
          let (r, e1, e2) =
            >>=-eq-some (each (dfs push_back g fuel) (listed id g.edges) (enter id s)) _
              (sym (if_false _ _ new) ∙ sym (if_false _ _ off) ∙ e) in
          let (ok, same) = leave-true id r t e2 in
          let inner =
            each_finishes (dfs push_back g fuel) (listed id g.edges) (enter id s) r.1
              (dfs_finishes fuel) (λ x h. closed id x pid h) (Inv-enter id s pid v off new)
              (e1 ∙ succeeded r ok) in
          let now = finished-left_at id r.1 in
          subst (λ u. Done (id ∷ []) s u) same
            (record {
              inv = Inv-leave id s.in_stack r.1 inner.inv inner.stack off inner.all;
              stack = ap (without id) inner.stack ∙ without-enter id s.in_stack off;
              kept =
                  λ x h. let k = inner.kept x h in let c = ap (contains x) now in c ∙ ground arith;
              all = λ x h. let c = ap (contains x) now in c ∙ ground arith;
            })
    ]
  ]
    where
      wrong : outcome false s ≡ outcome true t → ⊥
      wrong h = cc

      only : (x : ℕ) → x ≢ id → contains x (id ∷ []) ≡ false
      only x n = ground arith

  pub all_tasks_finishes :
      (fuel : ℕ) (ps : List (ℕ × Task)) (s t : Search (List ℕ))
      → ((x : ℕ) → contains x (keys ps) ≡ true → P x)
      → Inv s
      → s.in_stack ≡ []
      → all_tasks push_back g fuel ps s ≡ outcome true t
      → Inv t × Within (finished s) (finished t) × Within (keys ps) (finished t)
  unfolding all_tasks
  all_tasks_finishes fuel [] s t ks v empty e =
      let same : s ≡ t = ap (λ r. r.1) (some_inj e) in
      (subst Inv same v, λ x h. ap (λ u. contains x (finished u)) (sym same) ∙ h, λ x h. cc)
  all_tasks_finishes fuel (p ∷ ps) s t ks v empty e = elim (Bool-cases (contains p.0 s.visited)) [
    | inl old ↦
        let (v', w, all) =
          all_tasks_finishes fuel ps s t (λ x h. ks x (ground arith)) v empty
            (sym (if_true _ _ old) ∙ e) in
        let here = v.split p.0 in
        let off = ap (contains p.0) empty in (v', w, both s t p ps w all (ground arith))
    | inr new ↦
        let (r, e1, e2) = >>=-eq-some (dfs push_back g fuel p.0 s) _ (sym (if_false _ _ new) ∙ e) in
        elim (Bool-cases r.0) [
          | inr bad ↦ elim (wrong r (sym (if_false _ _ bad) ∙ e2)) [ ]
          | inl ok ↦
              let one =
                dfs_finishes fuel p.0 s r.1 (ks p.0 (ground arith)) v (e1 ∙ succeeded r ok) in
              let (v', w, all) =
                all_tasks_finishes fuel ps r.1 t (λ x h. ks x (ground arith)) one.inv
                  (one.stack ∙ empty) (sym (if_true _ _ ok) ∙ e2) in
              let first = one.all p.0 (ground arith) in
              (v', λ x h. w x (one.kept x h), both r.1 t p ps w all first)
        ]
  ]
    where
      wrong : (r : Bool × Search (List ℕ)) → outcome false r.1 ≡ outcome true t → ⊥
      wrong r h = cc

      both :
          (s t : Search (List ℕ)) (p : ℕ × Task) (ps : List (ℕ × Task))
          → Within (finished s) (finished t)
          → Within (keys ps) (finished t)
          → contains p.0 (finished s) ≡ true
          → Within (keys (p ∷ ps)) (finished t)
      both s t p ps w all here x h = elim (ℕ_discrete x p.0) [
        | yes same ↦ ap (λ i. contains i (finished t)) same ∙ w p.0 here
        | no other ↦ all x (ground arith)
      ]
