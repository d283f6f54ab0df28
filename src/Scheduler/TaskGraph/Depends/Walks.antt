-- ===== src/Scheduler/TaskGraph/Depends/Walks.antt =====
-- `depends_on a b` says whether a walk leads from b to a.
use mathlib.Core.HLevel.{⊥_prop}
use mathlib.Core.Logic.{∥∥₁_elim}
use scicompute.Base.{
  ℕ, zero, suc, ◌+◌, ◌<◌, ◌≡◌, ◌≢◌, Bool, true, false, ◌||◌, refl, sym, ap, subst, ◌∙◌, some, none,
  List, [], ◌∷◌, ◌++◌, length, arith, ◌==◌, if_true, if_false, ==_iff, ℕ_discrete, Bool-cases,
  Option-cases, inl, inr, ◌↔◌,
}
use scicompute.Base.Sets.{count, contains, contains-append}
use scicompute.Base.Assoc.{find}
use scicompute.Scheduler.TaskGraph.{
  TaskGraph, listed, or_empty, get_dependencies, get_dependents, Reach,
}
use scicompute.Scheduler.TaskGraph.Edges.{edges_mirror}
use scicompute.Scheduler.TaskGraph.Search.Walks.{Walk, edge, further}
use scicompute.Scheduler.TaskGraph.Depends.Fuel.{depends_on_returns}
use scicompute.Scheduler.TaskGraph.Depends.{scan_queue, all_lengths, from_found, depends_on}

-- `a` needs an id: directly, or through others.
data Needs (g : TaskGraph) (a : ℕ) : ℕ → Type 0 where
  direct : {b : ℕ} → contains b (listed a g.rev_edges) ≡ true → Needs g a b
  through : {b c : ℕ} → Needs g a b → contains c (listed b g.rev_edges) ≡ true → Needs g a c

module _ (g : TaskGraph) (a b : ℕ) where
  scan_queue-Needs :
      (fuel : ℕ) (V q : List ℕ)
      → ((x : ℕ) → contains x q ≡ true → Needs g a x)
      → scan_queue g b fuel V q ≡ some true
      → Needs g a b
  unfolding scan_queue
  scan_queue-Needs zero V q h e = cc
  scan_queue-Needs (suc fuel) V [] h e = cc
  scan_queue-Needs (suc fuel) V (c ∷ q) h e = elim (Bool-cases (c == b)) [
    | inl hit ↦ subst (Needs g a) ((==_iff c b).0 hit) (h c (ground arith))
    | inr miss ↦ elim (Bool-cases (contains c V)) [
      | inl old ↦
          scan_queue-Needs fuel V q (λ x k. h x (ground arith))
            (sym (if_true _ _ old) ∙ sym (if_false _ _ miss) ∙ e)
      | inr new ↦
          scan_queue-Needs fuel (c ∷ V) (q ++ listed c g.rev_edges)
            (λ x k. elim (Bool-cases (contains x q)) [
              | inl there ↦ h x (ground arith)
              | inr absent ↦
                  let both = contains-append x q (listed c g.rev_edges) in
                  through (h c (ground arith)) (ground arith)
            ])
            (sym (if_false _ _ new) ∙ sym (if_false _ _ miss) ∙ e)
    ]
  ]

  -- What the search has seen or still holds includes all that it must come to.
  record Covering (V q : List ℕ) : Type 0 where
    first :
        (x : ℕ) → contains x (listed a g.rev_edges) ≡ true → (contains x V || contains x q) ≡ true
    next :
        (x y : ℕ)
        → contains x V ≡ true
        → contains y (listed x g.rev_edges) ≡ true
        → (contains y V || contains y q) ≡ true
    missing : contains b V ≡ false

  Covering-skip : (c : ℕ) (V q : List ℕ) → Covering V (c ∷ q) → contains c V ≡ true → Covering V q
  Covering-skip c V q h old = record {
    first = λ x k. elim (ℕ_discrete x c) [
      | yes same ↦ let now = ap (λ i. contains i V) same in ground arith
      | no other ↦ let o = h.first x k in ground arith
    ];
    next = λ x y k l. elim (ℕ_discrete y c) [
      | yes same ↦ let now = ap (λ i. contains i V) same in ground arith
      | no other ↦ let o = h.next x y k l in ground arith
    ];
    missing = h.missing;
  }

  Covering-expand :
      (c : ℕ) (V q : List ℕ)
      → Covering V (c ∷ q)
      → c ≢ b
      → Covering (c ∷ V) (q ++ listed c g.rev_edges)
  Covering-expand c V q h miss = record {
    first = λ x k.
        let o = h.first x k in
        let both = contains-append x q (listed c g.rev_edges) in ground arith;
    next = λ x y k l.
        let both = contains-append y q (listed c g.rev_edges) in
        elim (ℕ_discrete x c) [
          | yes same ↦ let now = ap (λ i. contains y (listed i g.rev_edges)) same in ground arith
          | no other ↦ let o = h.next x y (ground arith) l in ground arith
        ];
    missing = let o = h.missing in ground arith;
  }

  scan_queue-covers :
      (fuel : ℕ) (V q : List ℕ)
      → Covering V q
      → scan_queue g b fuel V q ≡ some false
      → (W : List ℕ) × Covering W []
  unfolding scan_queue
  scan_queue-covers zero V q h e = cc
  scan_queue-covers (suc fuel) V [] h e = (V, h)
  scan_queue-covers (suc fuel) V (c ∷ q) h e = elim (Bool-cases (c == b)) [
    | inl hit ↦ elim (wrong (sym (if_true _ _ hit) ∙ e)) [ ]
    | inr miss ↦ elim (Bool-cases (contains c V)) [
      | inl old ↦
          scan_queue-covers fuel V q (Covering-skip c V q h old)
            (sym (if_true _ _ old) ∙ sym (if_false _ _ miss) ∙ e)
      | inr new ↦
          scan_queue-covers fuel (c ∷ V) (q ++ listed c g.rev_edges)
            (Covering-expand c V q h (ground arith))
            (sym (if_false _ _ new) ∙ sym (if_false _ _ miss) ∙ e)
    ]
  ]
    where
      wrong : some true ≡ some false → ⊥
      wrong h = cc

  covered : (W : List ℕ) (x : ℕ) → Covering W [] → Needs g a x → contains x W ≡ true
  covered W x h (direct k) = let o = h.first x k in ground arith
  covered W x h (through {b = y} n k) = let o = h.next y x (covered W y h n) k in ground arith

contains-count : (x : ℕ) (xs : List ℕ) → (contains x xs ≡ true) ↔ (0 < count x xs)
unfolding count
contains-count x [] = (λ h. cc, λ h. elim h [ ])
contains-count x (y ∷ xs) = let ih = contains-count x xs in (λ h. ground arith, λ h. ground arith)

-- An edge is seen from both of its ends.
edge_seen :
    (checked : Bool) (g : TaskGraph)
    → Reach checked g
    → (x y : ℕ)
    → (contains y (get_dependents x g) ≡ true) ↔ (contains x (get_dependencies y g) ≡ true)
edge_seen checked g r x y =
    let same = edges_mirror checked g r x y in
    let out = contains-count y (get_dependents x g) in
    let back = contains-count x (get_dependencies y g) in
    (λ h. back.1 (omega (arith, out.0 h)), λ h. out.1 (omega (arith, back.0 h)))

Walk-before :
    (g : TaskGraph) (x y z : ℕ) → contains y (get_dependents x g) ≡ true → Walk g y z → Walk g x z
Walk-before g x y z h (edge k) = further (edge h) k
Walk-before g x y z h (further {b = v} w k) = further (Walk-before g x y v h w) k

Needs-before :
    (g : TaskGraph) (x y z : ℕ)
    → contains y (listed x g.rev_edges) ≡ true
    → Needs g y z
    → Needs g x z
Needs-before g x y z h (direct k) = through (direct h) k
Needs-before g x y z h (through {b = v} n k) = through (Needs-before g x y v h n) k

module _ (checked : Bool) (g : TaskGraph) (r : Reach checked g) where
  Walk-Needs : (a b : ℕ) → Needs g a b → Walk g b a
  unfolding get_dependencies
  Walk-Needs a b (direct h) = edge ((edge_seen checked g r b a).1 h)
  Walk-Needs a b (through {b = c} n h) =
      Walk-before g b c a ((edge_seen checked g r b c).1 h) (Walk-Needs a c n)

  Needs-Walk : (b a : ℕ) → Walk g b a → Needs g a b
  unfolding get_dependencies
  Needs-Walk b a (edge h) = direct ((edge_seen checked g r b a).0 h)
  Needs-Walk b a (further {b = c} w h) =
      Needs-before g a c b ((edge_seen checked g r c a).0 h) (Needs-Walk b c w)

-- In every graph that a client can build, an answer `true` of `depends_on a b` comes with a walk
-- from b to a.
pub depends_on-Walk :
    (checked : Bool) (g : TaskGraph) (a b : ℕ)
    → Reach checked g
    → depends_on a b g ≡ some true
    → Walk g b a
unfolding depends_on listed
depends_on-Walk checked g a b r e = elim (Option-cases (find a g.rev_edges)) [
  | inl absent ↦ elim (wrong (sym (ap (from_found g b) absent) ∙ e)) [ ]
  | inr (deps, found) ↦ Walk-Needs checked g r a b (
      scan_queue-Needs g a b (length deps + all_lengths g.rev_edges + 1) [] deps
        (λ x k. direct (ap (λ o. contains x (or_empty o)) found ∙ k))
        (sym (ap (from_found g b) found) ∙ e))
]
  where
    wrong : some false ≡ some true → ⊥
    wrong h = cc

-- In every graph that a client can build, there is no walk from b to a when `depends_on a b` answers
-- `false`.
pub unrelated_if_independent :
    (checked : Bool) (g : TaskGraph) (a b : ℕ)
    → Reach checked g
    → depends_on a b g ≡ some false
    → ¬ Walk g b a
unfolding depends_on listed
unrelated_if_independent checked g a b r e w = elim (Option-cases (find a g.rev_edges)) [
  | inl absent ↦ cc (none_listed absent b (Needs-Walk checked g r b a w))
  | inr (deps, found) ↦
      let start : Covering g a b [] deps = record {
        first = λ x k. sym (ap (λ o. contains x (or_empty o)) found) ∙ k;
        next = λ x y k l. cc;
        missing = refl;
      } in
      let (W, c) =
        scan_queue-covers g a b (length deps + all_lengths g.rev_edges + 1) [] deps start
          (sym (ap (from_found g b) found) ∙ e) in
      cc (covered g a b W b c (Needs-Walk checked g r b a w), c.missing)
]
  where
    none_listed : find a g.rev_edges ≡ none → (x : ℕ) → Needs g a x → true ≡ false
    none_listed absent x (direct h) = sym h ∙ ap (λ o. contains x (or_empty o)) absent
    none_listed absent x (through {b = y} n h) = none_listed absent y n

-- In every graph that a client can build, `depends_on a b` returns, and answers `true` exactly when a
-- walk leads from b to a.
pub depends_on_decides :
    (checked : Bool) (g : TaskGraph) (a b : ℕ)
    → Reach checked g
    → (r : Bool) × (depends_on a b g ≡ some r) × ((r ≡ true) ↔ ∥ Walk g b a ∥₁)
depends_on_decides checked g a b r =
    let (answer, e) = depends_on_returns a b g in
    (
      answer,
      e,
      (
        λ t. ∣ depends_on-Walk checked g a b r (e ∙ ap some t) ∣₁,
        λ w. elim (Bool-cases answer) [
          | inl t ↦ t
          | inr f ↦
              absurd (∥∥₁_elim w ⊥_prop (unrelated_if_independent checked g a b r (e ∙ ap some f)))
        ],
      ),
    )
