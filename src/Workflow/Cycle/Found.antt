-- ===== src/Workflow/Cycle/Found.antt =====
-- What a search that reports a cycle has found.
use duraclaw.Shared.{
  ℕ, zero, suc, ◌≡◌, refl, sym, subst, ◌∙◌, inl, inr, not, List, [], ◌∷◌, String, str_eq,
  str_eq_iff, arith, true, contains→In, In, In-of_keep, All, All-of_In,
}
use duraclaw.Workflow.Graph.{
  Graph, Arrow, Reaches, here, onward, Loops, loop, successors, Arrow-of_successor,
}
use duraclaw.Workflow.Cycle.{
  Visited, Visit, out_of_fuel, cyclic, clear, enter, leave, visit_each, after_children, visit,
  has_cycle,
}
use duraclaw.Workflow.Cycle.Steps.{
  clear-injective, visit_each-cons, after_children-clear, meets_open, meets_done, descends,
  visit-VisitCase,
}

-- No key stays open after its visit.
abbrev Shrinks : Visited → Visited → Type 0
Shrinks v w = (x : String) → In x w.opened → In x v.opened

visit_each-Shrinks :
    (step : Visited → String → Visit)
    → ((v w : Visited) (k : String) → step v k ≡ clear w → Shrinks v w)
    → (ks : List String) (v w : Visited) → visit_each step v ks ≡ clear w
    → Shrinks v w
unfolding visit_each
visit_each-Shrinks step one [] v w e = subst (Shrinks v) (clear-injective e) (λ x m. m)
visit_each-Shrinks step one (k ∷ ks) v w e =
    let (u, q, r) = visit_each-cons step v k ks w e in
    λ x m. one v u k q x (visit_each-Shrinks step one ks u w r x m)

leave-Shrinks : (k : String) (v u : Visited) → Shrinks (enter k v) u → Shrinks v (leave k u)
leave-Shrinks k v u s x m =
    let (i, t) = In-of_keep x (λ y. not (str_eq y k)) u.opened m in other t (s x i)
  where
    other : not (str_eq x k) ≡ true → In x (k ∷ v.opened) → In x v.opened
    other t (inl q) = absurd (ground (arith, str_eq_iff x k))
    other t (inr i) = i

visit-Shrinks :
    (fuel : ℕ) (g : Graph) (v w : Visited) (k : String) → visit fuel g v k ≡ clear w → Shrinks v w
unfolding visit
visit-Shrinks zero g v w k e = absurd (cc)
visit-Shrinks (suc fuel) g v w k e = elim (visit-VisitCase fuel g v k) [
  | meets_open o q ↦ cc q
  | meets_done o d q ↦ subst (Shrinks v) (clear-injective (sym q ∙ e)) (λ x m. m)
  | descends o d q ↦
      left
        (visit_each-Shrinks (visit fuel g) (λ v w k. visit-Shrinks fuel g v w k) (successors g k)
          (enter k v))
        (after_children-clear k _ w (sym q ∙ e))
]
  where
    left :
        ((u : Visited)
          → visit_each (visit fuel g) (enter k v) (successors g k) ≡ clear u
          → Shrinks (enter k v) u)
        → (u : Visited) × (visit_each (visit fuel g) (enter k v) (successors g k) ≡ clear u)
          × (w ≡ leave k u)
        → Shrinks v w
    left all (u, q, l) = subst (Shrinks v) (sym l) (leave-Shrinks k v u (all u q))

-- A way along one arrow or more.
pub record Onward (g : Graph) (x k : String) : Type 0 where
  mid : String
  first : Arrow g x mid
  rest : Reaches g mid k

extend : {g : Graph} {x k s : String} → Onward g x k → Arrow g k s → Onward g x s
extend o a = record { mid = o.mid; first = o.first; rest = onward o.rest a }

abbrev Cycle : Graph → Type 0
Cycle g = (k : String) × Loops g k

-- Every open key leads to the key that is visited.
abbrev Trail : Graph → Visited → String → Type 0
Trail g v k = (x : String) → In x v.opened → Onward g x k

Trail-mono :
    (g : Graph) (v u : Visited) (ks : List String)
    → Shrinks v u
    → All (Trail g v) ks
    → All (Trail g u) ks
Trail-mono g v u [] h t = tt
Trail-mono g v u (k ∷ ks) h t = (λ x m. t.0 x (h x m), Trail-mono g v u ks h t.1)

-- A loop over children, each of which the open keys lead to.
visit_each-cyclic :
    (g : Graph) (step : Visited → String → Visit)
    → ((v w : Visited) (s : String) → step v s ≡ clear w → Shrinks v w)
    → ((v : Visited) (s : String) → Trail g v s → step v s ≡ cyclic → Cycle g)
    → (ks : List String) (v : Visited) → All (Trail g v) ks
    → visit_each step v ks ≡ cyclic
    → Cycle g
unfolding visit_each
visit_each-cyclic g step shrinks found [] v t e = absurd (cc)
visit_each-cyclic g step shrinks found (s ∷ ks) v t e =
    go (λ u. visit_each-cyclic g step shrinks found ks u) (step v s) refl
  where
    go :
        ((u : Visited) → All (Trail g u) ks → visit_each step u ks ≡ cyclic → Cycle g)
        → (r : Visit) → step v s ≡ r
        → Cycle g
    go later out_of_fuel q = absurd (ground arith)
    go later cyclic q = found v s t.0 q
    go later (clear u) q =
        later u (Trail-mono g v u ks (shrinks v u s q) t.1) (rw (q, visit_each) at e)

after_children-cyclic : (k : String) (r : Visit) → after_children k r ≡ cyclic → r ≡ cyclic
unfolding after_children
after_children-cyclic k out_of_fuel e = absurd (cc)
after_children-cyclic k cyclic e = refl
after_children-cyclic k (clear u) e = absurd (cc)

Trail-enter :
    (g : Graph) (v : Visited) (k s : String) → Trail g v k → Arrow g k s → Trail g (enter k v) s
Trail-enter g v k s t a x (inl q) =
    subst (λ y. Onward g y s) (sym q) (record { mid = s; first = a; rest = here })
Trail-enter g v k s t a x (inr m) = extend (t x m) a

Onward-Loops : {g : Graph} {k : String} → Onward g k k → Loops g k
Onward-Loops o = loop o.mid o.first o.rest

visit-cyclic :
    (fuel : ℕ) (g : Graph) (v : Visited) (k : String)
    → Trail g v k
    → visit fuel g v k ≡ cyclic
    → Cycle g
unfolding visit
visit-cyclic zero g v k t e = absurd (cc)
visit-cyclic (suc fuel) g v k t e = elim (visit-VisitCase fuel g v k) [
  | meets_open o q ↦ (k, Onward-Loops (t k (contains→In v.opened k o)))
  | meets_done o d q ↦ absurd (ground arith)
  | descends o d q ↦
      visit_each-cyclic g (visit fuel g) (visit-Shrinks fuel g) (visit-cyclic fuel g)
        (successors g k) (enter k v)
        (All-of_In _ (successors g k) (λ s m. Trail-enter g v k s t (Arrow-of_successor g k s m)))
        (after_children-cyclic k _ (sym q ∙ e))
]

-- Where `hasCycle` reports a cycle, with any fuel, some key lies on one.
pub has_cycle-cyclic :
    (fuel : ℕ) (g : Graph) (keys : List String)
    → has_cycle fuel g keys ≡ cyclic
    → (k : String) × Loops g k
unfolding has_cycle
has_cycle-cyclic fuel g keys e =
    visit_each-cyclic g (visit fuel g) (visit-Shrinks fuel g) (visit-cyclic fuel g) keys _
      (All-of_In _ keys (λ s m x i. absurd i)) e
