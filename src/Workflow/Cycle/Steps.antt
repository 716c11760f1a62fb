-- ===== src/Workflow/Cycle/Steps.antt =====
-- One step of the search, taken apart.
use duraclaw.Shared.{
  ℕ, suc, ◌≡◌, refl, sym, inl, inr, true, false, List, ◌∷◌, String, contains, Bool-cases, arith,
}
use duraclaw.Workflow.Graph.{Graph, successors}
use duraclaw.Workflow.Cycle.{
  Visited, Visit, out_of_fuel, cyclic, clear, enter, leave, visit_each, after_children, visit,
}

pub clear-injective : {v w : Visited} → clear v ≡ clear w → v ≡ w
clear-injective e = cc

pub visit_each-cons :
    (step : Visited → String → Visit) (v : Visited) (k : String) (ks : List String) (w : Visited)
    → visit_each step v (k ∷ ks) ≡ clear w
    → (u : Visited) × (step v k ≡ clear u) × (visit_each step u ks ≡ clear w)
unfolding visit_each
visit_each-cons step v k ks w = go (step v k) refl
  where
    go :
        (r : Visit)
        → step v k ≡ r
        → visit_each step v (k ∷ ks) ≡ clear w
        → (u : Visited) × (step v k ≡ clear u) × (visit_each step u ks ≡ clear w)
    go out_of_fuel q e = absurd (ground arith)
    go cyclic q e = absurd (ground arith)
    go (clear u) q e = (u, q, rw (q, visit_each) at e)

pub after_children-clear :
    (k : String) (r : Visit) (w : Visited)
    → after_children k r ≡ clear w
    → (u : Visited) × (r ≡ clear u) × (w ≡ leave k u)
unfolding after_children
after_children-clear k out_of_fuel w e = absurd (cc)
after_children-clear k cyclic w e = absurd (cc)
after_children-clear k (clear u) w e = (u, refl, sym (clear-injective e))

-- The three ways that a visit with fuel goes.
pub data VisitCase (fuel : ℕ) (g : Graph) (v : Visited) (k : String) : Type 0 where
  meets_open : contains v.opened k ≡ true → visit (suc fuel) g v k ≡ cyclic → VisitCase fuel g v k
  meets_done :
      contains v.opened k ≡ false
      → contains v.done k ≡ true
      → visit (suc fuel) g v k ≡ clear v
      → VisitCase fuel g v k
  descends :
      contains v.opened k ≡ false
      → contains v.done k ≡ false
      → visit (suc fuel) g v k
        ≡ after_children k (visit_each (visit fuel g) (enter k v) (successors g k))
      → VisitCase fuel g v k

pub visit-VisitCase : (fuel : ℕ) (g : Graph) (v : Visited) (k : String) → VisitCase fuel g v k
unfolding visit
visit-VisitCase fuel g v k = elim (Bool-cases (contains v.opened k)) [
  | inl o ↦ meets_open o (rw o)
  | inr o ↦ elim (Bool-cases (contains v.done k)) [
    | inl d ↦ meets_done o d (rw (o, d))
    | inr d ↦ descends o d (rw (o, d))
  ]
]
