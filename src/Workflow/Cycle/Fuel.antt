-- ===== src/Workflow/Cycle/Fuel.antt =====
-- The fuel that `hasCycle` needs: more than the number of keys that can be visited.
use duraclaw.Shared.{
  ℕ, zero, suc, ◌<◌, ◌≡◌, ◌≢◌, refl, sym, subst, ◌∙◌, Bool, true, false, ◌||◌, not, List, [], ◌∷◌,
  String, str_eq, str_eq_iff, str_eq_self, contains, In, keep, All, All-of_In, length, arith,
}
use duraclaw.Workflow.Graph.{Graph, successors}
use duraclaw.Workflow.Unseen.{unseen, unseen_mono, unseen_drop, unseen-le-length}
use duraclaw.Workflow.Cycle.{
  Visited, Visit, out_of_fuel, cyclic, clear, enter, leave, visit_each, after_children, visit,
  has_cycle,
}
use duraclaw.Workflow.Cycle.Steps.{
  clear-injective, visit_each-cons, after_children-clear, meets_open, meets_done, descends,
  visit-VisitCase,
}

-- `visited[key] != 0`.
abbrev seen : Visited → String → Bool
seen v x = contains v.opened x || contains v.done x

-- What has been seen stays so.
abbrev Grows : Visited → Visited → Type 0
Grows v w = (x : String) → seen v x ≡ true → seen w x ≡ true

contains-keep_other :
    (k x : String) (xs : List String)
    → str_eq k x ≡ false
    → contains (keep (λ y. not (str_eq y k)) xs) x ≡ contains xs x
contains-keep_other k x [] f = refl
contains-keep_other k x (y ∷ ys) f =
    ground (arith, contains-keep_other k x ys f, str_eq_iff y k, str_eq_iff y x, str_eq_iff k x)

leave-Grows : (k : String) (v u : Visited) → Grows (enter k v) u → Grows v (leave k u)
leave-Grows k v u grows x s = ground (arith, contains-keep_other k x u.opened, grows x)

visit_each-Grows :
    (step : Visited → String → Visit)
    → ((v w : Visited) (k : String) → step v k ≡ clear w → Grows v w)
    → (ks : List String) (v w : Visited) → visit_each step v ks ≡ clear w
    → Grows v w
unfolding visit_each
visit_each-Grows step one [] v w e = subst (Grows v) (clear-injective e) (λ x m. m)
visit_each-Grows step one (k ∷ ks) v w e =
    let (u, q, r) = visit_each-cons step v k ks w e in
    λ x m. visit_each-Grows step one ks u w r x (one v u k q x m)

visit-Grows :
    (fuel : ℕ) (g : Graph) (v w : Visited) (k : String) → visit fuel g v k ≡ clear w → Grows v w
unfolding visit
visit-Grows zero g v w k e = absurd (cc)
visit-Grows (suc fuel) g v w k e = elim (visit-VisitCase fuel g v k) [
  | meets_open o q ↦ cc q
  | meets_done o d q ↦ subst (Grows v) (clear-injective (sym q ∙ e)) (λ x m. m)
  | descends o d q ↦
      left (visit_each-Grows (visit fuel g) (visit-Grows fuel g) (successors g k) (enter k v))
        (after_children-clear k _ w (sym q ∙ e))
]
  where
    left :
        ((u : Visited)
          → visit_each (visit fuel g) (enter k v) (successors g k) ≡ clear u
          → Grows (enter k v) u)
        → (u : Visited) × (visit_each (visit fuel g) (enter k v) (successors g k) ≡ clear u)
          × (w ≡ leave k u)
        → Grows v w
    left all (u, q, l) = subst (Grows v) (sym l) (leave-Grows k v u (all u q))

-- Where the keys to visit, and what follows a key of `us`, are in `us`, the fuel lasts.
module _ (us : List String) (g : Graph) where
  abbrev Returning : (Visited → String → Visit) → ℕ → Type 0
  Returning step fuel =
      (v : Visited) (k : String) → In k us → unseen (seen v) us < fuel → step v k ≢ out_of_fuel

  visit_each_lasts :
      (fuel : ℕ) (step : Visited → String → Visit)
      → ((v w : Visited) (k : String) → step v k ≡ clear w → Grows v w)
      → Returning step fuel
      → (ks : List String) (v : Visited) → All (λ k. In k us) ks
      → unseen (seen v) us < fuel
      → visit_each step v ks ≢ out_of_fuel
  unfolding visit_each
  visit_each_lasts fuel step grows lasts [] v i h e = cc
  visit_each_lasts fuel step grows lasts (k ∷ ks) v i h e =
      go (visit_each_lasts fuel step grows lasts ks) (step v k) refl
    where
      go :
          ((u : Visited)
            → All (λ k. In k us) ks
            → unseen (seen u) us < fuel
            → visit_each step u ks ≢ out_of_fuel)
          → (r : Visit) → step v k ≡ r
          → ⊥
      go later out_of_fuel q = lasts v k i.0 h q
      go later cyclic q = ground arith
      go later (clear u) q =
          later u i.1 (omega (arith, unseen_mono (seen v) (seen u) (grows v u k q) us))
            (rw (q, visit_each) at e)

  enter_drops :
      (v : Visited) (k : String)
      → In k us
      → contains v.opened k ≡ false
      → contains v.done k ≡ false
      → unseen (seen (enter k v)) us < unseen (seen v) us
  enter_drops v k m o d =
      unseen_drop (seen v) (seen (enter k v)) (λ x s. ground arith) us k m (ground arith)
        (ground (arith, str_eq_self k))

  after_children_lasts :
      (k : String) (r : Visit) → r ≢ out_of_fuel → after_children k r ≢ out_of_fuel
  unfolding after_children
  after_children_lasts k out_of_fuel h e = h refl
  after_children_lasts k cyclic h e = cc
  after_children_lasts k (clear u) h e = cc

  visit_lasts :
      ((k s : String) → In k us → In s (successors g k) → In s us)
      → (fuel : ℕ) → Returning (visit fuel g) fuel
  unfolding visit
  visit_lasts closed zero v k m h e = elim h [ ]
  visit_lasts closed (suc fuel) v k m h e = elim (visit-VisitCase fuel g v k) [
    | meets_open o q ↦ ground arith
    | meets_done o d q ↦ ground arith
    | descends o d q ↦
        after_children_lasts k _
          (visit_each_lasts fuel (visit fuel g) (visit-Grows fuel g) (visit_lasts closed fuel)
            (successors g k) (enter k v) (All-of_In _ (successors g k) (λ s. closed k s m))
            (omega (arith, enter_drops v k m o d)))
          (sym q ∙ e)
  ]

  -- Fuel beyond the number of keys is enough.
  pub has_cycle_lasts :
      ((k s : String) → In k us → In s (successors g k) → In s us)
      → (fuel : ℕ) → length us < fuel
      → has_cycle fuel g us ≢ out_of_fuel
  unfolding has_cycle
  has_cycle_lasts closed fuel h =
      visit_each_lasts fuel (visit fuel g) (visit-Grows fuel g) (visit_lasts closed fuel) us _
        (All-of_In _ us (λ k m. m)) (omega (arith, unseen-le-length _ us))
