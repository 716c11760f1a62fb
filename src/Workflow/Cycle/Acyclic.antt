-- ===== src/Workflow/Cycle/Acyclic.antt =====
-- What a search that finds no cycle has shown.
use duraclaw.Shared.{
  ℕ, zero, suc, ◌≡◌, refl, sym, subst, ◌∙◌, inl, inr, List, [], ◌∷◌, String, contains→In, In, All,
  All-In,
}
use duraclaw.Workflow.Graph.{
  Graph, Arrow, Reaches, here, onward, Loops, loop, successors, successor_of_Arrow,
}
use duraclaw.Workflow.Cycle.{Visited, Visit, clear, enter, leave, visit_each, visit, has_cycle}
use duraclaw.Workflow.Cycle.Steps.{
  clear-injective, visit_each-cons, after_children-clear, meets_open, meets_done, descends,
  visit-VisitCase,
}

-- The keys in the order in which they were left: the children of each were left before it.
abbrev pub Finished : Graph → List String → Type 0
Finished g [] = Unit
Finished g (k ∷ ks) = All (λ s. In s ks) (successors g k) × Finished g ks

Finished-closed :
    (g : Graph) (ks : List String) (k s : String) → Finished g ks → In k ks → Arrow g k s → In s ks
Finished-closed g [] k s f m a = absurd m
Finished-closed g (x ∷ ks) k s f (inl e) a = inr (
    All-In (λ y. In y ks) s (successors g k)
      (subst (λ y. All (λ z. In z ks) (successors g y)) (sym e) f.0) (successor_of_Arrow g k s a))
Finished-closed g (x ∷ ks) k s f (inr m) a = inr (Finished-closed g ks k s f.1 m a)

Finished-Reaches :
    (g : Graph) (ks : List String) (k : String) {s : String}
    → Finished g ks
    → In k ks
    → Reaches g k s
    → In s ks
Finished-Reaches g ks k f m here = m
Finished-Reaches g ks k f m (onward {l} r a) =
    Finished-closed g ks l _ f (Finished-Reaches g ks k f m r) a

-- No key that has been left lies on a cycle.
pub Finished-acyclic :
    (g : Graph) (ks : List String) (k : String) → Finished g ks → In k ks → ¬ Loops g k
Finished-acyclic g [] k f m c = m
Finished-acyclic g (x ∷ ks) k f (inr m) c = Finished-acyclic g ks k f.1 m c
Finished-acyclic g (x ∷ ks) k f (inl e) (loop l a r) =
    Finished-acyclic g ks k f.1 (Finished-Reaches g ks l f.1 first r) (loop l a r)
  where
    first : In l ks
    first =
        All-In (λ y. In y ks) l (successors g k)
          (subst (λ y. All (λ z. In z ks) (successors g y)) (sym e) f.0)
          (successor_of_Arrow g k l a)

-- What a visit without a cycle gives: the key is done, what was done stays so, and the order holds.
record Cleared (g : Graph) (v : Visited) (k : String) (w : Visited) : Type 0 where
  key_done : In k w.done
  kept : (x : String) → In x v.done → In x w.done
  finished : Finished g w.done

record ClearedAll (g : Graph) (v : Visited) (ks : List String) (w : Visited) : Type 0 where
  all_done : All (λ k. In k w.done) ks
  kept : (x : String) → In x v.done → In x w.done
  finished : Finished g w.done

All-mono :
    (xs ys ks : List String)
    → ((x : String) → In x xs → In x ys)
    → All (λ k. In k xs) ks
    → All (λ k. In k ys) ks
All-mono xs ys [] h a = tt
All-mono xs ys (k ∷ ks) h a = (h k a.0, All-mono xs ys ks h a.1)

visit_each-clear :
    (g : Graph) (step : Visited → String → Visit)
    → ((v w : Visited) (k : String) → Finished g v.done → step v k ≡ clear w → Cleared g v k w)
    → (ks : List String) (v w : Visited) → Finished g v.done
    → visit_each step v ks ≡ clear w
    → ClearedAll g v ks w
unfolding visit_each
visit_each-clear g step one [] v w f e =
    subst (λ u. ClearedAll g v [] u) (clear-injective e)
      (record { all_done = tt; kept = λ x m. m; finished = f })
visit_each-clear g step one (k ∷ ks) v w f e =
    let (u, q, r) = visit_each-cons step v k ks w e in
    let first = one v u k f q in
    let rest = visit_each-clear g step one ks u w first.finished r in
    record {
      all_done = (rest.kept k first.key_done, rest.all_done);
      kept = λ x m. rest.kept x (first.kept x m);
      finished = rest.finished;
    }

visit-clear :
    (fuel : ℕ) (g : Graph) (v w : Visited) (k : String)
    → Finished g v.done
    → visit fuel g v k ≡ clear w
    → Cleared g v k w
unfolding visit
visit-clear zero g v w k f e = absurd (cc)
visit-clear (suc fuel) g v w k f e = elim (visit-VisitCase fuel g v k) [
  | meets_open o q ↦ cc q
  | meets_done o d q ↦
      subst (λ u. Cleared g v k u) (clear-injective (sym q ∙ e))
        (record { key_done = contains→In v.done k d; kept = λ x m. m; finished = f })
  | descends o d q ↦
      left (visit_each-clear g (visit fuel g) (visit-clear fuel g) (successors g k) (enter k v))
        (after_children-clear k _ w (sym q ∙ e))
]
  where
    left :
        ((u : Visited)
          → Finished g v.done
          → visit_each (visit fuel g) (enter k v) (successors g k) ≡ clear u
          → ClearedAll g (enter k v) (successors g k) u)
        → (u : Visited) × (visit_each (visit fuel g) (enter k v) (successors g k) ≡ clear u)
          × (w ≡ leave k u)
        → Cleared g v k w
    left all (u, q, l) =
        let c = all u f q in
        subst (λ x. Cleared g v k x) (sym l)
          (record {
            key_done = inl refl;
            kept = λ x m. inr (c.kept x m);
            finished = (c.all_done, c.finished);
          })

-- Where `hasCycle` ends without a cycle, with any fuel, no key that it was started from lies on one.
pub has_cycle-clear :
    (fuel : ℕ) (g : Graph) (keys : List String) (w : Visited) (k : String)
    → has_cycle fuel g keys ≡ clear w
    → In k keys
    → ¬ Loops g k
unfolding has_cycle
has_cycle-clear fuel g keys w k e m =
    let c = visit_each-clear g (visit fuel g) (visit-clear fuel g) keys _ w tt e in
    Finished-acyclic g w.done k c.finished (All-In (λ x. In x w.done) k keys c.all_done m)
