-- ===== src/Workflow/Rounds/Marked.antt =====
-- Marking the nodes that never ran, at the end of a run that succeeds.
use duraclaw.Json.{null, Fields}
use duraclaw.Shared.{
  ◌≡◌, refl, sym, ap, subst, inl, inr, ◌⊎◌, arith, true, List, [], ◌∷◌, String, str_eq_iff,
  Bool-cases, In,
}
use duraclaw.Workflow.Execute.Bounded.{Rows, update_states-Rows}
use duraclaw.Workflow.Graph.{Graph}
use duraclaw.Workflow.Queue.{mark_skipped, terminal_succeeded}
use duraclaw.Workflow.Rounds.{
  Answer, result, Turn, stop, again, or_stop, activations_or_none, complete, key_or_empty,
}
use duraclaw.Workflow.Store.{
  pending, succeeded, skipped, same_status, NodeState, World, Result, ok, err, write_state,
  set_node_state, write_status, set_workflow_run, activation_map,
}
use duraclaw.Workflow.Store.Calls.{bind_works, call_works}
use duraclaw.Workflow.Store.Closed.{reads, breaks, read-ReadCase}

abbrev pub IsDone : NodeState → Type 0
IsDone t = (t.status ≡ succeeded) ⊎ (t.status ≡ skipped)

-- A state is done, or one of `ss` of its node is pending.
abbrev pub Due : List NodeState → NodeState → Type 0
Due ss t =
    IsDone t
    ⊎ ((s : NodeState) × In s ss × (same_status s.status pending ≡ true) × (s.node ≡ t.node))

Due-next :
    (s : NodeState) (ss : List NodeState) (t : NodeState)
    → (same_status s.status pending ≡ true → s.node ≡ t.node → ⊥)
    → Due (s ∷ ss) t
    → Due ss t
Due-next s ss t other (inl d) = inl d
Due-next s ss t other (inr (r, inl e, p, q)) = absurd (
    other (subst (λ x. same_status x.status pending ≡ true) e p) (subst (λ x. x.node ≡ t.node) e q))
Due-next s ss t other (inr (r, inr m, p, q)) = inr (r, m, p, q)

-- Once the pending nodes have been marked, all are done.
mark_skipped-IsDone :
    (ss : List NodeState) (w v : World) {u : Unit {0}}
    → Rows (Due ss) w
    → mark_skipped ss w ≡ (ok u, v)
    → Rows IsDone v
unfolding mark_skipped set_node_state
mark_skipped-IsDone [] w v h e = λ t m.
    elim (h t (subst (λ (r : Result (Unit {0}) × World). In t r.1.states) (sym e) m)) [
      | inl d ↦ d
      | inr (s, i, p, q) ↦ absurd i
    ]
mark_skipped-IsDone (s ∷ ss) w v h e = elim (Bool-cases (same_status s.status pending)) [
  | inr f ↦ mark_skipped-IsDone ss w v (λ t m. Due-next s ss t (λ p q. cc) (h t m)) (rw f at e)
  | inl p ↦
      let (a, x, q, e2) =
        bind_works (set_node_state s.node skipped null) (λ _. mark_skipped ss) w v (rw p at e) in
      let (bs, r) = call_works (write_state s.node skipped null) w x q in
      mark_skipped-IsDone ss x v
        (λ t m.
          update_states-Rows (Due (s ∷ ss)) (Due ss) s.node skipped null (λ y d k. inl (inr refl))
            (λ y d g. Due-next s ss y (λ p2 k. absurd (ground (arith, str_eq_iff y.node s.node))) d)
            w.states h t (subst (λ (z : World). In t z.states) r m))
        e2
]

-- What a turn says of a run that has succeeded.
abbrev pub Ended : Answer → World → Type 0
Ended (result succeeded k out) v = (v.run_status ≡ succeeded) × Rows IsDone v
Ended _ v = Unit

abbrev pub Ends : Turn × World → Type 0
Ends (stop a, v) = Ended a v
Ends (again n out, v) = Unit

activation_map-Due :
    (ss : List NodeState) (w : World) → Rows (Due ss) w → Rows (Due ss) (activation_map w).1
unfolding activation_map
activation_map-Due ss w h = elim (read-ReadCase (λ v. v.activations) w) [
  | breaks bs e ↦ subst (λ r. Rows (Due ss) r.1) (sym e) h
  | reads bs l e ↦ subst (λ r. Rows (Due ss) r.1) (sym e) h
]

closing : String → Fields → World → Turn × World
unfolding set_workflow_run
closing current out u =
    or_stop (set_workflow_run succeeded u) λ _ x. (stop (result succeeded current out), x)

closing-Ends :
    (current : String) (out : Fields) (u : World) → Rows IsDone u → Ends (closing current out u)
unfolding closing set_workflow_run
closing-Ends current out u h = go (set_workflow_run succeeded u) refl
  where
    go :
        (r : Result (Unit {0}) × World)
        → set_workflow_run succeeded u ≡ r
        → Ends (or_stop r λ _ x. (stop (result succeeded current out), x))
    go (err e, x) q = tt
    go (ok a, x) q =
        let (bs, p) = call_works (write_status succeeded) u x q in
        (
          ap (λ (y : World). y.run_status) p,
          (λ t m. h t (subst (λ (y : World). In t y.states) p m)),
        )

pub complete-Ends :
    (g : Graph) (states : List NodeState) (out : Fields) (w : World)
    → Rows (Due states) w
    → Ends (complete g states out w)
unfolding complete closing
complete-Ends g states out w h =
    go (key_or_empty (terminal_succeeded g states (activations_or_none (activation_map w).0)))
      (mark_skipped states (activation_map w).1) refl
  where
    go :
        (current : String) (r : Result (Unit {0}) × World)
        → mark_skipped states (activation_map w).1 ≡ r
        → Ends (or_stop r λ _ u. closing current out u)
    go current (err e, u) q = tt
    go current (ok a, u) q =
        closing-Ends current out u
          (mark_skipped-IsDone states (activation_map w).1 u (activation_map-Due states w h) q)
