-- ===== src/Workflow/Execute/Closed.antt =====
-- What every write keeps is kept by running nodes.
use duraclaw.Json.{null, object, Fields}
use duraclaw.Shared.{
  ℕ, suc, subst, arith, ◌+◌, List, [], ◌∷◌, String, Bool-cases, inl, inr, length, ltb,
}
use duraclaw.Workflow.Activity.{Outcome, done, waits, broke, execute_node}
use duraclaw.Workflow.Conditions.{max_attempts}
use duraclaw.Workflow.Graph.{Node, Graph}
use duraclaw.Workflow.Store.{
  Status, queued, running, succeeded, failed, awaiting_user, NodeState, World, Result, ok, err,
  ignore, set_node_state, start_node_run, complete_node_run, add_run,
}
use duraclaw.Workflow.Store.Closed.{
  Closed, set_node_state-Closed, start_node_run-next, complete_node_run-Closed,
}
use duraclaw.Workflow.Execute.{
  Outside, pre_workflow_node, post_workflow_node, NodeResult, or_return, give_up, succeed,
  finish_node, execute_one, node_or_zero, state_or_zero, execute_batch,
}

-- What holds after a call, and after what follows it, holds after both.
pub or_return_keeps :
    {A : Type 0} (P : World → Type 0) (m : Result A × World) (r : NodeResult)
    (next : A → World → NodeResult × World)
    → P m.1
    → ((a : A) → P (next a m.1).1)
    → P (or_return m r next).1
or_return_keeps P (ok a, w) r next p q = q a
or_return_keeps P (err e, w) r next p q = p

module _ (P : World → Type 0) (c : Closed P) where
  give_up-Closed : (n : Node) (s : NodeState) (id : ℕ) (w : World) → P w → P (give_up n s id w).1
  unfolding give_up
  give_up-Closed n s id w p =
      let q = complete_node_run-Closed P c id failed w p in
      let v = ignore (complete_node_run id failed) w in
      elim (Bool-cases (ltb (s.attempts + 1) (max_attempts n.retry_policy))) [
        | inl t ↦ rw t (set_node_state-Closed P c n.node_key queued null v q)
        | inr f ↦ rw f (set_node_state-Closed P c n.node_key failed null v q)
      ]

  succeed-Closed :
      (o : Outside) (n : Node) (id : ℕ) (out : Fields) (st : Status) (w : World)
      → P w
      → P (succeed o n id out st w).1
  unfolding succeed
  succeed-Closed o n id out st w p =
      let q = complete_node_run-Closed P c id st w p in
      let v = (complete_node_run id st w).1 in
      let r = set_node_state-Closed P c n.node_key st (object out) v q in
      let u = (set_node_state n.node_key st (object out) v).1 in
      or_return_keeps P (complete_node_run id st w) _ _ q λ a.
        or_return_keeps P (set_node_state n.node_key st (object out) v) _ _ r λ b.
          elim (Bool-cases (o.allows post_workflow_node id n)) [
            | inl t ↦ rw t r
            | inr f ↦ rw f (
                set_node_state-Closed P c n.node_key failed (object out)
                  (ignore (complete_node_run id failed) u)
                  (complete_node_run-Closed P c id failed u r))
          ]

  finish_node-Closed :
      (o : Outside) (n : Node) (s : NodeState) (id : ℕ) (r : Outcome) (w : World)
      → P w
      → P (finish_node o n s id r w).1
  unfolding finish_node
  finish_node-Closed o n s id broke w p = give_up-Closed n s id w p
  finish_node-Closed o n s id (done out) w p = succeed-Closed o n id out succeeded w p
  finish_node-Closed o n s id (waits out) w p = succeed-Closed o n id out awaiting_user w p

-- A family of properties, of which one run of a node goes up by at most one.
module _ (P : ℕ → World → Type 0) (c : (i : ℕ) → Closed (P i))
    (up : (i : ℕ) (w : World) → P i w → P (suc i) w)
    (add : (i id : ℕ) (w : World) → P i w → P (suc i) (add_run id w)) where
  pub execute_one-next :
      (o : Outside) (n : Node) (s : NodeState) (previous : Fields) (i : ℕ) (w : World)
      → P i w
      → P (suc i) (execute_one o n s previous w).1
  unfolding execute_one
  execute_one-next o n s previous i w p =
      elim (Bool-cases (o.allows pre_workflow_node (length w.node_runs) n)) [
        | inr f ↦ rw f (up i _ (set_node_state-Closed (P i) (c i) n.node_key failed null w p))
        | inl t ↦
            let q = set_node_state-Closed (P i) (c i) n.node_key running null w p in
            let v = (set_node_state n.node_key running null w).1 in
            let r = start_node_run-next (P i) (P (suc i)) (c i) (up i) (add i) v q in
            rw t (
              or_return_keeps (P (suc i)) (set_node_state n.node_key running null w) _ _ (up i v q)
                λ a. or_return_keeps (P (suc i)) (start_node_run v) _ _ r λ id.
                  finish_node-Closed (P (suc i)) (c (suc i)) o n s id
                    (execute_node o.external id n previous) (start_node_run v).1 r)
      ]

  pub execute_batch-next :
      (o : Outside) (g : Graph) (states : List NodeState) (previous : Fields) (ks : List String)
      (i : ℕ) (w : World)
      → P i w
      → P (i + length ks) (execute_batch o g states previous ks w).1
  unfolding execute_batch
  execute_batch-next o g states previous [] i w p = subst (λ j. P j w) (ground arith) p
  execute_batch-next o g states previous (k ∷ ks) i w p =
      subst (λ j. P j (execute_batch o g states previous (k ∷ ks) w).1) (ground arith)
        (execute_batch-next o g states previous ks (suc i)
          (execute_one o (node_or_zero g k) (state_or_zero states k) previous w).1
          (execute_one-next o (node_or_zero g k) (state_or_zero states k) previous i w p))
