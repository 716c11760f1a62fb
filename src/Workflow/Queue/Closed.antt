-- ===== src/Workflow/Queue/Closed.antt =====
-- What every write keeps is kept by the operations on the queue.
use duraclaw.Json.{null, Fields}
use duraclaw.Shared.{List, [], ◌∷◌, String, Bool-cases, inl, inr}
use duraclaw.Workflow.Conditions.{edge_matches}
use duraclaw.Workflow.Graph.{Edge, Graph, outgoing}
use duraclaw.Workflow.Store.{
  pending, queued, skipped, same_status, NodeState, World, Result, ok, err, ◌>>=◌, set_node_state,
  activate_edge, state_map, activation_map,
}
use duraclaw.Workflow.Store.Calls.{bind_keeps}
use duraclaw.Workflow.Store.Closed.{
  Closed, set_node_state-Closed, activate_edge-Closed, state_map-Closed, activation_map-Closed,
}
use duraclaw.Workflow.Queue.{
  state_of, has_status, parents_satisfied, activate_matching, queue_ready, activate_outgoing,
  queue_first, queue_merge, has_pending_merge_ready, mark_skipped,
}

module _ (P : World → Type 0) (c : Closed P) where
  activate_matching-Closed :
      (output : Fields) (es : List Edge) (w : World) → P w → P (activate_matching output es w).1
  unfolding activate_matching
  activate_matching-Closed output [] w p = p
  activate_matching-Closed output (e ∷ es) w p =
      elim (Bool-cases (edge_matches e.condition output)) [
        | inr f ↦ rw f (activate_matching-Closed output es w p)
        | inl t ↦
            let q = activate_edge-Closed P c e.from_key e.to_key w p in
            rw t (
              bind_keeps P (activate_edge e.from_key e.to_key) (λ _. activate_matching output es) w
                q
                (λ a r.
                  activate_matching-Closed output es (activate_edge e.from_key e.to_key w).1 q))
      ]

  queue_ready-Closed :
      (g : Graph) (states : List NodeState) (activations : List String) (es : List Edge) (w : World)
      → P w
      → P (queue_ready g states activations es w).1
  unfolding queue_ready
  queue_ready-Closed g states activations [] w p = p
  queue_ready-Closed g states activations (e ∷ es) w p =
      let rest = queue_ready-Closed g states activations es w p in
      elim (Bool-cases (has_status pending (state_of states e.to_key))) [
        | inr f ↦ rw f rest
        | inl t ↦ elim (Bool-cases (parents_satisfied g states activations e.to_key)) [
          | inr f ↦ rw (t, f) rest
          | inl u ↦
              let q = set_node_state-Closed P c e.to_key queued null w p in
              rw (t, u)
                (bind_keeps P (set_node_state e.to_key queued null)
                  (λ _. queue_ready g states activations es) w q
                  (λ a r.
                    queue_ready-Closed g states activations es
                      (set_node_state e.to_key queued null w).1 q))
        ]
      ]

  pub activate_outgoing-Closed :
      (g : Graph) (k : String) (output : Fields) (w : World)
      → P w
      → P (activate_outgoing g k output w).1
  unfolding activate_outgoing
  activate_outgoing-Closed g k output w p =
      let es = outgoing g k in
      let p1 = activate_matching-Closed output es w p in
      let w1 = (activate_matching output es w).1 in
      let p2 = state_map-Closed P c w1 p1 in
      let w2 = (state_map w1).1 in
      let p3 = activation_map-Closed P c w2 p2 in
      bind_keeps P (activate_matching output es)
        (λ _. state_map >>= λ states. activation_map >>= λ acts. queue_ready g states acts es) w p1
        λ a e.
          bind_keeps P state_map (λ states. activation_map >>= λ acts. queue_ready g states acts es)
            w1 p2
            λ states r.
              bind_keeps P activation_map (λ acts. queue_ready g states acts es) w2 p3
                λ acts q. queue_ready-Closed g states acts es (activation_map w2).1 p3

  queue_first-Closed :
      (g : Graph) (states : List NodeState) (activations : List String) (ss : List NodeState)
      (w : World)
      → P w
      → P (queue_first g states activations ss w).1
  unfolding queue_first
  queue_first-Closed g states activations [] w p = p
  queue_first-Closed g states activations (s ∷ ss) w p =
      let rest = queue_first-Closed g states activations ss w p in
      elim (Bool-cases (same_status s.status pending)) [
        | inr f ↦ rw f rest
        | inl t ↦ elim (Bool-cases (parents_satisfied g states activations s.node)) [
          | inr f ↦ rw (t, f) rest
          | inl u ↦ rw (t, u) (set_node_state-Closed P c s.node queued null w p)
        ]
      ]

  queue_merge-Closed :
      (g : Graph) (states : List NodeState) (r : Result (List String) × World)
      → P r.1
      → P (queue_merge g states r).1
  queue_merge-Closed g states (ok acts, w) p = queue_first-Closed g states acts states w p
  queue_merge-Closed g states (err e, w) p = p

  pub has_pending_merge_ready-Closed :
      (g : Graph) (states : List NodeState) (w : World)
      → P w
      → P (has_pending_merge_ready g states w).1
  unfolding has_pending_merge_ready
  has_pending_merge_ready-Closed g states w p =
      queue_merge-Closed g states (activation_map w) (activation_map-Closed P c w p)

  pub mark_skipped-Closed : (ss : List NodeState) (w : World) → P w → P (mark_skipped ss w).1
  unfolding mark_skipped
  mark_skipped-Closed [] w p = p
  mark_skipped-Closed (s ∷ ss) w p = elim (Bool-cases (same_status s.status pending)) [
    | inr f ↦ rw f (mark_skipped-Closed ss w p)
    | inl t ↦
        let q = set_node_state-Closed P c s.node skipped null w p in
        rw t (
          bind_keeps P (set_node_state s.node skipped null) (λ _. mark_skipped ss) w q
            (λ a r. mark_skipped-Closed ss (set_node_state s.node skipped null w).1 q))
  ]
