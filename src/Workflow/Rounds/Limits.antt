-- ===== src/Workflow/Rounds/Limits.antt =====
-- Through a whole run of the loop every node keeps within its retry policy.
use duraclaw.Json.{Fields}
use duraclaw.Shared.{
  ℕ, zero, suc, ◌+◌, ◌≡◌, refl, sym, subst, inl, inr, List, [], ◌∷◌, String, length, ltb, str_eq,
  Bool-cases, In,
}
use duraclaw.Workflow.Execute.{Outside, execute_batch, node_or_zero}
use duraclaw.Workflow.Execute.Bounded.{IsBounded, Rows}
use duraclaw.Workflow.Execute.Closed.{execute_batch-next}
use duraclaw.Workflow.Graph.{Graph}
use duraclaw.Workflow.Queue.{first_state}
use duraclaw.Workflow.Queue.Frame.{state_nodes, Unique, Distinct}
use duraclaw.Workflow.Rounds.{
  Turn, stop, again, or_stop, replay, ready_nodes, run_batch, run_ready, act, turn, go_on,
  run_turns, turns_for, run_ready_queue, key_or_empty,
}
use duraclaw.Workflow.Rounds.Attempts.{
  Keyed, Keyed-Closed, Known, made_ready-Known, Known-at_first, replay-Rows, execute_batch-Rows,
}
use duraclaw.Workflow.Rounds.Closed.{or_stop_keeps}
use duraclaw.Workflow.Rounds.Ready.{Unique-ready_nodes, In-ready_nodes}
use duraclaw.Workflow.Rounds.RetryPolicy.{
  Kept, KeptTurn, Acted, set_workflow_run-Kept, settle-Kept, to_Kept, idle-Kept,
}
use duraclaw.Workflow.Store.{failed, awaiting_user, NodeState, World, state_map}
use duraclaw.Workflow.Store.Closed.{reads, breaks, read-ReadCase}

module _ (g : Graph) (ks : List String) (u : Unique ks) where
  module _ (o : Outside) (states : List NodeState) (n : ℕ) (out : Fields)
      (same : state_nodes states ≡ ks)
      (bounded : (s : NodeState) → In s states → IsBounded g s) where
    d : Distinct states
    d = subst Unique (sym same) u

    key_of_ready : (k : String) → In k (ready_nodes states) → (node_or_zero g k).node_key ≡ k
    key_of_ready k m =
        let (s, i, q, e) = In-ready_nodes states k m in
        subst (λ x. (node_or_zero g x).node_key ≡ x) e (bounded s i).0

    run_batch-Kept :
        (w : World)
        → Acted g ks u states n out w
        → Kept g ks u (run_batch o g states (ready_nodes states) n out w).1
    unfolding run_batch
    run_batch-Kept w p = elim (Bool-cases (ltb 100 (n + length (ready_nodes states)))) [
      | inl t ↦ rw t (set_workflow_run-Kept g ks u failed w (to_Kept g ks u states n out w p))
      | inr t ↦
          let rs = ready_nodes states in
          let b = execute_batch o g states out rs w in
          let q : Kept g ks u b.1 = (
            execute_batch-next (λ i. Keyed ks) (λ i. Keyed-Closed ks) (λ i v q. q) (λ i id v q. q) o
                g states out rs 0 w p.0,
            execute_batch-Rows g states o out rs w (Unique-ready_nodes states d) key_of_ready
                (λ t m. ((p.1 t m).0, (p.1 t m).1)),
          ) in
          rw t (settle-Kept g ks u (n + length rs) out b.0 b.1 q)
    ]

    run_ready-Kept :
        (rs : List String) (w : World)
        → ready_nodes states ≡ rs
        → Acted g ks u states n out w
        → Kept g ks u (run_ready o g states rs n out w).1
    run_ready-Kept [] w e p = idle-Kept g ks u states n out w p
    run_ready-Kept (k ∷ rs) w e p =
        subst (λ x. Kept g ks u (run_batch o g states x n out w).1) e (run_batch-Kept w p)

    act-Kept : (w : World) → Acted g ks u states n out w → Kept g ks u (act o g states n out w).1
    unfolding act
    act-Kept w p = elim (Bool-cases (str_eq (key_or_empty (first_state states awaiting_user)) "")) [
      | inl t ↦ rw t (run_ready-Kept (ready_nodes states) w refl p)
      | inr t ↦ rw t (to_Kept g ks u states n out w p)
    ]

  pub turn-Kept :
      (o : Outside) (n : ℕ) (out : Fields) (w : World)
      → Kept g ks u w
      → KeptTurn g ks u (turn o g n out w)
  unfolding turn state_map
  turn-Kept o n out w p = elim (read-ReadCase (λ v. v.states) w) [
    | breaks bs e ↦ subst (λ r. KeptTurn g ks u (or_stop r next)) (sym e) p
    | reads bs l e ↦
        let v = record w { faults = bs } in
        let K = Known g w.states (ready_nodes w.states) in
        subst (λ r. KeptTurn g ks u (or_stop r next)) (sym e)
          (or_stop_keeps (λ x. Keyed ks x × Rows K x) (KeptTurn g ks u)
            (replay g w.states g.nodes out v) (λ collected x. act o g w.states n collected x)
            (replay-Rows g ks u K (made_ready-Known g w.states (ready_nodes w.states)) w.states
              g.nodes out v (p.0, Known-at_first g w.states (subst Unique (sym p.0) u) p.1))
            (λ x y q. (q.0, (λ t m. (q.1 t m).0)))
            (λ collected x q. act-Kept o w.states n collected p.0 p.1 x q))
  ]
    where
      next : List NodeState → World → Turn × World
      next states v =
          or_stop (replay g states g.nodes out v) λ collected x. act o g states n collected x

  run_turns-Kept :
      (o : Outside) (fuel n : ℕ) (out : Fields) (w : World)
      → Kept g ks u w
      → Kept g ks u (run_turns o g fuel n out w).1
  unfolding run_turns
  run_turns-Kept o zero n out w p = p
  run_turns-Kept o (suc fuel) n out w p =
      go (λ m collected v q. run_turns-Kept o fuel m collected v q) (turn o g n out w)
        (turn-Kept o n out w p)
    where
      go :
          ((m : ℕ) (collected : Fields) (v : World)
            → Kept g ks u v
            → Kept g ks u (run_turns o g fuel m collected v).1)
          → (r : Turn × World) → KeptTurn g ks u r
          → Kept g ks u (go_on (run_turns o g fuel) r).1
      go rest (stop a, v) q = q
      go rest (again m collected, v) q = rest m collected v q

-- From a world with one row for each node, all of them within the retry policies of their nodes,
-- `runReadyQueue` ends in a world with rows for the same nodes, all of them within the policies:
-- whatever fails, a node is never run more often than its `max_attempts`.
pub run_ready_queue-IsBounded :
    (o : Outside) (g : Graph) (initial : Fields) (w : World)
    → Distinct w.states
    → ((s : NodeState) → In s w.states → IsBounded g s)
    → (state_nodes (run_ready_queue o g initial w).1.states ≡ state_nodes w.states)
      × ((s : NodeState) → In s (run_ready_queue o g initial w).1.states → IsBounded g s)
unfolding run_ready_queue
run_ready_queue-IsBounded o g initial w d h =
    run_turns-Kept g (state_nodes w.states) d o (turns_for w) 0 initial w (refl, h)
