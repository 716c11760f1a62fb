-- ===== src/Workflow/Rounds/Fuel.antt =====
-- The loop ends: each turn but the last runs a node, queues one, or uses up a fault of the store.
use duraclaw.Json.{Fields}
use duraclaw.Shared.{
  ℕ, zero, suc, ◌+◌, ◌-◌, ◌*◌, ◌≤◌, ◌<◌, ◌≡◌, ◌≢◌, refl, sym, ap, subst, ◌∙◌, inl, inr, arith, Bool,
  true, false, List, [], ◌∷◌, String, none, length, ltb, str_eq, Bool-cases, if◌then◌else◌,
}
use duraclaw.Workflow.Execute.{Outside, execute_batch}
use duraclaw.Workflow.Execute.Closed.{execute_batch-next}
use duraclaw.Workflow.Graph.{Graph}
use duraclaw.Workflow.Queue.{
  has_pending_merge_ready, has_failed, all_terminal, first_state, mark_skipped,
}
use duraclaw.Workflow.Queue.Frame.{state_nodes}
use duraclaw.Workflow.Rounds.{
  graph_failed, stalled, stop, again, Turn, or_stop, replay, complete, idle, settle, ready_nodes,
  run_batch, run_ready, act, turn, go_on, run_turns, turns_for, run_ready_queue, key_or_empty,
}
use duraclaw.Workflow.Rounds.Closed.{GoesOn, or_stop_keeps, replay-Closed, settle-Closed}
use duraclaw.Workflow.Store.{
  succeeded, failed, awaiting_user, NodeState, World, ignore, set_workflow_run, state_map,
  activation_map,
}
use duraclaw.Workflow.Store.Closed.{reads, breaks, read-ReadCase}
use duraclaw.Workflow.Rounds.Wake.{
  none_of, idle_flag, Within, Within-Closed, Woken, has_pending_merge_ready-Woken,
}

abbrev measure : ℕ → World → ℕ
measure n w = 2 * (100 - n) + (length w.faults + idle_flag w.states)

-- The loop goes on, if it does, with less to do.
abbrev Falls : ℕ → World → Turn × World → Type 0
Falls n w (stop a, v) = Unit
Falls n w (again m out, v) = measure m v < measure n w

flag_small : (ss : List NodeState) → idle_flag ss ≤ 1
flag_small ss = go (ready_nodes ss)
  where
    go : (ks : List String) → none_of ks ≤ 1
    go [] = ground arith
    go (k ∷ ks) = ground arith

measure_batch :
    (n : ℕ) (k : String) (ks : List String) (v w : World)
    → ltb 100 (n + length (k ∷ ks)) ≡ false
    → length v.faults ≤ length w.faults
    → measure (n + length (k ∷ ks)) v < measure n w
measure_batch n k ks v w t l = ground (arith, flag_small v.states)

complete-Falls :
    (g : Graph) (states : List NodeState) (n : ℕ) (out : Fields) (w0 w : World)
    → Falls n w0 (complete g states out w)
unfolding complete
complete-Falls g states n out w0 w =
    or_stop_keeps (λ _. Unit {0}) (Falls n w0) (mark_skipped states (activation_map w).1) _ tt
      (λ e v q. tt)
      λ a v q.
        or_stop_keeps (λ _. Unit {0}) (Falls n w0) (set_workflow_run succeeded v) _ tt (λ e x r. tt)
          (λ b x r. tt)

of_Keeps :
    (n m : ℕ) (r : Turn × World) (w : World) {ks : List String}
    → ((v : World) → length v.faults ≤ length w.faults → measure m v < measure n w)
    → GoesOn m r.0 × Within (length w.faults) ks r.1
    → Falls n w r
of_Keeps n m (stop a, v) w h q = tt
of_Keeps n m (again j out, v) w h q = subst (λ i. measure i v < measure n w) (sym q.0) (h v q.1.0)

module _ (o : Outside) (g : Graph) (states : List NodeState) (n : ℕ) (out : Fields) (w0 w : World)
    (here : w0.states ≡ states) (p : Within (length w0.faults) (state_nodes states) w) where
  idle-Falls : ready_nodes states ≡ [] → Falls n w0 (idle g states n out w)
  unfolding idle
  idle-Falls e =
      go (has_pending_merge_ready g states w) (has_pending_merge_ready-Woken g states w p.1)
    where
      flag : idle_flag w0.states ≡ 1
      flag = ap idle_flag here ∙ ap none_of e

      go :
          (r : Bool × World)
          → Woken w r
          → Falls n w0 (
              let (found, v) = r in
              if found
              then (again n out, v)
              else if has_failed states
              then (stop graph_failed, ignore (set_workflow_run failed) v)
              else if all_terminal states
              then complete g states out v
              else (stop stalled, v))
      go (true, v) (inl h) = ground (arith, flag_small v.states)
      go (true, v) (inr h) = ground arith
      go (false, v) h = elim (Bool-cases (has_failed states)) [
        | inl t ↦ rw t tt
        | inr t ↦ elim (Bool-cases (all_terminal states)) [
          | inl u ↦ rw (t, u) (complete-Falls g states n out w0 v)
          | inr u ↦ rw (t, u) tt
        ]
      ]

  run_batch-Falls :
      (k : String) (ks : List String) → Falls n w0 (run_batch o g states (k ∷ ks) n out w)
  unfolding run_batch
  run_batch-Falls k ks = elim (Bool-cases (ltb 100 (n + length (k ∷ ks)))) [
    | inl t ↦ rw t tt
    | inr t ↦
        let B = Within (length w0.faults) (state_nodes states) in
        let c = Within-Closed (length w0.faults) (state_nodes states) in
        let b = execute_batch o g states out (k ∷ ks) w in
        let q =
          execute_batch-next (λ i. B) (λ i. c) (λ i v q. q) (λ i id v q. q) o g states out (k ∷ ks)
            0 w p in
        rw t (
          of_Keeps n (n + length (k ∷ ks)) (settle g (n + length (k ∷ ks)) out b.0 b.1) w0
            (λ v l. measure_batch n k ks v w0 t l)
            (settle-Closed B c g (n + length (k ∷ ks)) out b.0 b.1 q))
  ]

  run_ready-Falls :
      (ks : List String) → ready_nodes states ≡ ks → Falls n w0 (run_ready o g states ks n out w)
  run_ready-Falls [] e = idle-Falls e
  run_ready-Falls (k ∷ ks) e = run_batch-Falls k ks

  act-Falls : Falls n w0 (act o g states n out w)
  unfolding act
  act-Falls = elim (Bool-cases (str_eq (key_or_empty (first_state states awaiting_user)) "")) [
    | inl t ↦ rw t (run_ready-Falls (ready_nodes states) refl)
    | inr t ↦ rw t tt
  ]

-- A turn leaves less to do.
turn-Falls :
    (o : Outside) (g : Graph) (n : ℕ) (out : Fields) (w : World) → Falls n w (turn o g n out w)
unfolding turn state_map
turn-Falls o g n out w = elim (read-ReadCase (λ v. v.states) w) [
  | breaks bs e ↦ subst (λ r. Falls n w (or_stop r next)) (sym e) tt
  | reads bs l e ↦
      let B = Within (length w.faults) (state_nodes w.states) in
      let c = Within-Closed (length w.faults) (state_nodes w.states) in
      let v = record w { faults = bs } in
      subst (λ r. Falls n w (or_stop r next)) (sym e)
        (or_stop_keeps B (Falls n w) (replay g w.states g.nodes out v)
          (λ collected u. act o g w.states n collected u)
          (replay-Closed B c g w.states g.nodes out v (l, refl)) (λ x u q. tt)
          (λ collected u q. act-Falls o g w.states n collected w u refl q))
]
  where
    next : List NodeState → World → Turn × World
    next states v =
        or_stop (replay g states g.nodes out v) λ collected u. act o g states n collected u

run_turns_lasts :
    (o : Outside) (g : Graph) (fuel n : ℕ) (out : Fields) (w : World)
    → measure n w < fuel
    → (run_turns o g fuel n out w).0 ≢ none
unfolding run_turns
run_turns_lasts o g zero n out w l = absurd (ground arith)
run_turns_lasts o g (suc fuel) n out w l =
    go (λ m collected v h. run_turns_lasts o g fuel m collected v h) (turn o g n out w)
      (turn-Falls o g n out w)
  where
    go :
        ((m : ℕ) (collected : Fields) (v : World)
          → measure m v < fuel
          → (run_turns o g fuel m collected v).0 ≢ none)
        → (r : Turn × World) → Falls n w r
        → (go_on (run_turns o g fuel) r).0 ≢ none
    go rest (stop a, v) f = λ e. cc
    go rest (again m collected, v) f = rest m collected v (ground arith)

-- `runReadyQueue` returns, for every graph, every behaviour of the nodes and of the policy engine,
-- and whichever finitely many calls of the store fail: the turns of `turns_for` are enough.
pub run_ready_queue_returns :
    (o : Outside) (g : Graph) (initial : Fields) (w : World)
    → (run_ready_queue o g initial w).0 ≢ none
unfolding run_ready_queue
run_ready_queue_returns o g initial w =
    run_turns_lasts o g (turns_for w) 0 initial w (ground (arith, flag_small w.states))
