-- ===== src/Workflow/Rounds/Count.antt =====
-- The loop starts at most `maxNodeExecutions` nodes.
use duraclaw.Json.{Fields}
use duraclaw.Shared.{
  ℕ, zero, suc, ◌+◌, ◌≤◌, ◌≡◌, refl, sym, subst, inl, inr, arith, Bool, true, false, List, [], ◌∷◌,
  String, length, ltb, str_eq, Bool-cases, if◌then◌else◌,
}
use duraclaw.Workflow.Execute.{Outside, execute_batch}
use duraclaw.Workflow.Execute.Closed.{execute_batch-next}
use duraclaw.Workflow.Graph.{Graph}
use duraclaw.Workflow.Queue.{has_pending_merge_ready, has_failed, all_terminal, first_state}
use duraclaw.Workflow.Queue.Closed.{has_pending_merge_ready-Closed}
use duraclaw.Workflow.Rounds.{
  stop, again, Turn, result, store_error, exceeded, graph_failed, stalled, or_stop, replay,
  complete, idle, settle, ready_nodes, run_batch, run_ready, act, turn, go_on, run_turns, turns_for,
  run_ready_queue, key_or_empty,
}
use duraclaw.Workflow.Rounds.Closed.{
  GoesOn, or_stop_keeps, replay-Closed, complete-Closed, settle-Closed,
}
use duraclaw.Workflow.Store.{
  Status, failed, awaiting_user, NodeState, NodeRun, World, ignore, finish_run, set_workflow_run,
  state_map,
}
use duraclaw.Workflow.Store.Closed.{Closed, set_workflow_run-Closed, state_map-Closed}

length-finish_run :
    (id : ℕ) (st : Status) (rs : List NodeRun) → length (finish_run id st rs) ≡ length rs
unfolding finish_run
length-finish_run id st [] = refl
length-finish_run id st (r ∷ rs) = ground (arith, length-finish_run id st rs)

abbrev Runs : ℕ → ℕ → World → Type 0
Runs c n w = length w.node_runs ≤ c + n

Runs-Closed : (c n : ℕ) → Closed (Runs c n)
Runs-Closed c n = record {
  fewer = λ w bs l p. p;
  node_state = λ k st out w p. p;
  edge = λ from to w p. p;
  finish = λ id st w p. ground (arith, length-finish_run id st w.node_runs);
  run_state = λ st w p. p;
  host_state = λ st w p. p;
}

-- After a turn: within the limit, and within the count if the loop goes on.
abbrev Counted : ℕ → Turn × World → Type 0
Counted c (stop a, v) = Runs c 100 v
Counted c (again m out, v) = (m ≤ 100) × Runs c m v

of_Keeps : (c m : ℕ) (r : Turn × World) → m ≤ 100 → GoesOn m r.0 × Runs c m r.1 → Counted c r
of_Keeps c m (stop a, v) l q = ground arith
of_Keeps c m (again j out, v) l q =
    (subst (λ i. i ≤ 100) (sym q.0) l, subst (λ i. Runs c i v) (sym q.0) q.1)

module _ (o : Outside) (g : Graph) (states : List NodeState) (c n : ℕ) (out : Fields) (w : World)
    (l : n ≤ 100) (p : Runs c n w) where
  idle-Counted : Counted c (idle g states n out w)
  unfolding idle
  idle-Counted =
      go (has_pending_merge_ready g states w)
        (has_pending_merge_ready-Closed (Runs c n) (Runs-Closed c n) g states w p)
    where
      go :
          (r : Bool × World)
          → Runs c n r.1
          → Counted c (
              let (found, v) = r in
              if found
              then (again n out, v)
              else if has_failed states
              then (stop graph_failed, ignore (set_workflow_run failed) v)
              else if all_terminal states
              then complete g states out v
              else (stop stalled, v))
      go (true, v) q = (l, q)
      go (false, v) q = elim (Bool-cases (has_failed states)) [
        | inl t ↦
            let s = set_workflow_run-Closed (Runs c n) (Runs-Closed c n) failed v q in
            rw t (of_Keeps c n (stop graph_failed, ignore (set_workflow_run failed) v) l (tt, s))
        | inr t ↦ elim (Bool-cases (all_terminal states)) [
          | inl u ↦
              rw (t, u)
                (of_Keeps c n (complete g states out v) l
                  (complete-Closed (Runs c n) (Runs-Closed c n) g states n out v q))
          | inr u ↦ rw (t, u) (of_Keeps c n (stop stalled, v) l (tt, q))
        ]
      ]

  run_batch-Counted : (ks : List String) → Counted c (run_batch o g states ks n out w)
  unfolding run_batch
  run_batch-Counted ks = elim (Bool-cases (ltb 100 (n + length ks))) [
    | inl t ↦
        let s = set_workflow_run-Closed (Runs c n) (Runs-Closed c n) failed w p in
        rw t (of_Keeps c n (stop exceeded, ignore (set_workflow_run failed) w) l (tt, s))
    | inr t ↦
        let m = n + length ks in
        let b = execute_batch o g states out ks w in
        let q =
          execute_batch-next (Runs c) (Runs-Closed c) (λ i v r. ground arith)
            (λ i id v r. ground arith) o g states out ks n w p in
        rw t (
          of_Keeps c m (settle g m out b.0 b.1) (ground arith)
            (settle-Closed (Runs c m) (Runs-Closed c m) g m out b.0 b.1 q))
  ]

  run_ready-Counted : (ks : List String) → Counted c (run_ready o g states ks n out w)
  run_ready-Counted [] = idle-Counted
  run_ready-Counted (k ∷ ks) = run_batch-Counted (k ∷ ks)

  act-Counted : Counted c (act o g states n out w)
  unfolding act
  act-Counted = elim (Bool-cases (str_eq (key_or_empty (first_state states awaiting_user)) "")) [
    | inl t ↦ rw t (run_ready-Counted (ready_nodes states))
    | inr t ↦ rw t (
        of_Keeps c n
          (stop (result awaiting_user (key_or_empty (first_state states awaiting_user)) out), w) l
          (tt, p))
  ]

turn-Counted :
    (o : Outside) (g : Graph) (c n : ℕ) (out : Fields) (w : World)
    → n ≤ 100
    → Runs c n w
    → Counted c (turn o g n out w)
unfolding turn
turn-Counted o g c n out w l p =
    let k = Runs-Closed c n in
    or_stop_keeps (Runs c n) (Counted c) (state_map w)
      (λ states v.
        or_stop (replay g states g.nodes out v) λ collected u. act o g states n collected u)
      (state_map-Closed (Runs c n) k w p)
      (λ e v q. of_Keeps c n (stop (store_error e), v) l (tt, q))
      λ states v q.
        or_stop_keeps (Runs c n) (Counted c) (replay g states g.nodes out v)
          (λ collected u. act o g states n collected u)
          (replay-Closed (Runs c n) k g states g.nodes out v q)
          (λ e u r. of_Keeps c n (stop (store_error e), u) l (tt, r))
          λ collected u r. act-Counted o g states c n collected u l r

run_turns-Runs :
    (o : Outside) (g : Graph) (c fuel n : ℕ) (out : Fields) (w : World)
    → n ≤ 100
    → Runs c n w
    → Runs c 100 (run_turns o g fuel n out w).1
unfolding run_turns
run_turns-Runs o g c zero n out w l p = ground arith
run_turns-Runs o g c (suc fuel) n out w l p =
    go (λ m collected v l q. run_turns-Runs o g c fuel m collected v l q) (turn o g n out w)
      (turn-Counted o g c n out w l p)
  where
    go :
        ((m : ℕ) (collected : Fields) (v : World)
          → m ≤ 100
          → Runs c m v
          → Runs c 100 (run_turns o g fuel m collected v).1)
        → (r : Turn × World) → Counted c r
        → Runs c 100 (go_on (run_turns o g fuel) r).1
    go rest (stop a, v) q = q
    go rest (again m collected, v) q = rest m collected v q.0 q.1

-- One call of `runReadyQueue` inserts at most 100 node runs.
pub run_ready_queue_bounded :
    (o : Outside) (g : Graph) (initial : Fields) (w : World)
    → length (run_ready_queue o g initial w).1.node_runs ≤ length w.node_runs + 100
unfolding run_ready_queue
run_ready_queue_bounded o g initial w =
    run_turns-Runs o g (length w.node_runs) (turns_for w) 0 initial w (ground arith) (ground arith)
