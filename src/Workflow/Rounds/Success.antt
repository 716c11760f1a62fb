-- ===== src/Workflow/Rounds/Success.antt =====
-- What holds of the states when a turn says that the run has succeeded.
use duraclaw.Json.{Fields}
use duraclaw.Shared.{
  ℕ, ◌+◌, ◌≡◌, refl, sym, subst, ◌∙◌, inl, inr, ◌⊎◌, arith, Bool, true, false, List, [], ◌∷◌,
  String, length, ltb, str_eq, Bool-cases, In, if◌then◌else◌,
}
use duraclaw.Workflow.Execute.{Outside, NodeResult, execute_batch}
use duraclaw.Workflow.Execute.Bounded.{Rows}
use duraclaw.Workflow.Graph.{Graph}
use duraclaw.Workflow.Queue.{
  parents_satisfied, queue_first, queue_merge, has_pending_merge_ready, has_failed, all_terminal,
  activate_outgoing, first_state,
}
use duraclaw.Workflow.Queue.Frame.{Distinct, state_nodes, made_ready}
use duraclaw.Workflow.Rounds.{
  graph_failed, stalled, Turn, stop, again, or_stop, replay, complete, idle, awaits, settle,
  ready_nodes, run_batch, run_ready, act, turn, key_or_empty,
}
use duraclaw.Workflow.Rounds.Attempts.{replay-Rows}
use duraclaw.Workflow.Rounds.Closed.{or_stop_keeps}
use duraclaw.Workflow.Store.{
  pending, failed, awaiting_user, same_status, NodeState, World, ignore, set_workflow_run,
  state_map, activation_map,
}
use duraclaw.Workflow.Store.Closed.{reads, breaks, read-ReadCase}
use duraclaw.Workflow.Rounds.Marked.{IsDone, Due, Ends, complete-Ends}

settle-Ends :
    (g : Graph) (n : ℕ) (out : Fields) (rs : List NodeResult) (w : World)
    → Ends (settle g n out rs w)
unfolding settle
settle-Ends g n out [] w = tt
settle-Ends g n out (r ∷ rs) w = elim (Bool-cases r.is_error) [
  | inl t ↦ elim (Bool-cases r.retry) [
    | inl u ↦ rw (t, u) (settle-Ends g n out rs w)
    | inr u ↦ rw (t, u) tt
  ]
  | inr t ↦ elim (Bool-cases (awaits r.state)) [
    | inl u ↦ rw (t, u) tt
    | inr u ↦
        rw (t, u)
          (or_stop_keeps (λ _. Unit {0}) Ends (activate_outgoing g r.node r.output w)
            (λ _ v. settle g n out rs v) tt (λ e v q. tt) (λ a v q. settle-Ends g n out rs v))
  ]
]

-- How the rows come from the states that the round has read.
abbrev Origin : List NodeState → NodeState → Type 0
Origin states t =
    (s : NodeState) × In s states
    × (s.node ≡ t.node)
    × ((t.status ≡ s.status) ⊎ (same_status s.status pending ≡ true))

made_ready-Origin :
    (states : List NodeState) (s : NodeState)
    → Origin states s
    → same_status s.status pending ≡ true
    → Origin states (made_ready s)
unfolding made_ready
made_ready-Origin states s (r, m, e, inl q) p =
    (r, m, e, inr (subst (λ x. same_status x pending ≡ true) q p))
made_ready-Origin states s (r, m, e, inr q) p = (r, m, e, inr q)

-- With no state failed and all settled, each row is done or of a pending node.
settled_state :
    (ss : List NodeState) (s : NodeState)
    → has_failed ss ≡ false
    → all_terminal ss ≡ true
    → In s ss
    → IsDone s ⊎ (same_status s.status pending ≡ true)
unfolding has_failed all_terminal
settled_state [] s f a m = absurd m
settled_state (r ∷ ss) s f a (inr m) = settled_state ss s (ground arith) (ground arith) m
settled_state (r ∷ ss) s f a (inl e) = ground arith

-- Where no pending node is found, the states are as they were.
abbrev Unfound : World → Bool × World → Type 0
Unfound w (true, v) = Unit
Unfound w (false, v) = v.states ≡ w.states

queue_first-Unfound :
    (g : Graph) (states : List NodeState) (acts : List String) (ss : List NodeState) (w : World)
    → Unfound w (queue_first g states acts ss w)
unfolding queue_first
queue_first-Unfound g states acts [] w = refl
queue_first-Unfound g states acts (s ∷ ss) w =
    let rest = queue_first-Unfound g states acts ss w in
    elim (Bool-cases (same_status s.status pending)) [
      | inr f ↦ rw f rest
      | inl t ↦ elim (Bool-cases (parents_satisfied g states acts s.node)) [
        | inr f ↦ rw (t, f) rest
        | inl u ↦ rw (t, u) tt
      ]
    ]

has_pending_merge_ready-Unfound :
    (g : Graph) (states : List NodeState) (w : World)
    → Unfound w (has_pending_merge_ready g states w)
unfolding has_pending_merge_ready activation_map
has_pending_merge_ready-Unfound g states w = elim (read-ReadCase (λ v. v.activations) w) [
  | breaks bs e ↦ subst (λ r. Unfound w (queue_merge g states r)) (sym e) refl
  | reads bs l e ↦
      subst (λ r. Unfound w (queue_merge g states r)) (sym e)
        (queue_first-Unfound g states w.activations states (record w { faults = bs }))
]

Origin-Due :
    (states : List NodeState) (t : NodeState)
    → has_failed states ≡ false
    → all_terminal states ≡ true
    → Origin states t
    → Due states t
Origin-Due states t f a (s, m, e, inr p) = inr (s, m, p, e)
Origin-Due states t f a (s, m, e, inl q) = elim (settled_state states s f a m) [
  | inl (inl d) ↦ inl (inl (q ∙ d))
  | inl (inr d) ↦ inl (inr (q ∙ d))
  | inr p ↦ inr (s, m, p, e)
]

module _ (o : Outside) (g : Graph) (states : List NodeState) (n : ℕ) (out : Fields) (w : World)
    (h : Rows (Origin states) w) where
  idle-Ends : Ends (idle g states n out w)
  unfolding idle
  idle-Ends = go (has_pending_merge_ready g states w) (has_pending_merge_ready-Unfound g states w)
    where
      go :
          (r : Bool × World)
          → Unfound w r
          → Ends (
              let (found, v) = r in
              if found
              then (again n out, v)
              else if has_failed states
              then (stop graph_failed, ignore (set_workflow_run failed) v)
              else if all_terminal states
              then complete g states out v
              else (stop stalled, v))
      go (true, v) q = tt
      go (false, v) q = elim (Bool-cases (has_failed states)) [
        | inl t ↦ rw t tt
        | inr t ↦ elim (Bool-cases (all_terminal states)) [
          | inl u ↦
              rw (t, u)
                (complete-Ends g states out v
                  (λ x m. Origin-Due states x t u (h x (subst (In x) q m))))
          | inr u ↦ rw (t, u) tt
        ]
      ]

  run_batch-Ends : (ks : List String) → Ends (run_batch o g states ks n out w)
  unfolding run_batch
  run_batch-Ends ks = elim (Bool-cases (ltb 100 (n + length ks))) [
    | inl t ↦ rw t tt
    | inr t ↦
        let b = execute_batch o g states out ks w in
        rw t (settle-Ends g (n + length ks) out b.0 b.1)
  ]

  run_ready-Ends : (ks : List String) → Ends (run_ready o g states ks n out w)
  run_ready-Ends [] = idle-Ends
  run_ready-Ends (k ∷ ks) = run_batch-Ends (k ∷ ks)

  act-Ends : Ends (act o g states n out w)
  unfolding act
  act-Ends = elim (Bool-cases (str_eq (key_or_empty (first_state states awaiting_user)) "")) [
    | inl t ↦ rw t (run_ready-Ends (ready_nodes states))
    | inr t ↦ rw t tt
  ]

pub turn-Ends :
    (o : Outside) (g : Graph) (n : ℕ) (out : Fields) (w : World)
    → Distinct w.states
    → Ends (turn o g n out w)
unfolding turn state_map
turn-Ends o g n out w d = elim (read-ReadCase (λ v. v.states) w) [
  | breaks bs e ↦ subst (λ r. Ends (or_stop r next)) (sym e) tt
  | reads bs l e ↦
      let v = record w { faults = bs } in
      let Q = Origin w.states in
      subst (λ r. Ends (or_stop r next)) (sym e)
        (or_stop_keeps (λ x. (state_nodes x.states ≡ state_nodes w.states) × Rows Q x) Ends
          (replay g w.states g.nodes out v) (λ collected x. act o g w.states n collected x)
          (replay-Rows g (state_nodes w.states) d Q (made_ready-Origin w.states) w.states g.nodes
            out v (refl, (λ t m. (t, m, refl, inl refl))))
          (λ x y q. tt) (λ collected x q. act-Ends o g w.states n collected x q.1))
]
  where
    next : List NodeState → World → Turn × World
    next states v =
        or_stop (replay g states g.nodes out v) λ collected x. act o g states n collected x
