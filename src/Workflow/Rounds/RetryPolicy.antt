-- ===== src/Workflow/Rounds/RetryPolicy.antt =====
-- The steps of a turn keep every node within its retry policy.
use duraclaw.Json.{null, Fields}
use duraclaw.Shared.{ℕ, refl, sym, subst, inl, inr, arith, List, [], ◌∷◌, String, Bool-cases, In}
use duraclaw.Workflow.Execute.{NodeResult}
use duraclaw.Workflow.Execute.Bounded.{limit_positive, IsBounded, Rows, set_Rows}
use duraclaw.Workflow.Graph.{Graph}
use duraclaw.Workflow.Queue.{
  parents_satisfied, activate_outgoing, queue_first, queue_merge, has_pending_merge_ready,
  has_failed, all_terminal, mark_skipped,
}
use duraclaw.Workflow.Queue.Closed.{has_pending_merge_ready-Closed, mark_skipped-Closed}
use duraclaw.Workflow.Queue.Frame.{Unique}
use duraclaw.Workflow.Rounds.{Turn, complete, idle, awaits, settle, ready_nodes}
use duraclaw.Workflow.Rounds.Attempts.{
  Keyed, Keyed-Closed, Known, made_ready-IsBounded, activate_outgoing-Rows,
}
use duraclaw.Workflow.Rounds.Closed.{or_stop_keeps}
use duraclaw.Workflow.Store.{
  Status, pending, queued, skipped, succeeded, failed, awaiting_user, same_status, NodeState, World,
  ignore, unchanged, set_node_state, activation_map, write_status, set_workflow_run, write_host,
  set_host_run, add_event,
}
use duraclaw.Workflow.Store.Calls.{call_keeps, bind_keeps}
use duraclaw.Workflow.Store.Closed.{reads, breaks, read-ReadCase}

module _ (g : Graph) (ks : List String) (u : Unique ks) where
  abbrev pub Kept : World → Type 0
  Kept w = Keyed ks w × Rows (IsBounded g) w

  abbrev pub KeptTurn : Turn × World → Type 0
  KeptTurn r = Kept r.1

  pub set_workflow_run-Kept : (st : Status) (w : World) → Kept w → Kept (set_workflow_run st w).1
  unfolding set_workflow_run
  set_workflow_run-Kept st w p = call_keeps Kept (write_status st) w (λ bs. p) (λ bs. p)

  set_host_run-Kept : (st : Status) (w : World) → Kept w → Kept (set_host_run st w).1
  unfolding set_host_run
  set_host_run-Kept st w p = call_keeps Kept (write_host st) w (λ bs. p) (λ bs. p)

  add_event-Kept : (w : World) → Kept w → Kept (add_event w).1
  unfolding add_event
  add_event-Kept w p = call_keeps Kept unchanged w (λ bs. p) (λ bs. p)

  skip-Rows :
      (k : String) (w : World)
      → Rows (IsBounded g) w
      → Rows (IsBounded g) (set_node_state k skipped null w).1
  skip-Rows k w h =
      set_Rows (IsBounded g) (IsBounded g) k skipped null
        (λ s b e.
          (b.0, ground (arith, b.1), (λ q. absurd (ground arith)), (λ q. absurd (ground arith))))
        (λ s b f. b) w h (λ s b. b)

  mark_skipped-Rows :
      (ss : List NodeState) (w : World)
      → Rows (IsBounded g) w
      → Rows (IsBounded g) (mark_skipped ss w).1
  unfolding mark_skipped
  mark_skipped-Rows [] w h = h
  mark_skipped-Rows (s ∷ ss) w h = elim (Bool-cases (same_status s.status pending)) [
    | inr f ↦ rw f (mark_skipped-Rows ss w h)
    | inl t ↦
        let q = skip-Rows s.node w h in
        rw t (
          bind_keeps (Rows (IsBounded g)) (set_node_state s.node skipped null)
            (λ _. mark_skipped ss) w q
            (λ a e. mark_skipped-Rows ss (set_node_state s.node skipped null w).1 q))
  ]

  activation_map-Kept : (w : World) → Kept w → Kept (activation_map w).1
  unfolding activation_map
  activation_map-Kept w p = elim (read-ReadCase (λ v. v.activations) w) [
    | breaks bs e ↦ subst (λ r. Kept r.1) (sym e) p
    | reads bs l e ↦ subst (λ r. Kept r.1) (sym e) p
  ]

  complete-Kept :
      (states : List NodeState) (out : Fields) (w : World)
      → Kept w
      → KeptTurn (complete g states out w)
  unfolding complete
  complete-Kept states out w p =
      let v = (activation_map w).1 in
      let q = activation_map-Kept w p in
      or_stop_keeps Kept KeptTurn (mark_skipped states v) _
        (
          mark_skipped-Closed (Keyed ks) (Keyed-Closed ks) states v q.0,
          mark_skipped-Rows states v q.1,
        )
        (λ e x r. r)
        λ a x r.
          or_stop_keeps Kept KeptTurn (set_workflow_run succeeded x) _
            (set_workflow_run-Kept succeeded x r) (λ e y s. s) (λ b y s. s)

  activate-Kept :
      (k : String) (output : Fields) (w : World) → Kept w → Kept (activate_outgoing g k output w).1
  activate-Kept k output w p =
      activate_outgoing-Rows g ks u (IsBounded g) (made_ready-IsBounded g) k output w p

  pub settle-Kept :
      (n : ℕ) (out : Fields) (rs : List NodeResult) (w : World)
      → Kept w
      → KeptTurn (settle g n out rs w)
  unfolding settle
  settle-Kept n out [] w p = p
  settle-Kept n out (r ∷ rs) w p = elim (Bool-cases r.is_error) [
    | inl t ↦ elim (Bool-cases r.retry) [
      | inl v ↦ rw (t, v) (settle-Kept n out rs w p)
      | inr v ↦
          rw (t, v)
            (set_host_run-Kept failed (ignore (set_workflow_run failed) w)
              (set_workflow_run-Kept failed w p))
    ]
    | inr t ↦ elim (Bool-cases (awaits r.state)) [
      | inl v ↦
          let x = ignore (set_workflow_run awaiting_user) w in
          rw (t, v)
            (add_event-Kept (ignore (set_host_run awaiting_user) x)
              (set_host_run-Kept awaiting_user x (set_workflow_run-Kept awaiting_user w p)))
      | inr v ↦
          rw (t, v)
            (or_stop_keeps Kept KeptTurn (activate_outgoing g r.node r.output w) _
              (activate-Kept r.node r.output w p) (λ e x q. q) (λ a x q. settle-Kept n out rs x q))
    ]
  ]

  module _ (states : List NodeState) (n : ℕ) (out : Fields) where
    -- The world that a round acts on, once it has read `states` and replayed the outputs.
    abbrev pub Acted : World → Type 0
    Acted w = Keyed ks w × Rows (Known g states (ready_nodes states)) w

    pub to_Kept : (w : World) → Acted w → Kept w
    to_Kept w p = (p.0, (λ t m. (p.1 t m).0))

    queue_first-Rows :
        (acts : List String) (ss : List NodeState) (w : World)
        → ((s : NodeState) → In s ss → In s states)
        → Rows (Known g states (ready_nodes states)) w
        → Rows (IsBounded g) (queue_first g states acts ss w).1
    unfolding queue_first
    queue_first-Rows acts [] w sub h = λ t m. (h t m).0
    queue_first-Rows acts (s ∷ ss) w sub h =
        let rest = queue_first-Rows acts ss w (λ x m. sub x (inr m)) h in
        elim (Bool-cases (same_status s.status pending)) [
          | inr f ↦ rw f rest
          | inl t ↦ elim (Bool-cases (parents_satisfied g states acts s.node)) [
            | inr f ↦ rw (t, f) rest
            | inl v ↦
                rw (t, v)
                  (set_Rows (Known g states (ready_nodes states)) (IsBounded g) s.node queued null
                    (λ x b e. (
                      b.0.0,
                      ground (arith, b.0.1),
                      (λ q. ground (arith, b.2 s (sub s (inl refl)) t e, limit_positive g x.node)),
                      (λ q. absurd (ground arith)),
                    ))
                    (λ x b f. b.0) w h (λ x b. b.0))
          ]
        ]

    has_pending_merge_ready-Rows :
        (w : World)
        → Rows (Known g states (ready_nodes states)) w
        → Rows (IsBounded g) (has_pending_merge_ready g states w).1
    unfolding has_pending_merge_ready activation_map
    has_pending_merge_ready-Rows w h = elim (read-ReadCase (λ v. v.activations) w) [
      | breaks bs e ↦
          subst (λ r. Rows (IsBounded g) (queue_merge g states r).1) (sym e) (λ t m. (h t m).0)
      | reads bs l e ↦
          subst (λ r. Rows (IsBounded g) (queue_merge g states r).1) (sym e)
            (queue_first-Rows w.activations states (record w { faults = bs }) (λ s m. m) h)
    ]

    pub idle-Kept : (w : World) → Acted w → KeptTurn (idle g states n out w)
    unfolding idle
    idle-Kept w p =
        let r = has_pending_merge_ready g states w in
        let q : Kept r.1 = (
          has_pending_merge_ready-Closed (Keyed ks) (Keyed-Closed ks) g states w p.0,
          has_pending_merge_ready-Rows w p.1,
        ) in
        elim (Bool-cases r.0) [
          | inl t ↦ rw t q
          | inr t ↦ elim (Bool-cases (has_failed states)) [
            | inl v ↦ rw (t, v) (set_workflow_run-Kept failed r.1 q)
            | inr v ↦ elim (Bool-cases (all_terminal states)) [
              | inl x ↦ rw (t, v, x) (complete-Kept states out r.1 q)
              | inr x ↦ rw (t, v, x) q
            ]
          ]
        ]
