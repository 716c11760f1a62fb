-- ===== src/Workflow/Queue/Frame.antt =====
-- What making nodes ready changes: pending nodes whose parents are done become queued, and nothing
-- else.
use duraclaw.Json.{null, Fields}
use duraclaw.Shared.{
  ◌≡◌, refl, sym, subst, ap, ◌∙◌, inl, inr, ◌⊎◌, true, false, List, [], ◌∷◌, String, some, str_eq,
  str_eq_iff, str_eq_self, contains, In, Bool-cases, arith,
}
use duraclaw.Workflow.Conditions.{edge_matches}
use duraclaw.Workflow.Graph.{Edge, Graph, outgoing}
use duraclaw.Workflow.Store.{
  pending, queued, same_status, NodeState, World, M, read, ◌>>=◌, update_state, update_states,
  write_state, write_edge, set_node_state, activate_edge, state_map, activation_map,
}
use duraclaw.Workflow.Store.Calls.{call_keeps, bind_keeps, read_keeps}
use duraclaw.Workflow.Queue.{
  state_of, has_status, parents_satisfied, activate_matching, queue_ready, activate_outgoing,
  queue_first,
}

abbrev pub state_nodes : List NodeState → List String
state_nodes [] = []
state_nodes (s ∷ ss) = s.node ∷ state_nodes ss

-- No two states of one node: the primary key of the table.
abbrev pub Unique : List String → Type 0
Unique [] = Unit
Unique (k ∷ ks) = (contains ks k ≡ false) × Unique ks

abbrev pub Distinct : List NodeState → Type 0
Distinct ss = Unique (state_nodes ss)

-- The states before and after, in step.
abbrev pub Pairs : (NodeState → NodeState → Type 0) → List NodeState → List NodeState → Type 0
Pairs R [] [] = Unit
Pairs R [] (t ∷ ts) = ⊥
Pairs R (s ∷ ss) [] = ⊥
Pairs R (s ∷ ss) (t ∷ ts) = R s t × Pairs R ss ts

unfoldable pub made_ready : NodeState → NodeState
made_ready s = record s { status = queued; output = null }

-- A state stays as it is, or goes from pending to queued because its parents are done.
abbrev pub Readied : Graph → List NodeState → List String → NodeState → NodeState → Type 0
Readied g states activations s t =
    (t ≡ s)
    ⊎ ((t ≡ made_ready s)
        × (same_status s.status pending ≡ true)
        × (parents_satisfied g states activations s.node ≡ true))

In-contains :
    (ss : List NodeState) (s : NodeState) → In s ss → contains (state_nodes ss) s.node ≡ true
In-contains [] s m = absurd m
In-contains (r ∷ ss) s (inl e) = ground (arith, str_eq_self s.node)
In-contains (r ∷ ss) s (inr m) = ground (arith, In-contains ss s m)

-- Looking up the node of a state gives the state.
pub state_of_self :
    (ss : List NodeState) (s : NodeState) → Distinct ss → In s ss → state_of ss s.node ≡ some s
state_of_self [] s d m = absurd m
state_of_self (r ∷ ss) s d (inl e) = ground (arith, str_eq_self s.node)
state_of_self (r ∷ ss) s d (inr m) =
    ground (arith, state_of_self ss s d.1 m, In-contains ss s m, str_eq_iff r.node s.node)

Pairs-refl :
    (R : NodeState → NodeState → Type 0)
    → ((s : NodeState) → R s s)
    → (ss : List NodeState) → Pairs R ss ss
Pairs-refl R r [] = tt
Pairs-refl R r (s ∷ ss) = (r s, Pairs-refl R r ss)

module _ (g : Graph) (states : List NodeState) (activations : List String) where
  update-hit :
      (k : String) (s : NodeState)
      → str_eq s.node k ≡ true
      → update_state k queued null s ≡ made_ready s
  unfolding update_state made_ready
  update-hit k s f = rw f

  update-miss :
      (k : String) (s : NodeState) → str_eq s.node k ≡ false → update_state k queued null s ≡ s
  unfolding update_state
  update-miss k s f = rw f

  update-again :
      (k : String) (s : NodeState) → update_state k queued null (made_ready s) ≡ made_ready s
  unfolding update_state made_ready
  update-again k s = elim (Bool-cases (str_eq s.node k)) [ inl f ↦ rw f | inr f ↦ rw f ]

  Readied-node :
      (k : String) (s t : NodeState)
      → Readied g states activations s t
      → (s.node ≡ k
          → (same_status s.status pending ≡ true)
            × (parents_satisfied g states activations k ≡ true))
      → Readied g states activations s (update_state k queued null t)
  Readied-node k s t (inl e) h =
      subst (λ x. Readied g states activations s (update_state k queued null x)) (sym e)
        (elim (Bool-cases (str_eq s.node k)) [
          | inr f ↦ inl (update-miss k s f)
          | inl f ↦
              let q : s.node ≡ k = (str_eq_iff s.node k).0 f in
              inr (
                update-hit k s f,
                (h q).0,
                subst (λ x. parents_satisfied g states activations x ≡ true) (sym q) (h q).1,
              )
        ])
  Readied-node k s t (inr (e, p, q)) h =
      inr (ap (update_state k queued null) e ∙ update-again k s, p, q)

  Readied-nodes :
      (k : String) (ss ts : List NodeState)
      → Pairs (Readied g states activations) ss ts
      → ((s : NodeState)
          → In s ss
          → s.node ≡ k
          → (same_status s.status pending ≡ true)
            × (parents_satisfied g states activations k ≡ true))
      → Pairs (Readied g states activations) ss (update_states k queued null ts)
  unfolding update_states
  Readied-nodes k [] [] p h = tt
  Readied-nodes k [] (t ∷ ts) p h = absurd p
  Readied-nodes k (s ∷ ss) [] p h = absurd p
  Readied-nodes k (s ∷ ss) (t ∷ ts) p h =
      (Readied-node k s t p.0 (h s (inl refl)), Readied-nodes k ss ts p.1 (λ x m. h x (inr m)))

  -- A key that is pending in `states` is that of one state, which is pending.
  pending_key :
      Distinct states
      → (k : String) → has_status pending (state_of states k) ≡ true
      → parents_satisfied g states activations k ≡ true
      → (s : NodeState) → In s states
      → s.node ≡ k
      → (same_status s.status pending ≡ true) × (parents_satisfied g states activations k ≡ true)
  pending_key d k h p s m q = (
    subst (λ o. has_status pending o ≡ true)
        (ap (state_of states) (sym q) ∙ state_of_self states s d m) h,
    p,
  )

  -- The states so far are those of `states`, some of them made ready.
  abbrev pub Prepared : World → Type 0
  Prepared w = Pairs (Readied g states activations) states w.states × (w.activations ≡ activations)

  set_queued-Prepared :
      (k : String) (w : World)
      → ((s : NodeState)
          → In s states
          → s.node ≡ k
          → (same_status s.status pending ≡ true)
            × (parents_satisfied g states activations k ≡ true))
      → Prepared w
      → Prepared (set_node_state k queued null w).1
  unfolding set_node_state
  set_queued-Prepared k w h p =
      call_keeps Prepared (write_state k queued null) w
        (λ bs. (Readied-nodes k states w.states p.0 h, p.1)) (λ bs. p)

  queue_ready-Prepared :
      Distinct states
      → (es : List Edge) (w : World) → Prepared w
      → Prepared (queue_ready g states activations es w).1
  unfolding queue_ready
  queue_ready-Prepared d [] w p = p
  queue_ready-Prepared d (e ∷ es) w p =
      elim (Bool-cases (has_status pending (state_of states e.to_key))) [
        | inr f ↦ rw f (queue_ready-Prepared d es w p)
        | inl t ↦ elim (Bool-cases (parents_satisfied g states activations e.to_key)) [
          | inr f ↦ rw (t, f) (queue_ready-Prepared d es w p)
          | inl u ↦
              rw (t, u)
                (bind_keeps Prepared (set_node_state e.to_key queued null) _ w
                  (set_queued-Prepared e.to_key w (pending_key d e.to_key t u) p)
                  (λ a q.
                    queue_ready-Prepared d es _
                      (set_queued-Prepared e.to_key w (pending_key d e.to_key t u) p)))
        ]
      ]

  -- `hasPendingMergeReady` queues a pending node whose parents are done, if it finds one.
  queue_first-Prepared :
      Distinct states
      → (ss : List NodeState) (w : World) → ((s : NodeState) → In s ss → In s states)
      → Prepared w
      → Prepared (queue_first g states activations ss w).1
  unfolding queue_first
  queue_first-Prepared d [] w sub p = p
  queue_first-Prepared d (s ∷ ss) w sub p = elim (Bool-cases (same_status s.status pending)) [
    | inr f ↦ rw f (queue_first-Prepared d ss w (λ x m. sub x (inr m)) p)
    | inl t ↦ elim (Bool-cases (parents_satisfied g states activations s.node)) [
      | inr f ↦ rw (t, f) (queue_first-Prepared d ss w (λ x m. sub x (inr m)) p)
      | inl u ↦
          rw (t, u)
            (set_queued-Prepared s.node w
              (pending_key d s.node (rw (state_of_self states s d (sub s (inl refl))) t) u) p)
    ]
  ]

-- Activating edges leaves the states alone.
activate_matching-states :
    (output : Fields) (es : List Edge) (states : List NodeState) (w : World)
    → w.states ≡ states
    → (activate_matching output es w).1.states ≡ states
unfolding activate_matching activate_edge
activate_matching-states output [] states w q = q
activate_matching-states output (e ∷ es) states w q =
    elim (Bool-cases (edge_matches e.condition output)) [
      | inr f ↦ rw f (activate_matching-states output es states w q)
      | inl t ↦
          let one =
            call_keeps (λ v. v.states ≡ states) (write_edge e.from_key e.to_key) w (λ bs. q)
              (λ bs. q) in
          rw t (
            bind_keeps (λ v. v.states ≡ states) (activate_edge e.from_key e.to_key) _ w one
              (λ a r. activate_matching-states output es states _ one))
    ]

-- The states of `w` with nodes made ready, as the activations of `v` allow.
abbrev pub ReadiedFrom : Graph → List NodeState → World → Type 0
ReadiedFrom g states v = Pairs (Readied g states v.activations) states v.states

same_states :
    (g : Graph) (states : List NodeState) (v : World) → v.states ≡ states → ReadiedFrom g states v
same_states g states v q =
    subst (Pairs (Readied g states v.activations) states) (sym q)
      (Pairs-refl _ (λ s. inl refl) states)

of_Prepared :
    (g : Graph) (states : List NodeState) (acts : List String) (v : World)
    → Prepared g states acts v
    → ReadiedFrom g states v
of_Prepared g states acts v p =
    subst (λ a. Pairs (Readied g states a) states v.states) (sym p.1) p.0

ready_from :
    (g : Graph) (states : List NodeState) (es : List Edge) (v : World)
    → Distinct states
    → v.states ≡ states
    → ReadiedFrom g states (queue_ready g v.states v.activations es v).1
ready_from g states es v d q =
    subst (λ ss. ReadiedFrom g states (queue_ready g ss v.activations es v).1) (sym q)
      (of_Prepared g states v.activations (queue_ready g states v.activations es v).1
        (queue_ready-Prepared g states v.activations d es v (same_states g states v q, refl)))

-- What `activateOutgoing` does once the edges are active.
read_and_queue : Graph → List Edge → M (Unit {0})
unfolding state_map activation_map
read_and_queue g es = do
  states ← state_map
  activations ← activation_map
  queue_ready g states activations es

read_and_queue-Readied :
    (g : Graph) (states : List NodeState) (es : List Edge) (v : World)
    → Distinct states
    → v.states ≡ states
    → ReadiedFrom g states (read_and_queue g es v).1
unfolding read_and_queue
read_and_queue-Readied g states es v d q =
    read_keeps (ReadiedFrom g states) (λ u. u.states)
      (λ ss. read (λ u. u.activations) >>= λ acts. queue_ready g ss acts es) v
      (λ bs. same_states g states (record v { faults = bs }) q)
      λ bs.
        read_keeps (ReadiedFrom g states) (λ u. u.activations)
          (λ acts. queue_ready g v.states acts es) (record v { faults = bs })
          (λ cs. same_states g states (record v { faults = cs }) q)
          λ cs. ready_from g states es (record v { faults = cs }) d q

-- In a world with one state for each node, whatever fails, `activateOutgoing` does no more to the states
-- than to queue pending nodes whose parents are done.
pub activate_outgoing-Readied :
    (g : Graph) (k : String) (output : Fields) (w : World)
    → Distinct w.states
    → ReadiedFrom g w.states (activate_outgoing g k output w).1
unfolding activate_outgoing read_and_queue
activate_outgoing-Readied g k output w d =
    bind_keeps (ReadiedFrom g w.states) (activate_matching output (outgoing g k))
      (λ _. read_and_queue g (outgoing g k)) w (same_states g w.states activated still)
      λ a e. read_and_queue-Readied g w.states (outgoing g k) activated d still
  where
    activated : World
    activated = (activate_matching output (outgoing g k) w).1

    still : activated.states ≡ w.states
    still = activate_matching-states output (outgoing g k) w.states w refl
