-- ===== src/Workflow/Rounds/Wake.antt =====
-- A turn with an empty queue that goes on has queued a node, or used up a fault of the store.
use duraclaw.Json.{Json, null}
use duraclaw.Shared.{
  ℕ, ◌≤◌, ◌<◌, ◌≡◌, refl, sym, ap, subst, ◌∙◌, ◌⊎◌, inl, inr, arith, Bool, true, false, List, [],
  ◌∷◌, String, length, take, str_eq, str_eq_self, str_eq_iff, contains, Bool-cases, In, In-sort_by,
  str_le, sort_by,
}
use duraclaw.Workflow.Graph.{Graph}
use duraclaw.Workflow.Queue.{
  parents_satisfied, queue_first, queue_merge, has_pending_merge_ready, with_status, queued_nodes,
}
use duraclaw.Workflow.Queue.Frame.{state_nodes}
use duraclaw.Workflow.Rounds.{ready_nodes}
use duraclaw.Workflow.Store.{
  Status, pending, queued, same_status, NodeState, World, ignore, update_state, update_states,
  write_state, set_node_state, activation_map,
}
use duraclaw.Workflow.Store.Calls.{works, fails, call-CallCase}
use duraclaw.Workflow.Store.Closed.{Closed, reads, breaks, read-ReadCase}

-- One when no node is queued, else zero.
abbrev pub none_of : List String → ℕ
none_of [] = 1
none_of (k ∷ ks) = 0

abbrev pub idle_flag : List NodeState → ℕ
idle_flag states = none_of (ready_nodes states)

-- At most so many faults to come, and states of these nodes.
abbrev pub Within : ℕ → List String → World → Type 0
Within b ks w = (length w.faults ≤ b) × (state_nodes w.states ≡ ks)

pub update_states-nodes :
    (k : String) (st : Status) (out : Json) (ss : List NodeState)
    → state_nodes (update_states k st out ss) ≡ state_nodes ss
unfolding update_states update_state
update_states-nodes k st out [] = refl
update_states-nodes k st out (s ∷ ss) = elim (Bool-cases (str_eq s.node k)) [
  | inl t ↦ rw t (ap (λ r. s.node ∷ r) (update_states-nodes k st out ss))
  | inr f ↦ rw f (ap (λ r. s.node ∷ r) (update_states-nodes k st out ss))
]

pub Within-Closed : (b : ℕ) (ks : List String) → Closed (Within b ks)
Within-Closed b ks = record {
  fewer = λ w bs l p. (ground arith, p.1);
  node_state = λ k st out w p. (p.0, update_states-nodes k st out w.states ∙ p.1);
  edge = λ from to w p. p;
  finish = λ id st w p. p;
  run_state = λ st w p. p;
  host_state = λ st w p. p;
}

-- A queued state is in the queue.
queued_nonempty :
    (k : String) (ss : List NodeState)
    → contains (state_nodes ss) k ≡ true
    → In k (with_status queued (update_states k queued null ss))
unfolding update_states update_state
queued_nonempty k [] h = absurd (ground arith)
queued_nonempty k (s ∷ ss) h = elim (Bool-cases (str_eq s.node k)) [
  | inl t ↦ rw t (inl (sym ((str_eq_iff s.node k).0 t)))
  | inr f ↦
      let m = queued_nonempty k ss (ground arith) in
      elim (Bool-cases (same_status s.status queued)) [
        | inl u ↦ rw (f, u) (inr m)
        | inr u ↦ rw (f, u) m
      ]
]

none_of_taken : (k : String) (ks : List String) → In k ks → none_of (take 4 ks) ≡ 0
none_of_taken k [] m = absurd m
none_of_taken k (l ∷ ks) m = refl

flag_queued :
    (k : String) (ss : List NodeState)
    → contains (state_nodes ss) k ≡ true
    → idle_flag (update_states k queued null ss) ≡ 0
unfolding ready_nodes queued_nodes
flag_queued k ss h =
    none_of_taken k (sort_by str_le (with_status queued (update_states k queued null ss))) (
      In-sort_by str_le k (with_status queued (update_states k queued null ss))
        (queued_nonempty k ss h))

-- A found node is queued at once, or a fault is used up.
abbrev pub Woken : World → Bool × World → Type 0
Woken w (false, v) = Unit
Woken w (true, v) =
    (length v.faults < length w.faults)
    ⊎ ((length v.faults ≤ length w.faults) × (idle_flag v.states ≡ 0))

wake-Woken :
    (k : String) (w : World)
    → contains (state_nodes w.states) k ≡ true
    → Woken w (true, ignore (set_node_state k queued null) w)
unfolding set_node_state
wake-Woken k w h = elim (call-CallCase (write_state k queued null) w) [
  | works bs l e ↦ subst (λ r. Woken w (true, r.1)) (sym e) (inr (l, flag_queued k w.states h))
  | fails bs l e ↦ subst (λ r. Woken w (true, r.1)) (sym e) (inl l)
]

queue_first-Woken :
    (g : Graph) (states : List NodeState) (activations : List String) (ss : List NodeState)
    (w : World)
    → ((k : String) → contains (state_nodes ss) k ≡ true → contains (state_nodes w.states) k ≡ true)
    → Woken w (queue_first g states activations ss w)
unfolding queue_first
queue_first-Woken g states activations [] w sub = tt
queue_first-Woken g states activations (s ∷ ss) w sub =
    let rest = queue_first-Woken g states activations ss w (λ k h. sub k (ground arith)) in
    elim (Bool-cases (same_status s.status pending)) [
      | inr f ↦ rw f rest
      | inl t ↦ elim (Bool-cases (parents_satisfied g states activations s.node)) [
        | inr f ↦ rw (t, f) rest
        | inl u ↦ rw (t, u) (wake-Woken s.node w (sub s.node (ground (arith, str_eq_self s.node))))
      ]
    ]

Woken-fewer :
    (w : World) (bs : List Bool) (r : Bool × World)
    → length bs ≤ length w.faults
    → Woken (record w { faults = bs }) r
    → Woken w r
Woken-fewer w bs (false, v) l h = tt
Woken-fewer w bs (true, v) l (inl h) = inl (ground arith)
Woken-fewer w bs (true, v) l (inr (h, q)) = inr (ground arith, q)

pub has_pending_merge_ready-Woken :
    (g : Graph) (states : List NodeState) (w : World)
    → state_nodes w.states ≡ state_nodes states
    → Woken w (has_pending_merge_ready g states w)
unfolding has_pending_merge_ready activation_map
has_pending_merge_ready-Woken g states w q = elim (read-ReadCase (λ v. v.activations) w) [
  | breaks bs e ↦ subst (λ r. Woken w (queue_merge g states r)) (sym e) tt
  | reads bs l e ↦
      subst (λ r. Woken w (queue_merge g states r)) (sym e)
        (Woken-fewer w bs (queue_first g states w.activations states (record w { faults = bs })) l (
          queue_first-Woken g states w.activations states (record w { faults = bs })
            (λ k h. subst (λ ks. contains ks k ≡ true) (sym q) h)))
]
