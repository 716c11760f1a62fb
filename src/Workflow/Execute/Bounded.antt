-- ===== src/Workflow/Execute/Bounded.antt =====
-- States within the retry policies of their nodes, and what a write does to the rows.
use duraclaw.Json.{ℤ, pos, negsuc, Json, field_or_null}
use duraclaw.Shared.{
  ℕ, ◌+◌, ◌≤◌, ◌<◌, ◌≡◌, refl, sym, subst, inl, inr, arith, true, false, List, [], ◌∷◌, String,
  length, str_eq, str_eq_iff, Bool-cases, In, if◌then◌else◌,
}
use duraclaw.Workflow.Conditions.{max_attempts, positive_or, fields_of, int_value}
use duraclaw.Workflow.Graph.{Graph}
use duraclaw.Workflow.Store.{
  Status, pending, queued, running, same_status, NodeState, World, ok, call, update_state,
  update_states, write_state, set_node_state, start_node_run, complete_node_run, write_run, add_run,
}
use duraclaw.Workflow.Store.Calls.{works, fails, call-CallCase, call_keeps, bind_keeps}
use duraclaw.Workflow.Execute.{NodeResult, or_return, node_or_zero}

-- How often the retry policy lets a node run.
abbrev pub limit : Graph → String → ℕ
limit g k = max_attempts (node_or_zero g k).retry_policy

-- A state within the retry policy of its node: it has run no more often than that, less often if it
-- is to run again, and not at all if it is pending. The first part says that the graph has the node.
abbrev pub IsBounded : Graph → NodeState → Type 0
IsBounded g s =
    ((node_or_zero g s.node).node_key ≡ s.node)
    × (s.attempts ≤ limit g s.node)
    × (same_status s.status queued ≡ true → s.attempts < limit g s.node)
    × (same_status s.status pending ≡ true → s.attempts ≡ 0)

positive_or-positive : (n : ℤ) (d : ℕ) → 0 < d → 0 < positive_or n d
positive_or-positive (pos n) d l = ground arith
positive_or-positive (negsuc n) d l = l

pub limit_positive : (g : Graph) (k : String) → 0 < limit g k
unfolding max_attempts
limit_positive g k =
    let fs = fields_of (node_or_zero g k).retry_policy in
    let m = int_value (field_or_null "max_attempts" fs) in
    let a = int_value (field_or_null "attempts" fs) in
    positive_or-positive m (positive_or a 1) (positive_or-positive a 1 (ground arith))

pub below_limit :
    (g : Graph) (s : NodeState)
    → IsBounded g s
    → same_status s.status queued ≡ true
    → s.attempts < limit g s.node
below_limit g s (a, b, c, d) q = c q

pub no_attempts :
    (g : Graph) (s : NodeState)
    → IsBounded g s
    → same_status s.status pending ≡ true
    → s.attempts ≡ 0
no_attempts g s (a, b, c, d) q = d q

abbrev pub Rows : (NodeState → Type 0) → World → Type 0
Rows Q w = (t : NodeState) → In t w.states → Q t

abbrev pub changed : NodeState → Status → Json → NodeState
changed s st out = record s {
  status = st;
  output = out;
  attempts = if same_status st running then s.attempts + 1 else s.attempts;
}

module _ (Q R : NodeState → Type 0) (k : String) (st : Status) (out : Json)
    (hit : (s : NodeState) → Q s → s.node ≡ k → R (changed s st out))
    (miss : (s : NodeState) → Q s → str_eq s.node k ≡ false → R s) where
  update_state-Rows : (s : NodeState) → Q s → R (update_state k st out s)
  unfolding update_state
  update_state-Rows s q = elim (Bool-cases (str_eq s.node k)) [
    | inl t ↦ rw t (hit s q ((str_eq_iff s.node k).0 t))
    | inr f ↦ rw f (miss s q f)
  ]

  pub update_states-Rows :
      (ss : List NodeState)
      → ((s : NodeState) → In s ss → Q s)
      → (t : NodeState) → In t (update_states k st out ss)
      → R t
  unfolding update_states
  update_states-Rows [] h t m = absurd m
  update_states-Rows (s ∷ ss) h t (inl e) = subst R (sym e) (update_state-Rows s (h s (inl refl)))
  update_states-Rows (s ∷ ss) h t (inr m) = update_states-Rows ss (λ x i. h x (inr i)) t m

  -- The call that changes the rows of a node, and what follows it.
  pub set_then :
      (F : NodeState → Type 0) (w : World) (r : NodeResult)
      (next : Unit {0} → World → NodeResult × World)
      → Rows Q w
      → ((s : NodeState) → Q s → F s)
      → ((v : World) → Rows R v → Rows F (next tt v).1)
      → Rows F (or_return (set_node_state k st out w) r next).1
  unfolding set_node_state
  set_then F w r next h weaken good = elim (call-CallCase (write_state k st out) w) [
    | works bs l e ↦
        subst (λ x. Rows F (or_return x r next).1) (sym e)
          (good (write_state k st out (record w { faults = bs })) (update_states-Rows w.states h))
    | fails bs l e ↦ subst (λ x. Rows F (or_return x r next).1) (sym e) (λ t m. weaken t (h t m))
  ]

  pub set_Rows :
      (w : World) → Rows Q w → ((s : NodeState) → Q s → R s) → Rows R (set_node_state k st out w).1
  unfolding set_node_state
  set_Rows w h weaken =
      call_keeps (Rows R) (write_state k st out) w (λ bs. update_states-Rows w.states h)
        (λ bs t m. weaken t (h t m))

module _ (Q : NodeState → Type 0) where
  pub complete_node_run-Rows :
      (id : ℕ) (st : Status) (w : World) → Rows Q w → Rows Q (complete_node_run id st w).1
  unfolding complete_node_run
  complete_node_run-Rows id st w h = call_keeps (Rows Q) (write_run id st) w (λ bs. h) (λ bs. h)

  pub start_node_run-Rows : (w : World) → Rows Q w → Rows Q (start_node_run w).1
  unfolding start_node_run
  start_node_run-Rows w h =
      let one = call_keeps (Rows Q) (add_run (length w.node_runs)) w (λ bs. h) (λ bs. h) in
      bind_keeps (Rows Q) (call (add_run (length w.node_runs)))
        (λ _ v. (ok (length w.node_runs), v)) w one (λ a e. one)
