-- ===== src/Workflow/Store/Closed.antt =====
-- Properties that every write of the store keeps, and the calls that keep them.
use duraclaw.Json.{Json}
use duraclaw.Shared.{ℕ, ◌≤◌, length, ◌≡◌, subst, sym, ap, arith, Bool, List, String}
use duraclaw.Workflow.Store.{
  Status, World, fault, ok, err, and_then, call, unchanged, write_state, set_node_state, write_edge,
  activate_edge, read, state_map, activation_map, add_run, start_node_run, write_run,
  complete_node_run, write_status, set_workflow_run, write_host, set_host_run, add_event,
}
use duraclaw.Workflow.Store.Calls.{works, fails, call-CallCase, bind_keeps}

-- What stays true when faults are used up and rows are written, those of new node runs apart.
pub record Closed (P : World → Type 0) : Type 0 where
  pub fewer :
      (w : World) (bs : List Bool)
      → length bs ≤ length w.faults
      → P w
      → P (record w { faults = bs })
  pub node_state :
      (k : String) (st : Status) (out : Json) (w : World) → P w → P (write_state k st out w)
  pub edge : (from to : String) (w : World) → P w → P (write_edge from to w)
  pub finish : (id : ℕ) (st : Status) (w : World) → P w → P (write_run id st w)
  pub run_state : (st : Status) (w : World) → P w → P (write_status st w)
  pub host_state : (st : Status) (w : World) → P w → P (write_host st w)

module _ (P : World → Type 0) (c : Closed P) where
  pub call-Closed :
      (change : World → World)
      → ((v : World) → P v → P (change v))
      → (w : World) → P w
      → P (call change w).1
  call-Closed change h w p = elim (call-CallCase change w) [
    | works bs l e ↦ subst (λ r. P r.1) (sym e) (h (record w { faults = bs }) (c.fewer w bs l p))
    | fails bs l e ↦ subst (λ r. P r.1) (sym e) (c.fewer w bs (ground arith) p)
  ]

  pub set_node_state-Closed :
      (k : String) (st : Status) (out : Json) (w : World) → P w → P (set_node_state k st out w).1
  unfolding set_node_state
  set_node_state-Closed k st out w p =
      call-Closed (write_state k st out) (c.node_state k st out) w p

  pub activate_edge-Closed : (from to : String) (w : World) → P w → P (activate_edge from to w).1
  unfolding activate_edge
  activate_edge-Closed from to w p = call-Closed (write_edge from to) (c.edge from to) w p

  pub read-Closed : {A : Type 0} (f : World → A) (w : World) → P w → P (read f w).1
  unfolding read
  read-Closed f w p =
      bind_keeps P (call unchanged) (λ _ v. (ok (f v), v)) w (call-Closed unchanged (λ v q. q) w p)
        (λ a e. call-Closed unchanged (λ v q. q) w p)

  pub state_map-Closed : (w : World) → P w → P (state_map w).1
  unfolding state_map
  state_map-Closed w p = read-Closed (λ v. v.states) w p

  pub activation_map-Closed : (w : World) → P w → P (activation_map w).1
  unfolding activation_map
  activation_map-Closed w p = read-Closed (λ v. v.activations) w p

  pub complete_node_run-Closed :
      (id : ℕ) (st : Status) (w : World) → P w → P (complete_node_run id st w).1
  unfolding complete_node_run
  complete_node_run-Closed id st w p = call-Closed (write_run id st) (c.finish id st) w p

  pub set_workflow_run-Closed : (st : Status) (w : World) → P w → P (set_workflow_run st w).1
  unfolding set_workflow_run
  set_workflow_run-Closed st w p = call-Closed (write_status st) (c.run_state st) w p

  pub set_host_run-Closed : (st : Status) (w : World) → P w → P (set_host_run st w).1
  unfolding set_host_run
  set_host_run-Closed st w p = call-Closed (write_host st) (c.host_state st) w p

  pub add_event-Closed : (w : World) → P w → P (add_event w).1
  unfolding add_event
  add_event-Closed w p = call-Closed unchanged (λ v q. q) w p

-- A new node run takes a property to the next of a family.
pub start_node_run-next :
    (P Q : World → Type 0)
    → Closed P
    → ((w : World) → P w → Q w)
    → ((id : ℕ) (w : World) → P w → Q (add_run id w))
    → (w : World) → P w
    → Q (start_node_run w).1
unfolding start_node_run
start_node_run-next P Q c up add w p =
    bind_keeps Q (call (add_run (length w.node_runs))) (λ _ v. (ok (length w.node_runs), v)) w q
      (λ a e. q)
  where
    q : Q (call (add_run (length w.node_runs)) w).1
    q = elim (call-CallCase (add_run (length w.node_runs)) w) [
      | works bs l e ↦
          subst (λ r. Q r.1) (sym e)
            (add (length w.node_runs) (record w { faults = bs }) (c.fewer w bs l p))
      | fails bs l e ↦
          subst (λ r. Q r.1) (sym e) (up (record w { faults = bs }) (c.fewer w bs (ground arith) p))
    ]

-- A read gives what is there and uses up at most one fault, or fails.
pub data ReadCase {A : Type 0} (f : World → A) (w : World) : Type 0 where
  reads :
      (bs : List Bool)
      → length bs ≤ length w.faults
      → read f w ≡ (ok (f (record w { faults = bs })), record w { faults = bs })
      → ReadCase f w
  breaks : (bs : List Bool) → read f w ≡ (err fault, record w { faults = bs }) → ReadCase f w

pub read-ReadCase : {A : Type 0} (f : World → A) (w : World) → ReadCase f w
unfolding read
read-ReadCase f w = elim (call-CallCase unchanged w) [
  | works bs l e ↦ reads bs l (ap (λ r. and_then r (λ _ v. (ok (f v), v))) e)
  | fails bs l e ↦ breaks bs (ap (λ r. and_then r (λ _ v. (ok (f v), v))) e)
]
