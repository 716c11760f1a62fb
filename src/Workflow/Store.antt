-- ===== src/Workflow/Store.antt =====
-- The rows of the store that a workflow run reads and writes (internal/db/workflows.go), for one
-- workflow run and its host run, and the calls of it. Any call may fail: `faults` says of each call
-- to come whether it fails; a call that fails changes nothing, and past its end none fails.
pub mod Calls
pub mod Closed
use Prim.Native.String.{◌++◌ as join}
use duraclaw.Json.{Json, null}
use duraclaw.Shared.{
  ℕ, zero, suc, ◌+◌, Bool, true, false, List, [], ◌∷◌, ◌++◌, String, Option, none, some, str_eq,
  if◌then◌else◌, contains, length, ◌==◌,
}

-- The status of a node's state, of a workflow run and of a host run.
pub data Status : Type 0 where
  pending queued running succeeded failed skipped awaiting_user running_workflow : Status

abbrev pub same_status : Status → Status → Bool
same_status pending pending = true
same_status queued queued = true
same_status running running = true
same_status succeeded succeeded = true
same_status failed failed = true
same_status skipped skipped = true
same_status awaiting_user awaiting_user = true
same_status running_workflow running_workflow = true
same_status _ _ = false

-- A row of `workflow_node_states`. The key is (run, node), so no two rows have one node key.
pub record NodeState : Type 0 where
  pub node : String
  pub status : Status
  pub output : Json
  pub attempts : ℕ

-- A row of `workflow_node_runs`.
pub record NodeRun : Type 0 where
  pub id : ℕ
  pub state : Status

pub record World : Type 0 where
  pub states : List NodeState
  pub activations : List String
  pub node_runs : List NodeRun
  pub run_status : Status
  pub host_status : Status
  pub faults : List Bool

pub data StoreError : Type 0 where
  fault : StoreError

-- What a call returns beside the world that it leaves: an error or a value.
pub data Result {κ} (A : Type κ) : Type κ where
  err : StoreError → Result A
  ok : A → Result A

abbrev pub M : Type 0 → Type 0
M A = World → Result A × World

abbrev pub and_then : {A C : Type 0} → Result A × World → (A → M C) → Result C × World
and_then (err e, w) rest = (err e, w)
and_then (ok a, w) rest = rest a w

infixl 5 ◌>>◌ ◌>>=◌
abbrev pub ◌>>=◌ : {A C : Type 0} → M A → (A → M C) → M C
◌>>=◌ first rest w = and_then (first w) rest

abbrev pub ◌>>◌ : {C : Type 0} → M (Unit {0}) → M C → M C
◌>>◌ first rest w = and_then (first w) λ u. rest

abbrev pub return : {A : Type 0} → A → M A
return a w = (ok a, w)

-- `_ = call`: what the call returns is dropped.
abbrev pub ignore : {A : Type 0} → M A → World → World
ignore m w = (m w).1

-- One call of the store, whose effect is `change`.
abbrev after_call : (World → World) → World → List Bool → Result (Unit {0}) × World
after_call change w [] = (ok tt, change w)
after_call change w (b ∷ bs) =
    if b then (err fault, record w { faults = bs }) else (ok tt, change (record w { faults = bs }))

unfoldable pub call : (World → World) → M (Unit {0})
call change w = after_call change w w.faults

-- `UPDATE workflow_node_states SET status, output, attempts`: the attempts count the runs.
unfoldable pub update_state : String → Status → Json → NodeState → NodeState
update_state k st out s =
    if str_eq s.node k
    then record s {
      status = st;
      output = out;
      attempts = if same_status st running then s.attempts + 1 else s.attempts;
    }
    else s

unfoldable pub update_states : String → Status → Json → List NodeState → List NodeState
update_states k st out [] = []
update_states k st out (s ∷ ss) = update_state k st out s ∷ update_states k st out ss

abbrev pub write_state : String → Status → Json → World → World
write_state k st out w = record w { states = update_states k st out w.states }

unfoldable pub set_node_state : String → Status → Json → M (Unit {0})
unfolding call update_state update_states
set_node_state k st out = call (write_state k st out)

-- The text that `activationMap` makes of an edge.
abbrev pub label : String → String → String
label from to = join from (join "->" to)

-- `ActivateWorkflowEdge`: an upsert.
abbrev pub write_edge : String → String → World → World
write_edge from to w = record w {
  activations =
      if contains w.activations (label from to)
      then w.activations
      else label from to ∷ w.activations;
}

unfoldable pub activate_edge : String → String → M (Unit {0})
unfolding call
activate_edge from to = call (write_edge from to)

-- `WorkflowNodeStates` and `WorkflowEdgeActivations`.
abbrev pub unchanged : World → World
unchanged w = w

unfoldable pub read : {A : Type 0} → (World → A) → M A
unfolding call
read f = call unchanged >> λ w. (ok (f w), w)

unfoldable pub state_map : M (List NodeState)
unfolding read
state_map = read (λ w. w.states)

unfoldable pub activation_map : M (List String)
unfolding read
activation_map = read (λ w. w.activations)

abbrev pub add_run : ℕ → World → World
add_run id w = record w { node_runs = record { id = id; state = running } ∷ w.node_runs }

-- `StartWorkflowNodeRun` inserts a row and returns its id.
unfoldable pub start_node_run : M ℕ
unfolding call
start_node_run w = let id = length w.node_runs in (call (add_run id) >> return id) w

unfoldable pub finish_run : ℕ → Status → List NodeRun → List NodeRun
finish_run id st [] = []
finish_run id st (r ∷ rs) =
    (if r.id == id then record r { state = st } else r) ∷ finish_run id st rs

abbrev pub write_run : ℕ → Status → World → World
write_run id st w = record w { node_runs = finish_run id st w.node_runs }

-- `CompleteWorkflowNodeRun`.
unfoldable pub complete_node_run : ℕ → Status → M (Unit {0})
unfolding call finish_run
complete_node_run id st = call (write_run id st)

abbrev pub write_status : Status → World → World
write_status st w = record w { run_status = st }

abbrev pub write_host : Status → World → World
write_host st w = record w { host_status = st }

-- `SetWorkflowRunState`.
unfoldable pub set_workflow_run : Status → M (Unit {0})
unfolding call
set_workflow_run st = call (write_status st)

-- `SetRunState` of the host run.
unfoldable pub set_host_run : Status → M (Unit {0})
unfolding call
set_host_run st = call (write_host st)

-- `AddEvent`, whose rows no decision reads.
unfoldable pub add_event : M (Unit {0})
unfolding call
add_event = call unchanged
