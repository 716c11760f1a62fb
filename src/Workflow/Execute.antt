-- ===== src/Workflow/Execute.antt =====
-- Running one node (internal/workflow/executor.go, `executeOne`, `executeBatch`).
pub mod Closed
pub mod Bounded
pub mod Attempts
use duraclaw.Json.{Json, null, object, Fields, end, empty}
use duraclaw.Shared.{
  ℕ, ◌+◌, Bool, true, false, List, [], ◌∷◌, String, Option, none, some, length, ltb, if◌then◌else◌,
}
use duraclaw.Workflow.Activity.{Outcome, done, waits, broke, External, execute_node}
use duraclaw.Workflow.Conditions.{max_attempts}
use duraclaw.Workflow.Graph.{Node, Graph, node_by_key}
use duraclaw.Workflow.Queue.{state_of}
use duraclaw.Workflow.Store.{
  Status, pending, queued, running, succeeded, failed, awaiting_user, NodeState, World, Result, ok,
  err, M, ignore, set_node_state, start_node_run, complete_node_run,
}

pub data Stage : Type 0 where
  pre_workflow_node post_workflow_node : Stage

-- The policy engine (does it allow a node at a stage, for the run of the node with that number) and
-- the node types that leave the engine.
pub record Outside : Type 0 where
  pub allows : Stage → ℕ → Node → Bool
  pub external : External

-- `nodeResult`: no status is the zero value of the struct.
pub record NodeResult : Type 0 where
  pub node : String
  pub state : Option Status
  pub output : Fields
  pub retry : Bool
  pub is_error : Bool

abbrev pub failure : String → Fields → NodeResult
failure k out = record { node = k; state = none; output = out; retry = false; is_error = true }

-- `if err := call; err != nil { return failure }`, and what follows otherwise.
abbrev pub or_return :
    {A : Type 0}
    → Result A × World
    → NodeResult
    → (A → World → NodeResult × World)
    → NodeResult × World
or_return (ok a, w) r next = next a w
or_return (err e, w) r next = (r, w)

-- What follows an error of `executeNode`.
unfoldable pub give_up : Node → NodeState → ℕ → World → NodeResult × World
unfolding set_node_state complete_node_run max_attempts
give_up n s id w =
    let v = ignore (complete_node_run id failed) w in
    if ltb (s.attempts + 1) (max_attempts n.retry_policy)
    then (
      record (failure n.node_key end) { retry = true },
      ignore (set_node_state n.node_key queued null) v,
    )
    else (failure n.node_key end, ignore (set_node_state n.node_key failed null) v)

-- What follows an output.
unfoldable pub succeed : Outside → Node → ℕ → Fields → Status → World → NodeResult × World
unfolding set_node_state complete_node_run
succeed o n id out st w = or_return (complete_node_run id st w) (failure n.node_key out) λ _ v.
    or_return (set_node_state n.node_key st (object out) v) (failure n.node_key out) λ _ u.
      if o.allows post_workflow_node id n
      then (
        record {
          node = n.node_key;
          state = some st;
          output = out;
          retry = false;
          is_error = false;
        },
        u,
      )
      else (
        failure n.node_key out,
        ignore (set_node_state n.node_key failed (object out))
            (ignore (complete_node_run id failed) u),
      )

unfoldable pub finish_node : Outside → Node → NodeState → ℕ → Outcome → World → NodeResult × World
unfolding give_up succeed
finish_node o n s id broke w = give_up n s id w
finish_node o n s id (done out) w = succeed o n id out succeeded w
finish_node o n s id (waits out) w = succeed o n id out awaiting_user w

-- `executeOne`, of a node and the state that the round has read.
unfoldable pub execute_one : Outside → Node → NodeState → Fields → World → NodeResult × World
unfolding set_node_state start_node_run finish_node execute_node
execute_one o n s previous w =
    if o.allows pre_workflow_node (length w.node_runs) n
    then or_return (set_node_state n.node_key running null w) (failure n.node_key end) (λ _ v.
      or_return (start_node_run v) (failure n.node_key end)
        (λ id u. finish_node o n s id (execute_node o.external id n previous) u))
    else (failure n.node_key end, ignore (set_node_state n.node_key failed null) w)

-- `g.nodeByKey[key]` and `states[key]` with the zero values of a missing key.
abbrev pub node_or_zero : Graph → String → Node
node_or_zero g k = elim (node_by_key g.nodes k) [
  | some n ↦ n
  | none ↦ record { node_key = ""; node_type = ""; config = empty; retry_policy = empty }
]

abbrev pub state_or_zero : List NodeState → String → NodeState
state_or_zero states k = elim (state_of states k) [
  | some s ↦ s
  | none ↦ record { node = ""; status = pending; output = null; attempts = 0 }
]

-- `executeBatch`: the results in the order of the keys. The nodes of a batch run at once in the code;
-- here one runs after the other.
unfoldable pub execute_batch :
    Outside → Graph → List NodeState → Fields → List String → World → List NodeResult × World
unfolding execute_one
execute_batch o g states previous [] w = ([], w)
execute_batch o g states previous (k ∷ ks) w =
    let (r, v) = execute_one o (node_or_zero g k) (state_or_zero states k) previous w in
    let (rs, u) = execute_batch o g states previous ks v in (r ∷ rs, u)
