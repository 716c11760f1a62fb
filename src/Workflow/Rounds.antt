-- ===== src/Workflow/Rounds.antt =====
-- The loop over the queue of ready nodes (internal/workflow/executor.go, `runReadyQueue`): a round
-- reads the states, replays the outputs of the nodes that have succeeded, and then ends the run, or
-- runs up to four ready nodes. `again` is the next turn of the loop.
pub mod Closed
pub mod Wake
pub mod Fuel
pub mod Count
pub mod Ready
pub mod Attempts
pub mod RetryPolicy
pub mod Limits
pub mod Marked
pub mod Success
pub mod Outcome
use duraclaw.Json.{Json, null, object, Fields}
use duraclaw.Shared.{
  ℕ, zero, suc, ◌+◌, Bool, true, false, List, [], ◌∷◌, String, Option, none, some, length, take,
  ltb, str_eq, if◌then◌else◌,
}
use duraclaw.Workflow.Activity.{set_all}
use duraclaw.Workflow.Execute.{Outside, NodeResult, execute_batch}
use duraclaw.Workflow.Graph.{Node, Graph}
use duraclaw.Workflow.Queue.{
  state_of, activate_outgoing, has_pending_merge_ready, queued_nodes, first_state, all_terminal,
  has_failed, mark_skipped, terminal_succeeded,
}
use duraclaw.Workflow.Store.{
  Status, pending, queued, succeeded, failed, awaiting_user, same_status, NodeState, World,
  StoreError, Result, ok, err, M, ◌>>=◌, ◌>>◌, return, ignore, call, set_node_state, state_map,
  activation_map, set_workflow_run, set_host_run, add_event,
}
use duraclaw.Json.{set_field}

-- `defaultConcurrency` and `maxNodeExecutions`.
abbrev pub concurrency : ℕ
concurrency = 4

abbrev pub max_node_executions : ℕ
max_node_executions = 100

-- What `runReadyQueue` returns: a `GraphResult` or one of its errors.
pub data Answer : Type 0 where
  result : Status → String → Fields → Answer
  store_error : StoreError → Answer
  graph_failed stalled exceeded node_error : Answer

pub data Turn : Type 0 where
  stop : Answer → Turn
  again : ℕ → Fields → Turn

abbrev pub or_stop : {A : Type 0} → Result A × World → (A → World → Turn × World) → Turn × World
or_stop (ok a, w) next = next a w
or_stop (err e, w) next = (stop (store_error e), w)

-- The output of a node that has succeeded, if it has one.
abbrev object_of : Json → Option Fields
object_of (object fs) = some fs
object_of _ = none

abbrev pub succeeded_output : List NodeState → String → Option Fields
succeeded_output states k = elim (state_of states k) [
  | none ↦ none
  | some s ↦ if same_status s.status succeeded then object_of s.output else none
]

-- The first loop of a round: outputs are collected, and the edges behind them made active again.
unfoldable pub replay : Graph → List NodeState → List Node → Fields → M Fields
unfolding activate_outgoing set_all
replay g states [] out = return out
replay g states (n ∷ ns) out = elim (succeeded_output states n.node_key) [
  | none ↦ replay g states ns out
  | some fs ↦
      activate_outgoing g n.node_key fs
      >> replay g states ns (set_all fs (set_field n.node_key (object fs) out))
]

-- The empty key stands for none.
abbrev pub key_or_empty : Option String → String
key_or_empty none = ""
key_or_empty (some k) = k

abbrev activations_or_none : Result (List String) → List String
activations_or_none (ok a) = a
activations_or_none (err e) = []

-- All nodes are settled: the rest is skipped, and the run has succeeded.
unfoldable pub complete : Graph → List NodeState → Fields → World → Turn × World
unfolding activation_map mark_skipped set_workflow_run terminal_succeeded
complete g states out w =
    let (r, v) = activation_map w in
    let current = key_or_empty (terminal_succeeded g states (activations_or_none r)) in
    or_stop (mark_skipped states v)
      λ _ u. or_stop (set_workflow_run succeeded u) λ _ x. (stop (result succeeded current out), x)

-- No node is queued.
unfoldable pub idle : Graph → List NodeState → ℕ → Fields → World → Turn × World
unfolding has_pending_merge_ready has_failed all_terminal complete set_workflow_run
idle g states n out w =
    let (found, v) = has_pending_merge_ready g states w in
    if found
    then (again n out, v)
    else if has_failed states
    then (stop graph_failed, ignore (set_workflow_run failed) v)
    else if all_terminal states
    then complete g states out v
    else (stop stalled, v)

abbrev pub awaits : Option Status → Bool
awaits none = false
awaits (some st) = same_status st awaiting_user

-- The loop over the results of a batch.
unfoldable pub settle : Graph → ℕ → Fields → List NodeResult → World → Turn × World
unfolding activate_outgoing set_workflow_run set_host_run add_event
settle g n out [] w = (again n out, w)
settle g n out (r ∷ rs) w =
    if r.is_error
    then if r.retry
      then settle g n out rs w
      else (stop node_error, ignore (set_host_run failed) (ignore (set_workflow_run failed) w))
    else if awaits r.state
    then (
      stop (result awaiting_user r.node r.output),
      ignore add_event
          (ignore (set_host_run awaiting_user) (ignore (set_workflow_run awaiting_user) w)),
    )
    else or_stop (activate_outgoing g r.node r.output w) (λ _ v. settle g n out rs v)

-- The nodes that a round runs.
unfoldable pub ready_nodes : List NodeState → List String
unfolding queued_nodes
ready_nodes states = take concurrency (queued_nodes states)

unfoldable pub run_batch :
    Outside → Graph → List NodeState → List String → ℕ → Fields → World → Turn × World
unfolding execute_batch settle set_workflow_run
run_batch o g states ready n out w =
    if ltb max_node_executions (n + length ready)
    then (stop exceeded, ignore (set_workflow_run failed) w)
    else let (rs, v) = execute_batch o g states out ready w in settle g (n + length ready) out rs v

abbrev pub run_ready :
    Outside → Graph → List NodeState → List String → ℕ → Fields → World → Turn × World
run_ready o g states [] n out w = idle g states n out w
run_ready o g states (k ∷ ks) n out w = run_batch o g states (k ∷ ks) n out w

unfoldable pub act : Outside → Graph → List NodeState → ℕ → Fields → World → Turn × World
unfolding first_state ready_nodes idle run_batch
act o g states n out w =
    let awaiting = key_or_empty (first_state states awaiting_user) in
    if str_eq awaiting ""
    then run_ready o g states (ready_nodes states) n out w
    else (stop (result awaiting_user awaiting out), w)

-- One turn of the loop; `n` nodes have been run before it.
unfoldable pub turn : Outside → Graph → ℕ → Fields → World → Turn × World
unfolding state_map replay act
turn o g n out w =
    or_stop (state_map w) λ states v.
      or_stop (replay g states g.nodes out v) λ collected u. act o g states n collected u

abbrev pub go_on :
    (ℕ → Fields → World → Option Answer × World) → Turn × World → Option Answer × World
go_on next (stop a, w) = (some a, w)
go_on next (again n out, w) = next n out w

-- The loop, for at most `fuel` turns; none when these are spent.
unfoldable pub run_turns : Outside → Graph → ℕ → ℕ → Fields → World → Option Answer × World
unfolding turn
run_turns o g zero n out w = (none, w)
run_turns o g (suc fuel) n out w = go_on (run_turns o g fuel) (turn o g n out w)

-- Each turn but the last runs a node or queues one, or a call of the store fails.
abbrev pub turns_for : World → ℕ
turns_for w = 202 + length w.faults

-- `runReadyQueue`, with the initial context of the request.
unfoldable pub run_ready_queue : Outside → Graph → Fields → World → Option Answer × World
unfolding run_turns
run_ready_queue o g initial w = run_turns o g (turns_for w) 0 initial w

-- `queueStartIfFresh`.
abbrev started : String → List NodeState → Bool
started start [] = false
started start (s ∷ ss) =
    if str_eq s.node start
    then if same_status s.status pending then started start ss else true
    else started start ss

unfoldable pub queue_start_if_fresh : String → M (Unit {0})
unfolding state_map set_node_state
queue_start_if_fresh start = state_map >>= λ states.
    if started start states then return tt else set_node_state start queued null

-- `InitializeWorkflowNodeStates`: an insert that leaves a row that is there.
abbrev insert_state : String → World → World
insert_state k w = elim (state_of w.states k) [
  | some s ↦ w
  | none ↦ record w {
    states = record { node = k; status = pending; output = null; attempts = 0 } ∷ w.states;
  }
]

unfoldable pub initialize_states : List Node → M (Unit {0})
unfolding call
initialize_states [] = return tt
initialize_states (n ∷ ns) = call (insert_state n.node_key) >> initialize_states ns
