-- ===== src/Workflow/Queue.antt =====
-- The queue of ready nodes (internal/workflow/executor.go): which nodes become ready, and what the
-- states of the nodes say of the run. The map of states is the list of its entries, in the order in
-- which a loop over the map meets them.
pub mod Laws
pub mod Frame
pub mod Closed
use duraclaw.Json.{Json, null, Fields}
use duraclaw.Shared.{
  ℕ, suc, ◌+◌, Bool, true, false, List, [], ◌∷◌, String, Option, none, some, str_eq, str_le,
  contains, ltb, sort_by, if◌then◌else◌,
}
use duraclaw.Workflow.Conditions.{edge_matches}
use duraclaw.Workflow.Graph.{Node, Edge, Graph, outgoing, incoming}
use duraclaw.Workflow.Store.{
  Status, pending, queued, running, succeeded, failed, skipped, awaiting_user, same_status,
  NodeState, World, Result, ok, err, M, ◌>>=◌, ◌>>◌, return, ignore, set_node_state, activate_edge,
  label, state_map, activation_map,
}

-- `states[key]`.
abbrev pub state_of : List NodeState → String → Option NodeState
state_of [] k = none
state_of (s ∷ ss) k = if str_eq s.node k then some s else state_of ss k

-- `states[key].Status == status`; a missing state has no status.
abbrev pub has_status : Status → Option NodeState → Bool
has_status st none = false
has_status st (some s) = same_status s.status st

-- The loop of `parentsSatisfied` over the edges into a node, with `activeParents`.
pub parents_loop : List NodeState → List String → ℕ → List Edge → Bool
parents_loop states activations active [] = ltb 0 active
parents_loop states activations active (e ∷ es) =
    let rest = parents_loop states activations (active + 1) es in
    let skip = parents_loop states activations active es in
    if contains activations (label e.from_key e.to_key)
    then if has_status succeeded (state_of states e.from_key) then rest else false
    else skip

-- Of no edges the loop gives false too, as the early return does.
unfoldable pub parents_satisfied : Graph → List NodeState → List String → String → Bool
unfolding parents_loop incoming
parents_satisfied g states activations k = parents_loop states activations 0 (incoming g k)

-- The loops of `activateOutgoing`.
pub activate_matching : Fields → List Edge → M (Unit {0})
activate_matching output [] = return tt
activate_matching output (e ∷ es) =
    if edge_matches e.condition output
    then (activate_edge e.from_key e.to_key >> activate_matching output es)
    else activate_matching output es

pub queue_ready : Graph → List NodeState → List String → List Edge → M (Unit {0})
queue_ready g states activations [] = return tt
queue_ready g states activations (e ∷ es) =
    if has_status pending (state_of states e.to_key)
    then if parents_satisfied g states activations e.to_key
      then (set_node_state e.to_key queued null >> queue_ready g states activations es)
      else queue_ready g states activations es
    else queue_ready g states activations es

-- `activateOutgoing`.
unfoldable pub activate_outgoing : Graph → String → Fields → M (Unit {0})
unfolding activate_matching queue_ready outgoing parents_satisfied edge_matches activate_edge
    set_node_state state_map activation_map
activate_outgoing g k output = do
  activate_matching output (outgoing g k)
  states ← state_map
  activations ← activation_map
  queue_ready g states activations (outgoing g k)

-- The loop of `hasPendingMergeReady`: the first pending node whose parents are done is queued.
unfoldable pub queue_first :
    Graph → List NodeState → List String → List NodeState → World → Bool × World
queue_first g states activations [] w = (false, w)
queue_first g states activations (s ∷ ss) w =
    let rest = queue_first g states activations ss w in
    if same_status s.status pending
    then if parents_satisfied g states activations s.node
      then (true, ignore (set_node_state s.node queued null) w)
      else rest
    else rest

abbrev pub queue_merge : Graph → List NodeState → Result (List String) × World → Bool × World
queue_merge g states (ok activations, w) = queue_first g states activations states w
queue_merge g states (err e, w) = (false, w)

unfoldable pub has_pending_merge_ready : Graph → List NodeState → World → Bool × World
unfolding queue_first activation_map parents_satisfied set_node_state
has_pending_merge_ready g states w = queue_merge g states (activation_map w)

-- The keys of the states with a status.
abbrev pub with_status : Status → List NodeState → List String
with_status st [] = []
with_status st (s ∷ ss) =
    if same_status s.status st then s.node ∷ with_status st ss else with_status st ss

-- `queuedNodes`.
unfoldable pub queued_nodes : List NodeState → List String
unfolding sort_by
queued_nodes states = sort_by str_le (with_status queued states)

-- `firstState`; none where the code gives the empty key.
abbrev head_of : List String → Option String
head_of [] = none
head_of (k ∷ ks) = some k

unfoldable pub first_state : List NodeState → Status → Option String
unfolding sort_by
first_state states st = head_of (sort_by str_le (with_status st states))

abbrev settled : Status → Bool
settled succeeded = true
settled skipped = true
settled pending = true
settled _ = false

-- `allTerminal`, `hasFailed`.
unfoldable pub all_terminal : List NodeState → Bool
all_terminal [] = true
all_terminal (s ∷ ss) = if settled s.status then all_terminal ss else false

unfoldable pub has_failed : List NodeState → Bool
has_failed [] = false
has_failed (s ∷ ss) = if same_status s.status failed then true else has_failed ss

-- `markInactivePendingSkipped`.
unfoldable pub mark_skipped : List NodeState → M (Unit {0})
unfolding set_node_state
mark_skipped [] = return tt
mark_skipped (s ∷ ss) =
    if same_status s.status pending
    then (set_node_state s.node skipped null >> mark_skipped ss)
    else mark_skipped ss

-- `terminalSucceeded`.
abbrev any_active : List String → List Edge → Bool
any_active activations [] = false
any_active activations (e ∷ es) =
    if contains activations (label e.from_key e.to_key) then true else any_active activations es

pub leaf_keys : Graph → List String → List NodeState → List String
leaf_keys g activations [] = []
leaf_keys g activations (s ∷ ss) =
    if same_status s.status succeeded
    then if any_active activations (outgoing g s.node)
      then leaf_keys g activations ss
      else s.node ∷ leaf_keys g activations ss
    else leaf_keys g activations ss

abbrev last_of : List String → Option String
last_of [] = none
last_of (k ∷ []) = some k
last_of (k ∷ l ∷ ks) = last_of (l ∷ ks)

abbrev or_else : Option String → Option String → Option String
or_else none o = o
or_else (some k) o = some k

unfoldable pub terminal_succeeded : Graph → List NodeState → List String → Option String
unfolding leaf_keys sort_by first_state outgoing
terminal_succeeded g states activations =
    or_else (last_of (sort_by str_le (leaf_keys g activations states)))
      (first_state states succeeded)
