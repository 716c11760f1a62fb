-- ===== src/Workflow/Validate.antt =====
-- `validateGraph` and what it calls (internal/workflow/executor.go): the checks that a definition
-- passes before a run, in their order, and the start node that they choose. Keys that are empty
-- stand for "none", as in the code. The three searches take one more unit of fuel than there are
-- nodes; `Total` shows that this is enough.
pub mod Start
pub mod Sound
pub mod Refusals
pub mod Total
use duraclaw.Shared.{
  ℕ, suc, Bool, true, false, not, List, [], ◌∷◌, String, Option, none, some, str_eq, str_le,
  contains, length, sort_by, if◌then◌else◌,
}
use duraclaw.Workflow.Graph.{Node, Edge, Graph, node_keys}
use duraclaw.Workflow.Cycle.{Visit, out_of_fuel, cyclic, clear, has_cycle}
use duraclaw.Workflow.Reach.{reachable_from}
use duraclaw.Workflow.Terminal.{can_reach_terminal}

pub data GraphError : Type 0 where
  no_nodes multiple_starts no_start cyclic_graph fuel_spent : GraphError
  unsupported_type missing_from missing_to unreachable no_terminal : String → GraphError

-- A refusal, or what the check gives.
pub data Result {κ} (A : Type κ) : Type κ where
  err : GraphError → Result A
  ok : A → Result A

infixl 5 ◌>>◌ ◌>>=◌
-- `if err != nil { return err }`, with what the call gives and without it.
abbrev pub ◌>>◌ {κ} : {B : Type κ} → Result (Unit {0}) → Result B → Result B
check >> rest = elim check [ err x ↦ err x | ok u ↦ rest ]

abbrev pub ◌>>=◌ {κ ℓ} : {A : Type κ} {B : Type ℓ} → Result A → (A → Result B) → Result B
check >>= rest = elim check [ err x ↦ err x | ok a ↦ rest a ]

abbrev supported_types : List String
supported_types =
    "start" ∷ "checkpoint" ∷ "message" ∷ "end" ∷ "ask_user" ∷ "split" ∷ "merge" ∷ "switch"
    ∷ "condition" ∷ "llm_condition" ∷ "tool" ∷ "mcp" ∷ "tool_call" ∷ "mcp_call" ∷ "model_call"
    ∷ "retrieve_knowledge" ∷ "read_memory" ∷ "write_memory" ∷ "read_preference" ∷ "write_preference"
    ∷ "read_artifact" ∷ "process_artifact" ∷ "write_artifact" ∷ "generate_image" ∷ "generate_audio"
    ∷ "generate_video" ∷ "branch" ∷ "loop" ∷ "transform" ∷ "wait_timer" ∷ "emit_outbound_message"
    ∷ "create_background_job" ∷ "mcp_list_resources" ∷ "mcp_read_resource"
    ∷ "mcp_subscribe_resource" ∷ "mcp_unsubscribe_resource" ∷ "mcp_list_prompts" ∷ "mcp_get_prompt"
    ∷ []

pub supported_node_type : String → Bool
supported_node_type typ = contains supported_types typ

-- The first loop: the types are known, and at most one node is a start node.
pub scan_nodes : String → List Node → Result String
scan_nodes start [] = ok start
scan_nodes start (n ∷ ns) =
    let rest = scan_nodes (if str_eq n.node_type "start" then n.node_key else start) ns in
    if not (supported_node_type n.node_type)
    then err (unsupported_type n.node_type)
    else if str_eq n.node_type "start"
    then if not (str_eq start "") then err multiple_starts else rest
    else rest

abbrev first_or_empty : List String → String
first_or_empty [] = ""
first_or_empty (k ∷ ks) = k

-- `incoming[node.NodeKey]` of `firstRootNode`.
abbrev pub entered : List Edge → String → Bool
entered [] k = false
entered (e ∷ es) k = if str_eq e.to_key k then true else entered es k

pub roots : List Node → List Edge → List String
roots [] es = []
roots (n ∷ ns) es = if entered es n.node_key then roots ns es else n.node_key ∷ roots ns es

pub first_root_node : List Node → List Edge → String
unfolding roots
first_root_node ns es = first_or_empty (sort_by str_le (roots ns es))

abbrev pub or_root : Graph → String → String
or_root g start = if str_eq start "" then first_root_node g.nodes g.edges else start

abbrev require : Bool → GraphError → Result (Unit {0})
require true e = ok tt
require false e = err e

-- Both ends of each edge are keys of nodes.
pub check_edges : List String → List Edge → Result (Unit {0})
check_edges keys [] = ok tt
check_edges keys (e ∷ es) = do
  require (contains keys e.from_key) (missing_from e.from_key)
  require (contains keys e.to_key) (missing_to e.to_key)
  check_edges keys es

abbrev pub no_cycle : Visit → Result (Unit {0})
no_cycle out_of_fuel = err fuel_spent
no_cycle cyclic = err cyclic_graph
no_cycle (clear v) = ok tt

abbrev pub or_spent {ℓ} : {A : Type ℓ} → Option A → Result A
or_spent none = err fuel_spent
or_spent (some a) = ok a

-- The last loop: each node is reachable and leads to a terminal one.
pub check_nodes : ℕ → Graph → List String → List Node → Result (Unit {0})
check_nodes fuel g reachable [] = ok tt
check_nodes fuel g reachable (n ∷ ns) = do
  require (contains reachable n.node_key) (unreachable n.node_key)
  ends ← or_spent (can_reach_terminal fuel n.node_key g [])
  require ends (no_terminal n.node_key)
  check_nodes fuel g reachable ns

abbrev is_empty : List Node → Bool
is_empty [] = true
is_empty (n ∷ ns) = false

abbrev pub fuel_for : Graph → ℕ
fuel_for g = suc (length (node_keys g.nodes))

unfoldable pub validate_graph : Graph → Result String
unfolding scan_nodes supported_node_type first_root_node check_edges check_nodes has_cycle
    reachable_from can_reach_terminal
validate_graph g = do
  require (not (is_empty g.nodes)) no_nodes
  declared ← scan_nodes "" g.nodes
  let start = or_root g declared
  require (not (str_eq start "")) no_start
  check_edges (node_keys g.nodes) g.edges
  no_cycle (has_cycle (fuel_for g) g (node_keys g.nodes))
  reachable ← or_spent (reachable_from (fuel_for g) start g)
  check_nodes (fuel_for g) g reachable g.nodes
  ok start
