-- ===== src/Workflow/Terminal.antt =====
-- `canReachTerminal` (internal/workflow/executor.go): whether some way from a key ends, at a node of
-- type `end` or at one that no edge leaves. Each child gets a copy of the set `seen`.
pub mod Laws
use duraclaw.Shared.{
  ℕ, zero, suc, Bool, true, false, ◌||◌, List, [], ◌∷◌, String, Option, none, some, str_eq,
  contains, if◌then◌else◌,
}
use duraclaw.Workflow.Graph.{Graph, node_by_key, successors}

-- `g.nodeByKey[key].NodeType`; the zero node's type is empty.
abbrev pub node_type_of : Graph → String → String
node_type_of g k = elim (node_by_key g.nodes k) [ none ↦ "" | some n ↦ n.node_type ]

abbrev is_nil : List String → Bool
is_nil [] = true
is_nil (k ∷ ks) = false

-- `node.NodeType == "end" || len(g.outgoing[key]) == 0`.
unfoldable pub is_terminal : Graph → String → Bool
is_terminal g k = str_eq (node_type_of g k) "end" || is_nil (successors g k)

-- The loop over the edges: the first child that ends stops it.
unfoldable pub some_child : (String → Option Bool) → List String → Option Bool
some_child ends [] = some false
some_child ends (k ∷ ks) = elim (ends k) [
  | none ↦ none
  | some b ↦ if b then some true else some_child ends ks
]

unfoldable pub can_reach_terminal : ℕ → String → Graph → List String → Option Bool
unfolding is_terminal some_child
can_reach_terminal zero k g seen = none
can_reach_terminal (suc fuel) k g seen =
    let children = some_child (λ s. can_reach_terminal fuel s g (k ∷ seen)) (successors g k) in
    if contains seen k then some false else if is_terminal g k then some true else children
