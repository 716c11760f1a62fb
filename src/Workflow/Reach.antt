-- ===== src/Workflow/Reach.antt =====
-- `reachableFrom` (internal/workflow/executor.go): the keys that a walk along the edges meets. The
-- set `reachable` is the list of its keys; the recursion of `walk` takes fuel.
pub mod Laws
use duraclaw.Shared.{
  ℕ, zero, suc, List, [], ◌∷◌, String, Option, none, some, contains, if◌then◌else◌,
}
use duraclaw.Workflow.Graph.{Graph, successors}

-- The loop over the edges.
pub walk_each :
    (List String → String → Option (List String)) → List String → List String → Option (List String)
walk_each walk reachable [] = some reachable
walk_each walk reachable (k ∷ ks) = elim (walk reachable k) [
  | none ↦ none
  | some wider ↦ walk_each walk wider ks
]

pub walk : ℕ → Graph → List String → String → Option (List String)
walk zero g reachable k = none
walk (suc fuel) g reachable k =
    let wider = walk_each (walk fuel g) (k ∷ reachable) (successors g k) in
    if contains reachable k then some reachable else wider

unfoldable pub reachable_from : ℕ → String → Graph → Option (List String)
unfolding walk walk_each
reachable_from fuel start g = walk fuel g [] start
