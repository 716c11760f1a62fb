-- ===== src/Workflow/Cycle.antt =====
-- `hasCycle` (internal/workflow/executor.go): the depth-first search with two colours. The map
-- `visited` is the pair of its level sets: `open` holds the keys with 1, `done` those with 2.
-- The recursion of `visit` takes fuel; the children show how much is enough, and what is found.
mod Steps
pub mod Acyclic
pub mod Found
pub mod Fuel
use duraclaw.Shared.{
  ℕ, zero, suc, Bool, true, false, not, List, [], ◌∷◌, String, str_eq, contains, keep,
  if◌then◌else◌,
}
use duraclaw.Workflow.Graph.{Graph, successors}

pub record Visited : Type 0 where
  pub opened : List String
  pub done : List String

pub data Visit : Type 0 where
  out_of_fuel : Visit
  cyclic : Visit
  clear : Visited → Visit

-- `visited[key] = 1`.
abbrev pub enter : String → Visited → Visited
enter k v = record v { opened = k ∷ v.opened }

-- `visited[key] = 2`.
abbrev pub leave : String → Visited → Visited
leave k v = record { opened = keep (λ x. not (str_eq x k)) v.opened; done = k ∷ v.done }

-- The loop over the edges: the first child with a cycle ends it.
pub visit_each : (Visited → String → Visit) → Visited → List String → Visit
visit_each visit v [] = clear v
visit_each visit v (k ∷ ks) = elim (visit v k) [
  | out_of_fuel ↦ out_of_fuel
  | cyclic ↦ cyclic
  | clear w ↦ visit_each visit w ks
]

pub after_children : String → Visit → Visit
after_children k out_of_fuel = out_of_fuel
after_children k cyclic = cyclic
after_children k (clear w) = clear (leave k w)

pub visit : ℕ → Graph → Visited → String → Visit
visit zero g v k = out_of_fuel
visit (suc fuel) g v k =
    let children = visit_each (visit fuel g) (enter k v) (successors g k) in
    if contains v.opened k
    then cyclic
    else if contains v.done k
    then clear v
    else after_children k children

-- `hasCycle`, over the keys of `g.nodeByKey`.
unfoldable pub has_cycle : ℕ → Graph → List String → Visit
unfolding visit visit_each after_children successors
has_cycle fuel g keys = visit_each (visit fuel g) (record { opened = []; done = [] }) keys
