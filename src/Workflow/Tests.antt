-- ===== src/Workflow/Tests.antt =====
-- The graph checks and the loop over the queue at small definitions.
use duraclaw.Json.{null, text, object, Fields, end, field, empty}
use duraclaw.Shared.{
  ◌≡◌, ◌≢◌, ◌↔◌, ◌≤◌, ◌+◌, length, refl, inl, inr, true, false, List, [], ◌∷◌, String, none, some,
  In, All, All-In, arith,
}
use duraclaw.Workflow.Graph.{Node, Edge, Graph, Reaches, Loops, successors, incoming}
use duraclaw.Workflow.Activity.{broke}
use duraclaw.Workflow.Cycle.{Visited, clear, cyclic, has_cycle}
use duraclaw.Workflow.Cycle.Acyclic.{has_cycle-clear}
use duraclaw.Workflow.Cycle.Found.{has_cycle-cyclic}
use duraclaw.Workflow.Execute.{Outside, node_or_zero}
use duraclaw.Workflow.Execute.Bounded.{IsBounded, limit_positive}
use duraclaw.Workflow.Queue.{parents_satisfied, activate_outgoing}
use duraclaw.Workflow.Queue.Frame.{state_nodes, ReadiedFrom, activate_outgoing-Readied}
use duraclaw.Workflow.Queue.Laws.{Active, FromSucceeded, parents_satisfied_iff}
use duraclaw.Workflow.Reach.{reachable_from}
use duraclaw.Workflow.Reach.Laws.{reachable_from_iff}
use duraclaw.Workflow.Rounds.{result, run_ready_queue}
use duraclaw.Workflow.Rounds.Count.{run_ready_queue_bounded}
use duraclaw.Workflow.Rounds.Fuel.{run_ready_queue_returns}
use duraclaw.Workflow.Rounds.Limits.{run_ready_queue-IsBounded}
use duraclaw.Workflow.Rounds.Outcome.{run_ready_queue_success}
use duraclaw.Workflow.Rounds.Marked.{IsDone}
use duraclaw.Workflow.Store.{Status, pending, queued, running, succeeded, NodeState, World}
use duraclaw.Workflow.Validate.{ok, err, cyclic_graph, validate_graph}
use duraclaw.Workflow.Validate.Sound.{IsRunnable, validate_graph-IsRunnable}
use duraclaw.Workflow.Validate.Refusals.{Reason}
use duraclaw.Workflow.Validate.Total.{validate_graph-Reason}

abbrev node : String → String → Node
node k t = record { node_key = k; node_type = t; config = empty; retry_policy = empty }

abbrev edge : String → String → Edge
edge k l = record { from_key = k; to_key = l; condition = empty }

-- A diamond: one start, two ways, one end.
abbrev pub diamond : Graph
diamond = record {
  nodes = node "a" "start" ∷ node "b" "message" ∷ node "c" "message" ∷ node "d" "end" ∷ [];
  edges = edge "a" "b" ∷ edge "a" "c" ∷ edge "b" "d" ∷ edge "c" "d" ∷ [];
}

abbrev looped : Graph
looped = record {
  nodes = node "a" "start" ∷ node "b" "message" ∷ node "c" "message" ∷ [];
  edges = edge "a" "b" ∷ edge "b" "c" ∷ edge "c" "b" ∷ [];
}

diamond_passes : validate_graph diamond ≡ ok "a"
unfolding validate_graph
diamond_passes = refl

looped_refused : validate_graph looped ≡ err cyclic_graph
unfolding validate_graph
looped_refused = refl

validate_graph-IsRunnable_example : IsRunnable diamond "a"
validate_graph-IsRunnable_example = validate_graph-IsRunnable diamond "a" diamond_passes

validate_graph-Reason_example : Reason looped cyclic_graph
validate_graph-Reason_example = validate_graph-Reason looped cyclic_graph looped_refused

abbrev keys : List String
keys = "a" ∷ "b" ∷ "c" ∷ "d" ∷ []

abbrev searched : Visited
searched = record { opened = []; done = "a" ∷ "c" ∷ "b" ∷ "d" ∷ [] }

diamond_clear : has_cycle 5 diamond keys ≡ clear searched
unfolding has_cycle
diamond_clear = refl

has_cycle-clear_example : ¬ Loops diamond "b"
has_cycle-clear_example = has_cycle-clear 5 diamond keys searched "b" diamond_clear (inr (inl refl))

looped_cyclic : has_cycle 4 looped ("a" ∷ "b" ∷ "c" ∷ []) ≡ cyclic
unfolding has_cycle
looped_cyclic = refl

has_cycle-cyclic_example : (k : String) × Loops looped k
has_cycle-cyclic_example = has_cycle-cyclic 4 looped ("a" ∷ "b" ∷ "c" ∷ []) looped_cyclic

diamond_reached : reachable_from 5 "b" diamond ≡ some ("d" ∷ "b" ∷ [])
unfolding reachable_from successors
diamond_reached = refl

reachable_from_iff_example : In {A = String} "d" ("d" ∷ "b" ∷ []) ↔ Reaches diamond "b" "d"
reachable_from_iff_example = reachable_from_iff 5 "b" diamond ("d" ∷ "b" ∷ []) "d" diamond_reached

abbrev row : String → Status → NodeState
row k st = record { node = k; status = st; output = null; attempts = 0 }

abbrev pub fresh : World
fresh = record {
  states = row "a" queued ∷ row "b" pending ∷ row "c" pending ∷ row "d" pending ∷ [];
  activations = [];
  node_runs = [];
  run_status = running;
  host_status = running;
  faults = false ∷ false ∷ false ∷ [];
}

abbrev plain : String → String → Fields
plain k t = field "node_key" (text k) (field "node_type" (text t) end)

-- A policy that allows everything, and no node that leaves the engine.
abbrev pub permissive : Outside
permissive = record { allows = λ st id n. true; external = λ id n c p. broke }

fresh_succeeds : (run_ready_queue permissive diamond end fresh).1.run_status ≡ succeeded
unfolding run_ready_queue
fresh_succeeds = refl

fresh_answer :
    (run_ready_queue permissive diamond end fresh).1.states
    ≡ record { node = "a"; status = succeeded; output = object (plain "a" "start"); attempts = 1 }
      ∷ record {
        node = "b";
        status = succeeded;
        output = object (plain "b" "message");
        attempts = 1;
      }
      ∷ record {
        node = "c";
        status = succeeded;
        output = object (plain "c" "message");
        attempts = 1;
      }
      ∷ record { node = "d"; status = succeeded; output = object (plain "d" "end"); attempts = 1 }
      ∷ []
unfolding run_ready_queue
fresh_answer = refl

parents_satisfied_iff_example : (parents_satisfied diamond fresh.states [] "d" ≡ true) ↔ (
    All (λ e. Active [] e → FromSucceeded fresh.states e) (incoming diamond "d")
    × ((e : Edge) × In e (incoming diamond "d") × Active [] e))
parents_satisfied_iff_example = parents_satisfied_iff diamond fresh.states [] "d"

activate_outgoing-Readied_example :
    ReadiedFrom diamond fresh.states (activate_outgoing diamond "a" end fresh).1
activate_outgoing-Readied_example =
    activate_outgoing-Readied diamond "a" end fresh (refl, (refl, (refl, (refl, tt))))

run_ready_queue_returns_example : (run_ready_queue permissive diamond end fresh).0 ≢ none
run_ready_queue_returns_example = run_ready_queue_returns permissive diamond end fresh

run_ready_queue_bounded_example :
    length (run_ready_queue permissive diamond end fresh).1.node_runs ≤ length fresh.node_runs + 100
run_ready_queue_bounded_example = run_ready_queue_bounded permissive diamond end fresh

unstarted-IsBounded :
    (k : String) (st : Status)
    → (node_or_zero diamond k).node_key ≡ k
    → IsBounded diamond (row k st)
unstarted-IsBounded k st e = (e, ground (arith), (λ q. limit_positive diamond k), (λ q. refl))

fresh_states : All (IsBounded diamond) fresh.states
fresh_states = (
  unstarted-IsBounded "a" queued refl,
  (
    unstarted-IsBounded "b" pending refl,
    (unstarted-IsBounded "c" pending refl, (unstarted-IsBounded "d" pending refl, tt)),
  ),
)

-- Every state of the world at the start is within its policy.
fresh-IsBounded : (s : NodeState) → In s fresh.states → IsBounded diamond s
fresh-IsBounded s m = All-In (IsBounded diamond) s fresh.states fresh_states m

run_ready_queue-IsBounded_example :
    (state_nodes (run_ready_queue permissive diamond end fresh).1.states ≡ state_nodes fresh.states)
    × ((s : NodeState)
        → In s (run_ready_queue permissive diamond end fresh).1.states
        → IsBounded diamond s)
run_ready_queue-IsBounded_example =
    run_ready_queue-IsBounded permissive diamond end fresh (refl, (refl, (refl, (refl, tt))))
      fresh-IsBounded

abbrev collected : Fields
collected = elim (run_ready_queue permissive diamond end fresh).0 [
  | none ↦ end
  | some a ↦ elim a [ result st k out ↦ out | _ ↦ end ]
]

fresh_result :
    (run_ready_queue permissive diamond end fresh).0 ≡ some (result succeeded "d" collected)
unfolding run_ready_queue
fresh_result = refl

run_ready_queue_success_example :
    ((run_ready_queue permissive diamond end fresh).1.run_status ≡ succeeded)
    × ((s : NodeState) → In s (run_ready_queue permissive diamond end fresh).1.states → IsDone s)
run_ready_queue_success_example =
    run_ready_queue_success permissive diamond end fresh "d" collected
      (refl, (refl, (refl, (refl, tt)))) fresh-IsBounded fresh_result
