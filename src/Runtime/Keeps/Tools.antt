-- ===== src/Runtime/Keeps/Tools.antt =====
-- The actions of the tool calls that start no row of their own.
use duraclaw.Json.{Json}
use duraclaw.Runtime.Calls.{
  Call, GraphOutcome, Outside, enforce, demand, or_fault, ask_user, execute_graph, after_graph,
  run_workflow, execute_internal, finish_mcp_call,
}
use duraclaw.Runtime.Keeps.{
  Keeps, Keeps-return, Keeps-fail, Keeps-with_world, Keeps-attempt, Keeps-if, ◌and◌, Closed,
  wait-Keeps, plain_call-Keeps, set_run_state-Keeps, complete_mcp_call-Keeps,
}
use duraclaw.Runtime.Store.{World}
use duraclaw.Shared.{◌≡◌, ℕ, Bool, String, Option, none, some}

-- Whatever a workflow does, it keeps `P`.
abbrev pub GraphsKeep : (World → Type 0) → Outside → Type 0
GraphsKeep P o = (k : String) (i : Json) (w : World) → P w → P (o.run_graph k i w).1

-- No workflow starts a tool call, or a call of an MCP server, for the run.
abbrev pub StartsNoTool : Outside → Type 0
StartsNoTool o =
    (k : String) (i : Json) (w : World) → (o.run_graph k i w).1.tool_calls ≡ w.tool_calls

abbrev pub StartsNoMcp : Outside → Type 0
StartsNoMcp o = (k : String) (i : Json) (w : World) → (o.run_graph k i w).1.mcp_calls ≡ w.mcp_calls

module _ {P : World → Type 0} (c : Closed P) (o : Outside) where
  pub enforce-Keeps : (stage subject : String) → Keeps P (enforce o stage subject)
  unfolding enforce
  enforce-Keeps stage subject =
      Keeps-with_world _ λ w. Keeps-if _ _ _ (wait-Keeps c and λ u. Keeps-fail _) (wait-Keeps c)

  pub demand-Keeps : (test : ℕ → Bool) → Keeps P (demand o test)
  unfolding demand
  demand-Keeps test =
      Keeps-with_world _ λ w. Keeps-if _ _ _ (wait-Keeps c) (wait-Keeps c and λ u. Keeps-fail _)

  pub or_fault-Keeps : {A : Type 0} (r : Option A) → Keeps P (or_fault o r)
  unfolding or_fault
  or_fault-Keeps none = wait-Keeps c and λ u. Keeps-fail _
  or_fault-Keeps (some a) = wait-Keeps c and λ u. Keeps-return _

  ask_user-Keeps : (k : Call) → Keeps P (ask_user o k)
  unfolding ask_user
  ask_user-Keeps k = enforce-Keeps _ _ and λ u.
      set_run_state-Keeps c o.fails _ and λ u. plain_call-Keeps c o.fails and λ u. Keeps-fail _

  after_graph-Keeps : (k : String) (r : GraphOutcome) → Keeps P (after_graph o k r)
  after_graph-Keeps k r = Keeps-if _ _ _ (Keeps-fail _) (enforce-Keeps _ _ and λ u. Keeps-return _)

  pub finish_mcp_call-Keeps : (id : ℕ) (r : Option Json) → Keeps P (finish_mcp_call o id r)
  unfolding finish_mcp_call
  finish_mcp_call-Keeps id none = wait-Keeps c and λ u.
      Keeps-attempt _ (complete_mcp_call-Keeps c o.fails id _) and λ u. Keeps-fail _
  finish_mcp_call-Keeps id (some r) =
      wait-Keeps c and λ u. complete_mcp_call-Keeps c o.fails id _ and λ u. Keeps-return _

module _ {P : World → Type 0} (c : Closed P) (o : Outside) (graphs : GraphsKeep P o) where
  pub execute_graph-Keeps : (k : String) (i : Json) → Keeps P (execute_graph o k i)
  unfolding execute_graph
  execute_graph-Keeps k i = record {
    at =
        λ w p. (or_fault-Keeps c o (o.run_graph k i w).0).at (o.run_graph k i w).1 (graphs k i w p);
  }

  run_workflow-Keeps : (k : Call) → Keeps P (run_workflow o k)
  unfolding run_workflow
  run_workflow-Keeps k = demand-Keeps c o _ and λ u. demand-Keeps c o _ and λ u.
      enforce-Keeps c o _ _ and λ u. plain_call-Keeps c o.fails and λ u.
      plain_call-Keeps c o.fails and λ u.
      plain_call-Keeps c o.fails and λ u. execute_graph-Keeps _ _ and λ r. after_graph-Keeps c o _ r

  pub execute_internal-Keeps : (k : Call) → Keeps P (execute_internal o k)
  unfolding execute_internal
  execute_internal-Keeps k =
      Keeps-if _ _ _ (Keeps-with_world _ (λ w. or_fault-Keeps c o _) and λ t. Keeps-return _)
        (Keeps-if _ _ _ (ask_user-Keeps c o k) (run_workflow-Keeps k))
