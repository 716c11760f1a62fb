-- ===== src/Runtime/Keeps/Calls.antt =====
-- What does not depend on the rows of calls is kept by the tool calls of an answer.
use duraclaw.Runtime.Calls.{
  Call, Binding, Outside, Completed, prior_of, call_key, execute_mcp_tool, execute_bound, after_run,
  execute_fresh, or_replay, execute_registered, by_binding, execute_call, execute_all, check_limit,
  normalize_calls, execute_tool_calls,
}
use duraclaw.Runtime.Keeps.{
  Keeps, Keeps-return, Keeps-fail, Keeps-if, Keeps-with_world, ◌and◌, Closed, wait-Keeps,
  plain_call-Keeps, call-Keeps,
}
use duraclaw.Runtime.Keeps.Tools.{
  enforce-Keeps, demand-Keeps, GraphsKeep, execute_internal-Keeps, finish_mcp_call-Keeps,
}
use duraclaw.Runtime.Store.{
  Output, ToolRow, McpRow, World, start_tool_call, complete_tool_call, start_mcp_call,
  completed_non_retryable, tool_execution_count, plain_call,
}
use duraclaw.Shared.{ℕ, Bool, List, [], ◌∷◌, String, Option, none, some}
use duraclaw.Tools.{ToolResult, execute}

module _ {P : World → Type 0} (c : Closed P) (o : Outside)
    (with_calls : (w : World) (ts : List ToolRow) → P w → P (record w { tool_calls = ts }))
    (with_mcp : (w : World) (ms : List McpRow) → P w → P (record w { mcp_calls = ms }))
    (graphs : GraphsKeep P o) where
  start_tool_call-Keeps : (k h : String) (b : Bool) → Keeps P (start_tool_call o.fails k h b)
  unfolding start_tool_call
  start_tool_call-Keeps k h b = call-Keeps c o.fails _ _ (λ w p. with_calls w _ p)

  complete_tool_call-Keeps : (i : ℕ) (out : Output) → Keeps P (complete_tool_call o.fails i out)
  unfolding complete_tool_call
  complete_tool_call-Keeps i out = call-Keeps c o.fails _ _ (λ w p. with_calls w _ p)

  start_mcp_call-Keeps : (s t : String) → Keeps P (start_mcp_call o.fails s t)
  unfolding start_mcp_call
  start_mcp_call-Keeps s t = call-Keeps c o.fails _ _ (λ w p. with_mcp w _ p)

  execute_bound-Keeps : (m : Completed) (k : Call) (b : Binding) → Keeps P (execute_bound o m k b)
  unfolding execute_bound execute_mcp_tool
  execute_bound-Keeps m k b = enforce-Keeps c o _ _ and λ u.
      (plain_call-Keeps c o.fails and λ u. demand-Keeps c o _ and λ u. demand-Keeps c o _ and λ u.
      start_mcp_call-Keeps b.server b.tool and λ id.
      Keeps-with_world _ (λ w. finish_mcp_call-Keeps c o id _))
      and λ r. enforce-Keeps c o _ _ and λ u. Keeps-return _

  after_run-Keeps : (m : Completed) (k : Call) (r : ToolResult) → Keeps P (after_run o m k r)
  after_run-Keeps m k r =
      Keeps-if _ _ _ (Keeps-fail _) (enforce-Keeps c o _ _ and λ u. Keeps-return _)

  execute_fresh-Keeps : (m : Completed) (k : Call) → Keeps P (execute_fresh o m k)
  unfolding execute_fresh
  execute_fresh-Keeps m k = start_tool_call-Keeps _ _ _ and λ id. Keeps-with_world _ λ w.
      wait-Keeps c and λ u. complete_tool_call-Keeps id _ and λ u.
      after_run-Keeps m k (execute o.registry k.name k.arguments (o.ran k w))

  or_replay-Keeps : (m : Completed) (k : Call) (r : Option Output) → Keeps P (or_replay o m k r)
  or_replay-Keeps m k none = execute_fresh-Keeps m k
  or_replay-Keeps m k (some out) = Keeps-return _

  execute_registered-Keeps : (m : Completed) (k : Call) → Keeps P (execute_registered o m k)
  unfolding execute_registered
  execute_registered-Keeps m k = enforce-Keeps c o _ _ and λ u.
      Keeps-if _ _ _ (execute_fresh-Keeps m k) (or_replay-Keeps m k (prior_of (call_key o k) m))

  by_binding-Keeps : (m : Completed) (k : Call) (r : Option Binding) → Keeps P (by_binding o m k r)
  by_binding-Keeps m k none = demand-Keeps c o _ and λ u.
      Keeps-if _ _ _ (execute_internal-Keeps c o graphs k and λ t. Keeps-return _)
        (execute_registered-Keeps m k)
  by_binding-Keeps m k (some b) = execute_bound-Keeps m k b

  execute_all-Keeps : (m : Completed) (ks : List Call) → Keeps P (execute_all o m ks)
  unfolding execute_all execute_call
  execute_all-Keeps m [] = Keeps-return _
  execute_all-Keeps m (k ∷ ks) =
      by_binding-Keeps m k _ and λ r. execute_all-Keeps r.1 ks and λ rest. Keeps-return _

  check_limit-Keeps : (m : Completed) (ks : List Call) → Keeps P (check_limit o m ks)
  unfolding check_limit tool_execution_count
  check_limit-Keeps m ks =
      Keeps-if _ _ _
        (call-Keeps c o.fails _ _ (λ w p. p) and λ n.
          Keeps-if _ _ _ (Keeps-fail _) (Keeps-return _))
        (Keeps-return _)

  pub execute_tool_calls-Keeps : (ks : List Call) → Keeps P (execute_tool_calls o ks)
  unfolding execute_tool_calls completed_non_retryable
  execute_tool_calls-Keeps ks = read and λ u. read and λ u. read and λ u. read and λ u.
      read and λ u. call-Keeps c o.fails _ _ (λ w p. p) and λ rows.
      check_limit-Keeps _ (normalize_calls o ks) and λ u. execute_all-Keeps _ (normalize_calls o ks)
    where
      read : Keeps P (plain_call o.fails)
      read = plain_call-Keeps c o.fails
