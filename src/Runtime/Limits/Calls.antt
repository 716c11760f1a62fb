-- ===== src/Runtime/Limits/Calls.antt =====
-- The tool calls of an answer add as many executions as are planned at most.
use duraclaw.Runtime.Calls.{
  Call, Binding, Outside, Completed, prior_of, is_known, is_internal, call_key, enforce, demand,
  execute_mcp_tool, execute_bound, execute_internal, after_run, execute_fresh, or_replay,
  execute_registered, binding_of, by_binding, execute_call,
}
use duraclaw.Runtime.Keeps.{Keeps-return, Keeps-fail, Keeps-if, ◌and◌, wait-Keeps, plain_call-Keeps}
use duraclaw.Runtime.Keeps.Tools.{
  enforce-Keeps, demand-Keeps, execute_internal-Keeps, GraphsKeep, StartsNoTool, StartsNoMcp,
  finish_mcp_call-Keeps,
}
use duraclaw.Runtime.Limits.{
  Within, Within-Closed, Adds, none_added, Adds-weaken, Adds-return, Adds-with_world, Adds-bind,
  Adds-after, Adds-call, length-complete_rows,
}
use duraclaw.Runtime.Store.{
  Output, ◌>>=◌, return, wait, start_tool_call, complete_tool_call, start_mcp_call,
}
use duraclaw.Shared.{
  length, ap, ℕ, ◌≤◌, ◌≡◌, refl, arith, Bool, true, false, ◌||◌, String, Option, none, some,
  if◌then◌else◌, length-append,
}
use duraclaw.Tools.{ToolResult, retryable, execute}

start_tool_call-Adds :
    (fails : ℕ → Bool) (k h : String) (b : Bool) → Adds 1 (start_tool_call fails k h b)
unfolding start_tool_call
start_tool_call-Adds fails k h b =
    Adds-call 1 fails _ _ (λ w. omega (arith, length-append w.tool_calls))

start_mcp_call-Adds :
    (fails : ℕ → Bool) (server tool : String) → Adds 1 (start_mcp_call fails server tool)
unfolding start_mcp_call
start_mcp_call-Adds fails server tool =
    Adds-call 1 fails _ _ (λ w. omega (arith, length-append w.mcp_calls))

complete_tool_call-Adds :
    (fails : ℕ → Bool) (i : ℕ) (out : Output) → Adds 0 (complete_tool_call fails i out)
unfolding complete_tool_call
complete_tool_call-Adds fails i out =
    Adds-call 0 fails _ _ (λ w. omega (arith, length-complete_rows i out w.tool_calls))

module _ (o : Outside) where
  enforce-Adds : (stage subject : String) → Adds 0 (enforce o stage subject)
  enforce-Adds stage subject = none_added _ (λ b. enforce-Keeps (Within-Closed b) o stage subject)

  demand-Adds : (test : ℕ → Bool) → Adds 0 (demand o test)
  demand-Adds test = none_added _ (λ b. demand-Keeps (Within-Closed b) o test)

  wait-Adds : Adds 0 wait
  wait-Adds = none_added _ (λ b. wait-Keeps (Within-Closed b))

  execute_mcp_tool-Adds : (b : Binding) (c : Call) → Adds 1 (execute_mcp_tool o b c)
  unfolding execute_mcp_tool
  execute_mcp_tool-Adds b c =
      Adds-bind 0 1 _ _ (none_added _ (λ b. plain_call-Keeps (Within-Closed b) o.fails)) λ u.
        Adds-bind 0 1 _ _ (demand-Adds _) λ u. Adds-bind 0 1 _ _ (demand-Adds _) λ u.
          Adds-bind 1 0 _ _ (start_mcp_call-Adds o.fails b.server b.tool) λ id.
            Adds-with_world 0 _
              (λ w. none_added _ (λ b. finish_mcp_call-Keeps (Within-Closed b) o id _))

  execute_bound-Adds : (m : Completed) (c : Call) (b : Binding) → Adds 1 (execute_bound o m c b)
  unfolding execute_bound
  execute_bound-Adds m c b = Adds-bind 0 1 _ _ (enforce-Adds _ _) λ u.
      Adds-bind 1 0 _ _ (execute_mcp_tool-Adds b c)
        λ r. Adds-bind 0 0 _ _ (enforce-Adds _ _) λ u. Adds-return _

  after_run-Adds : (m : Completed) (c : Call) (r : ToolResult) → Adds 0 (after_run o m c r)
  after_run-Adds m c r = none_added _ λ b.
      Keeps-if _ _ _ (Keeps-fail _) (enforce-Keeps (Within-Closed b) o _ _ and λ u. Keeps-return _)

  execute_fresh-Adds : (m : Completed) (c : Call) → Adds 1 (execute_fresh o m c)
  unfolding execute_fresh
  execute_fresh-Adds m c = Adds-bind 1 0 _ _ (start_tool_call-Adds o.fails _ _ _) λ id.
      Adds-with_world 0 _ λ w. Adds-bind 0 0 _ _ wait-Adds λ u.
        Adds-bind 0 0 _ _ (complete_tool_call-Adds o.fails id _)
          λ u. after_run-Adds m c (execute o.registry c.name c.arguments (o.ran c w))

  -- Whether a call is counted whenever it is met.
  abbrev pub is_free : Call → Bool
  is_free c = is_internal c.name || retryable o.registry c.name

  abbrev pub known : String → Completed → Bool
  known k m = is_known (prior_of k m)

  -- The executions that one call may add.
  abbrev pub cost : Completed → Call → ℕ
  cost m c = if is_free c then 1 else if known (call_key o c) m then 0 else 1

  or_replay-Adds :
      (m : Completed) (c : Call) (r : Option Output)
      → Adds (if is_known r then 0 else 1) (or_replay o m c r)
  or_replay-Adds m c none = execute_fresh-Adds m c
  or_replay-Adds m c (some out) = Adds-return _

  registered_choice :
      (m : Completed) (c : Call) (b : Bool)
      → Adds
          (if b then 1 else if known (call_key o c) m then 0 else 1)
          (if b then execute_fresh o m c else or_replay o m c (prior_of (call_key o c) m))
  registered_choice m c true = execute_fresh-Adds m c
  registered_choice m c false = or_replay-Adds m c _

  execute_registered-Adds :
      (m : Completed) (c : Call)
      → Adds
          (if retryable o.registry c.name then 1 else if known (call_key o c) m then 0 else 1)
          (execute_registered o m c)
  unfolding execute_registered
  execute_registered-Adds m c =
      Adds-after _ _ _ (enforce-Adds _ _) λ u. registered_choice m c (retryable o.registry c.name)

  -- No workflow of the run starts a call that counts.
  abbrev pub StartsNone : Type 0
  StartsNone = StartsNoTool o × StartsNoMcp o

  pub Within-GraphsKeep : StartsNone → (b : ℕ) → GraphsKeep (Within b) o
  Within-GraphsKeep quiet b k i w p =
      omega (arith, ap (λ rs. length rs) (quiet.0 k i w), ap (λ rs. length rs) (quiet.1 k i w))

  unbound_choice :
      (m : Completed) (c : Call) (b : Bool)
      → StartsNone
      → Adds
          (if b || retryable o.registry c.name then 1 else if known (call_key o c) m then 0 else 1)
          (if b then execute_internal o c >>= (λ t. return (t, m)) else execute_registered o m c)
  unbound_choice m c true quiet = Adds-weaken (omega arith) (
      Adds-bind 0 0 _ _
        (none_added _
          (λ b. execute_internal-Keeps (Within-Closed b) o (Within-GraphsKeep quiet b) c))
        (λ t. Adds-return _))
  unbound_choice m c false quiet = execute_registered-Adds m c

  -- No name of an MCP tool is the name of a tool that may not be run again.
  abbrev pub Separate : Type 0
  Separate =
      (k : String) (b : Binding)
      → binding_of o k o.bindings ≡ some b
      → retryable o.registry k ≡ true

  by_binding-Adds :
      (m : Completed) (c : Call) (r : Option Binding)
      → ((b : Binding) → r ≡ some b → retryable o.registry c.name ≡ true)
      → StartsNone
      → Adds (cost m c) (by_binding o m c r)
  by_binding-Adds m c none s quiet =
      Adds-after _ _ _ (demand-Adds _) λ u. unbound_choice m c (is_internal c.name) quiet
  by_binding-Adds m c (some b) s quiet =
      Adds-weaken (at_least (is_internal c.name) (s b refl)) (execute_bound-Adds m c b)
    where
      at_least :
          (i : Bool) {r : Bool}
          → r ≡ true
          → 1 ≤ (if i || r then 1 else if known (call_key o c) m then 0 else 1)
      at_least true e = omega arith
      at_least false e = rw e (omega arith)

  pub execute_call-Adds :
      (m : Completed) (c : Call) → Separate → StartsNone → Adds (cost m c) (execute_call o m c)
  unfolding execute_call
  execute_call-Adds m c s quiet = by_binding-Adds m c _ (s c.name) quiet
