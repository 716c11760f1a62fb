-- ===== src/Runtime/Once/Calls.antt =====
-- The tool calls of an answer keep that a call completes once at most.
use duraclaw.Runtime.Calls.{
  Call, Binding, Outside, Completed, prior_of, is_known, call_key, execute_mcp_tool, execute_bound,
  after_run, execute_fresh, or_replay, execute_registered, unbound_call, by_binding, execute_call,
  execute_all, check_limit, index_rows, normalize_calls, execute_tool_calls, output_of,
}
use duraclaw.Runtime.Keeps.{
  Keeps, Keeps-return, Keeps-fail, Keeps-if, Keeps-with_world, ◌and◌, wait-Keeps, plain_call-Keeps,
  call-Keeps,
}
use duraclaw.Runtime.Keeps.Tools.{
  enforce-Keeps, demand-Keeps, execute_internal-Keeps, StartsNoTool, finish_mcp_call-Keeps,
}
use duraclaw.Runtime.Once.{IsOnce, index_rows-Tracks}
use duraclaw.Runtime.Yields.{
  Yields, Yields-keep, Yields-return, Yields-fail, Yields-with_world, Yields-if, Yields-bind,
  Keeps-of_Yields,
}
use duraclaw.Runtime.Store.{
  Output, World, call, completed_non_retryable, tool_execution_count, start_mcp_call, plain_call,
}
use duraclaw.Shared.{
  ◌≡◌, refl, ap, inl, inr, arith, Bool, true, false, List, [], ◌∷◌, Option, none, some,
  if◌then◌else◌, Bool-cases,
}
use duraclaw.Tools.{ToolResult, retryable, execute}
use duraclaw.Runtime.Once.Rows.{
  Tracked-GraphsKeep, rows-Closed, IsOnce-Closed, Tracked, TrackedCall, Tracked-Closed, plainly,
  RunningRows, MayRun, EndedRows, Ended, start_tool_call-Running, complete_tool_call-Ended,
}

module _ (o : Outside) where
  after_run-Tracked :
      (m : Completed) (c : Call) (r : ToolResult)
      → Yields (Ended o m c) (TrackedCall o) IsOnce (after_run o m c r)
  after_run-Tracked m c r = Yields-if _ _ _ (Yields-fail _ (λ w p. p.0)) (
      Yields-bind _ _
        (Yields-keep (λ w p. p.0) (enforce-Keeps (rows-Closed (EndedRows o m c)) o _ _))
        (λ u. Yields-return _ (λ w p. noted w p (retryable o.registry c.name) refl)))
    where
      noted :
          (w : World)
          → (Ended o) m c w
          → (b : Bool) → retryable o.registry c.name ≡ b
          → (Tracked o) (if b then m else (call_key o c, output_of o r) ∷ m) w
      noted w p true e = (p.0, λ k h. ground (arith, p.1 k h, e))
      noted w p false e = (p.0, λ k h. ground (arith, p.1 k h, e))

  execute_fresh-Tracked :
      (m : Completed) (c : Call)
      → (MayRun o) m c
      → Yields (Tracked o m) (TrackedCall o) IsOnce (execute_fresh o m c)
  unfolding execute_fresh
  execute_fresh-Tracked m c may = Yields-bind _ _ (start_tool_call-Running o m c) λ id.
      Yields-with_world _ λ w.
        Yields-bind _ _
          (Yields-keep (λ w p. p.0.0) (wait-Keeps (rows-Closed (RunningRows o m c id))))
          λ u.
            Yields-bind _ _ (complete_tool_call-Ended o m c id _ may)
              λ u. after_run-Tracked m c (execute o.registry c.name c.arguments (o.ran c w))

  execute_registered-Tracked :
      (m : Completed) (c : Call)
      → Yields (Tracked o m) (TrackedCall o) IsOnce (execute_registered o m c)
  unfolding execute_registered
  execute_registered-Tracked m c =
      Yields-bind _ _ (plainly o m (enforce-Keeps (Tracked-Closed o m) o _ _))
        λ u. by_again (retryable o.registry c.name) refl
    where
      replay :
          (r : Option Output)
          → prior_of (call_key o c) m ≡ r
          → Yields (Tracked o m) (TrackedCall o) IsOnce (or_replay o m c r)
      replay none e = execute_fresh-Tracked m c (λ h. ap is_known e)
      replay (some out) e = Yields-return _ (λ w p. p)

      by_again :
          (b : Bool)
          → retryable o.registry c.name ≡ b
          → Yields
              (Tracked o m)
              (TrackedCall o)
              IsOnce
              (if b then execute_fresh o m c else or_replay o m c (prior_of (call_key o c) m))
      by_again true e = execute_fresh-Tracked m c (λ h. absurd (ground (arith)))
      by_again false e = replay _ refl

  execute_mcp_tool-Keeps :
      (m : Completed) (b : Binding) (c : Call) → Keeps (Tracked o m) (execute_mcp_tool o b c)
  unfolding execute_mcp_tool start_mcp_call
  execute_mcp_tool-Keeps m b c =
      let closed = (Tracked-Closed o) m in
      plain_call-Keeps closed o.fails and λ u. demand-Keeps closed o _ and λ u.
      demand-Keeps closed o _ and λ u. call-Keeps closed o.fails _ _ (λ w p. p) and λ id.
      Keeps-with_world _ (λ w. finish_mcp_call-Keeps closed o id _)

  execute_bound-Tracked :
      (m : Completed) (c : Call) (b : Binding)
      → Yields (Tracked o m) (TrackedCall o) IsOnce (execute_bound o m c b)
  unfolding execute_bound
  execute_bound-Tracked m c b =
      Yields-bind _ _ (plainly o m (enforce-Keeps (Tracked-Closed o m) o _ _)) λ u.
        Yields-bind _ _ (plainly o m (execute_mcp_tool-Keeps m b c)) λ r.
          Yields-bind _ _ (plainly o m (enforce-Keeps (Tracked-Closed o m) o _ _))
            λ u. Yields-return _ (λ w p. p)

module _ (o : Outside) (quiet : StartsNoTool o) where
  unbound_call-Tracked :
      (m : Completed) (c : Call) → Yields (Tracked o m) (TrackedCall o) IsOnce (unbound_call o m c)
  unbound_call-Tracked m c =
      Yields-bind _ _ (plainly o m (demand-Keeps (Tracked-Closed o m) o _)) λ u.
        Yields-if _ _ _
          (Yields-bind _ _
            (plainly o m
              (execute_internal-Keeps (Tracked-Closed o m) o (Tracked-GraphsKeep o quiet m) c))
            (λ t. Yields-return _ (λ w p. p)))
          (execute_registered-Tracked o m c)

  by_binding-Tracked :
      (m : Completed) (c : Call) (r : Option Binding)
      → Yields (Tracked o m) (TrackedCall o) IsOnce (by_binding o m c r)
  by_binding-Tracked m c none = unbound_call-Tracked m c
  by_binding-Tracked m c (some b) = execute_bound-Tracked o m c b

  execute_call-Tracked :
      (m : Completed) (c : Call) → Yields (Tracked o m) (TrackedCall o) IsOnce (execute_call o m c)
  unfolding execute_call
  execute_call-Tracked m c = by_binding-Tracked m c _

  execute_all-Once :
      (m : Completed) (cs : List Call)
      → Yields (Tracked o m) (λ answers. IsOnce) IsOnce (execute_all o m cs)
  unfolding execute_all
  execute_all-Once m [] = Yields-return _ (λ w p. p.0)
  execute_all-Once m (c ∷ cs) =
      Yields-bind _ _ (execute_call-Tracked m c)
        λ r. Yields-bind _ _ (execute_all-Once r.1 cs) λ rest. Yields-return _ (λ w p. p)

  check_limit-Keeps :
      (m : Completed) (calls : List Call) → Keeps (Tracked o m) (check_limit o m calls)
  unfolding check_limit tool_execution_count
  check_limit-Keeps m calls =
      Keeps-if _ _ _
        (call-Keeps (Tracked-Closed o m) o.fails _ _ (λ w p. p) and λ n.
          Keeps-if _ _ _ (Keeps-fail _) (Keeps-return _))
        (Keeps-return _)

  completed-Tracked :
      Yields IsOnce
        (λ rows. (Tracked o) (index_rows rows []))
        IsOnce
        (completed_non_retryable o.fails)
  unfolding completed_non_retryable call
  completed-Tracked = record {
    at = λ w p. elim (Bool-cases (o.fails w.clock)) [
      | inl t ↦ rw t p
      | inr f ↦ rw f (p, λ k. index_rows-Tracks k w.tool_calls [])
    ];
  }

  -- Executing the calls of an answer, with or without an error, keeps that every call that may not be
  -- run again is finished once at most.
  pub execute_tool_calls-IsOnce : (calls : List Call) → Keeps IsOnce (execute_tool_calls o calls)
  unfolding execute_tool_calls
  execute_tool_calls-IsOnce calls = read and λ u. read and λ u. read and λ u. read and λ u.
      read and λ u.
      Keeps-of_Yields (λ w p. p)
        (Yields-bind _ _ completed-Tracked λ rows.
          Yields-bind _ _ (plainly o _ (check_limit-Keeps _ (normalize_calls o calls)))
            λ u. execute_all-Once _ (normalize_calls o calls))
    where
      read : Keeps IsOnce (plain_call o.fails)
      read = plain_call-Keeps IsOnce-Closed o.fails
