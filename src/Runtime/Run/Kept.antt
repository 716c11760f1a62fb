-- ===== src/Runtime/Run/Kept.antt =====
-- What the store's calls and the loop between model and tools keep, a whole run keeps.
use duraclaw.Runtime.Calls.{GraphOutcome}
use duraclaw.Runtime.Finish.{Run, Scope, Service, Quota, within_quota, exceeded, unread, fails}
use duraclaw.Runtime.Finish.Kept.{
  finalize-Keeps, suppressed-Keeps, out_of_scope-Keeps, moderation_denied-Keeps,
  fail_delegation-Keeps, cancel_delegation-Keeps,
}
use duraclaw.Runtime.Keeps.{
  Keeps, Keeps-return, Keeps-fail, Keeps-if, Keeps-with_world, Keeps-attempt, ◌and◌, Closed,
  wait-Keeps, plain_call-Keeps, checkpoint-Keeps, start_run_step-Keeps, complete_run_step-Keeps,
  set_run_state-Keeps,
}
use duraclaw.Runtime.Keeps.Tools.{
  GraphsKeep, StartsNoTool, execute_graph-Keeps, enforce-Keeps, demand-Keeps, or_fault-Keeps,
}
use duraclaw.Runtime.Limits.{Within, Within-Closed}
use duraclaw.Runtime.Limits.Calls.{Separate, StartsNone, Within-GraphsKeep}
use duraclaw.Runtime.Limits.Planned.{execute_tool_calls-Within}
use duraclaw.Runtime.Loop.{Message, Response, agent_loop}
use duraclaw.Runtime.Loop.Kept.{failing_step-Keeps, ensure_runnable-Keeps, agent_loop-Keeps}
use duraclaw.Runtime.Once.{IsOnce}
use duraclaw.Runtime.Once.Calls.{execute_tool_calls-IsOnce}
use duraclaw.Runtime.Once.Rows.{OnceRows, IsOnce-Closed, rows-GraphsKeep}
use duraclaw.Runtime.Run.{
  after_workflow, run_named_workflow, run_workflow_phase, build_context_phase, offered_tools,
  finish, answered_run, converse, work, by_delegated, in_scope_run, guarded_run, scoped_run,
  judged_run, judge_run, process, stop_run, fail_run, settled, process_claimed, by_quota, by_claim,
  run_once,
}
use duraclaw.Runtime.Store.{
  World, Notice, posted, Failure, fault, stopped, iterations_exceeded, tool_calls_exceeded, denied,
  tool_failed, Result, ok, err,
}
use duraclaw.Shared.{ℕ, ◌<◌, arith, Bool, true, false, List, [], ◌∷◌, String, Option, none, some}

module _ {P : World → Type 0} (c : Closed P)
    (posts : (w : World) (n : Notice) → P w → P (posted (n ∷ []) w)) (o : Service) (r : Run) where
  stop_run-Keeps : (s : String) → Keeps P (stop_run o r s)
  unfolding stop_run
  stop_run-Keeps s =
      Keeps-if _ _ _
        (Keeps-attempt _ (cancel_delegation-Keeps c.ticks posts o r s) and λ u. Keeps-fail _)
        (Keeps-fail _)

  fail_run-Keeps : (e : Failure) → Keeps P (fail_run o r e)
  unfolding fail_run
  fail_run-Keeps e = Keeps-attempt _ (set_run_state-Keeps c (fails o r) _) and λ u.
      Keeps-attempt _ (fail_delegation-Keeps c.ticks posts o r) and λ u. Keeps-fail _

  settled-Keeps : (result : Result (Unit {0})) → Keeps P (settled o r result)
  settled-Keeps (ok u) = Keeps-return _
  settled-Keeps (err (stopped s)) = stop_run-Keeps s
  settled-Keeps (err fault) = fail_run-Keeps fault
  settled-Keeps (err (iterations_exceeded n)) = fail_run-Keeps (iterations_exceeded n)
  settled-Keeps (err (tool_calls_exceeded n m)) = fail_run-Keeps (tool_calls_exceeded n m)
  settled-Keeps (err (denied s)) = fail_run-Keeps (denied s)
  settled-Keeps (err tool_failed) = fail_run-Keeps tool_failed

  -- What the phases keep, `RunOnce` keeps.
  pub run_once-Keeps_judged : Keeps P (judge_run o r) → Keeps P (run_once o r)
  unfolding run_once process process_claimed
  run_once-Keeps_judged judged =
      plain_call-Keeps c (fails o r) and λ u. Keeps-with_world _ (λ w. by_claim-Keeps _)
    where
      process-Keeps : Keeps P (process o r)
      process-Keeps = set_run_state-Keeps c (fails o r) _ and λ u.
          plain_call-Keeps c (fails o r) and λ u.
          ensure_runnable-Keeps c o.model and λ u. checkpoint-Keeps c (fails o r) _ and λ u. judged

      claimed-Keeps : Keeps P (process_claimed o r)
      claimed-Keeps = record {
        at = λ w p. (settled-Keeps (process o r w).0).at (process o r w).1 (process-Keeps.at w p);
      }

      by_quota-Keeps : (q : Quota) → Keeps P (by_quota o r q)
      by_quota-Keeps within_quota = wait-Keeps c and λ u. claimed-Keeps
      by_quota-Keeps exceeded = wait-Keeps c and λ u.
          Keeps-attempt _ (set_run_state-Keeps c (fails o r) _) and λ u. Keeps-fail _
      by_quota-Keeps unread = wait-Keeps c and λ u. Keeps-fail _

      by_claim-Keeps : (b : Bool) → Keeps P (by_claim o r b)
      by_claim-Keeps false = plain_call-Keeps c (fails o r) and λ u. Keeps-return _
      by_claim-Keeps true =
          set_run_state-Keeps c (fails o r) _ and λ u. Keeps-with_world _ (λ w. by_quota-Keeps _)

module _ {P : World → Type 0} (c : Closed P) (o : Service) (r : Run) where
  pub workflow-Keeps : GraphsKeep P o.model.calls → Keeps P (run_workflow_phase o r)
  unfolding run_workflow_phase run_named_workflow after_workflow
  workflow-Keeps graphs = Keeps-if _ _ _ (Keeps-return _) (
      demand-Keeps c o.model.calls _ and λ u. plain_call-Keeps c (fails o r) and λ u.
      plain_call-Keeps c (fails o r) and λ u. plain_call-Keeps c (fails o r) and λ u.
      start_run_step-Keeps c (fails o r) _ and λ id.
      failing_step-Keeps c o.model id (enforce-Keeps c o.model.calls _ _) and λ u.
      failing_step-Keeps c o.model id (execute_graph-Keeps c o.model.calls graphs _ _) and λ out.
      after-Keeps _ id out)
    where
      after-Keeps :
          (k : String) (id : ℕ) (out : GraphOutcome) → Keeps P (after_workflow o r k id out)
      after-Keeps k id out =
          Keeps-if _ _ _ (complete_run_step-Keeps c (fails o r) id _ and λ u. Keeps-fail _) (
            failing_step-Keeps c o.model id (enforce-Keeps c o.model.calls _ _) and λ u.
            complete_run_step-Keeps c (fails o r) id _ and λ u.
            checkpoint-Keeps c (fails o r) _ and λ u. Keeps-return _)

  pub context-Keeps : (extra : String) → Keeps P (build_context_phase o r extra)
  unfolding build_context_phase
  context-Keeps extra = start_run_step-Keeps c (fails o r) _ and λ id.
      failing_step-Keeps c o.model id (Keeps-with_world _ (λ w. or_fault-Keeps c o.model.calls _))
      and λ reprs. complete_run_step-Keeps c (fails o r) id _ and λ u. Keeps-return _

  pub offered-Keeps : (s : Scope) (said : String) → Keeps P (offered_tools o r s said)
  unfolding offered_tools
  offered-Keeps s said =
      Keeps-if _ _ _ (Keeps-return _) (Keeps-with_world _ (λ w. or_fault-Keeps c o.model.calls _))

module _ {P : World → Type 0} (c : Closed P)
    (posts : (w : World) (n : Notice) → P w → P (posted (n ∷ []) w)) (o : Service) (r : Run)
    (graphs : GraphsKeep P o.model.calls)
    (loop : (messages : List Message) (defs : List String) (force : Bool)
      → Keeps P (agent_loop o.model messages defs force)) where
  answered-Keeps : (a : Option Response) → Keeps P (answered_run o r a)
  unfolding answered_run finish
  answered-Keeps none = Keeps-fail _
  answered-Keeps (some a) = checkpoint-Keeps c (fails o r) _ and λ u. Keeps-with_world _ λ w.
      wait-Keeps c and λ u.
      Keeps-if _ _ _ (suppressed-Keeps c posts o r) (finalize-Keeps c posts o r _)

  converse-Keeps : (s : Scope) (said : String) → Keeps P (converse o r s said)
  unfolding converse
  converse-Keeps s said = Keeps-with_world _ (λ w. or_fault-Keeps c o.model.calls _) and λ messages.
      offered-Keeps c o r s said and λ tools.
      loop messages tools.0 tools.1 and λ a. answered-Keeps a

  work-Keeps : (s : Scope) → Keeps P (work o r s)
  unfolding work
  work-Keeps s = workflow-Keeps c o r graphs and λ extra. context-Keeps c o r extra and λ said.
      ensure_runnable-Keeps c o.model and λ u. demand-Keeps c o.model.calls _ and λ u.
      enforce-Keeps c o.model.calls _ _ and λ u. converse-Keeps _ said

  in_scope-Keeps : (s : Scope) → Keeps P (in_scope_run o r s)
  unfolding in_scope_run
  in_scope-Keeps s =
      Keeps-if _ _ _
        (Keeps-with_world _ (λ w. or_fault-Keeps c o.model.calls _) and λ ds. delegated-Keeps ds)
        (work-Keeps s)
    where
      delegated-Keeps : (ds : List String) → Keeps P (by_delegated o r s ds)
      delegated-Keeps [] = work-Keeps s
      delegated-Keeps (d ∷ ds) = finalize-Keeps c posts o r _

  scoped-Keeps : (s : Scope) → Keeps P (scoped_run o r s)
  unfolding scoped_run guarded_run
  scoped-Keeps s =
      Keeps-if _ _ _ (Keeps-if _ _ _ (out_of_scope-Keeps c posts o r _) (in_scope-Keeps s))
        (out_of_scope-Keeps c posts o r _)

  judged-Keeps : (s : Scope) → Keeps P (judged_run o r s)
  unfolding judged_run
  judged-Keeps s = Keeps-if _ _ _ (moderation_denied-Keeps c posts o r _) (scoped-Keeps s)

  pub run_once-Keeps : Keeps P (run_once o r)
  unfolding judge_run
  run_once-Keeps = run_once-Keeps_judged c posts o r (
      Keeps-if _ _ _ (in_scope-Keeps _)
        (Keeps-with_world _ (λ w. or_fault-Keeps c o.model.calls _) and λ s. judged-Keeps s))

-- One run of the worker, from its claim to its end and however it ends, leaves each tool call that may not
-- be run again finished once at most for its name and arguments, when that held before and no workflow
-- starts a tool call for the run.
pub run_once-IsOnce :
    (o : Service) (r : Run) (w : World)
    → StartsNoTool o.model.calls
    → IsOnce w
    → IsOnce (run_once o r w).1
run_once-IsOnce o r w quiet p =
    let tools = execute_tool_calls-IsOnce o.model.calls quiet in
    (run_once-Keeps IsOnce-Closed (λ w n q. q) o r (rows-GraphsKeep OnceRows o.model.calls quiet)
        (agent_loop-Keeps IsOnce-Closed o.model (λ v q. q) tools)).at
      w p

-- A run that has a limit on its tool calls, and is within it when a worker claims it, is within it when
-- the worker lets go of it, however the run ends: the rows of tool calls and MCP calls are as many as the
-- limit at most. No name of an MCP tool may be that of a tool that may not be run again, and no workflow
-- starts a call for the run.
pub run_once-Within :
    (o : Service) (r : Run) (w : World)
    → 0 < o.model.calls.max_tool_calls
    → Separate o.model.calls
    → StartsNone o.model.calls
    → Within o.model.calls.max_tool_calls w
    → Within o.model.calls.max_tool_calls (run_once o r w).1
run_once-Within o r w pos s quiet p =
    let b = o.model.calls.max_tool_calls in
    let tools = execute_tool_calls-Within o.model.calls b pos (omega arith) s quiet in
    (run_once-Keeps (Within-Closed b) (λ v n q. q) o r (Within-GraphsKeep o.model.calls quiet b)
        (agent_loop-Keeps (Within-Closed b) o.model (λ v q. q) tools)).at
      w p
