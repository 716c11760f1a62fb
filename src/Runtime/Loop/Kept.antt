-- ===== src/Runtime/Loop/Kept.antt =====
-- What the store's calls, the model's calls and the tool calls keep, the loop keeps.
use duraclaw.Runtime.Calls.{Call, execute_tool_calls}
use duraclaw.Runtime.Keeps.{
  Keeps, Keeps-return, Keeps-fail, Keeps-if, Keeps-with_world, Keeps-on_error, Keeps-attempt,
  start_model_call-Keeps, ◌and◌, Closed, wait-Keeps, plain_call-Keeps, checkpoint-Keeps,
  start_run_step-Keeps, complete_run_step-Keeps,
}
use duraclaw.Runtime.Keeps.Tools.{enforce-Keeps, demand-Keeps, StartsNoTool}
use duraclaw.Runtime.Limits.{Within, Within-Closed}
use duraclaw.Runtime.Limits.Calls.{Separate, StartsNone}
use duraclaw.Runtime.Limits.Planned.{execute_tool_calls-Within}
use duraclaw.Runtime.Loop.{
  Message, Response, Model, State, Next, finished, again, failing_step, extended, seen,
  ensure_runnable, pass_over, replied, try_candidates, call_model, run_tools, suppress,
  chosen_calls, allowed_names, tool_calls_for_execution, without_calls, with_calls, after_model,
  iterate, follow, run_iterations, agent_loop,
}
use duraclaw.Runtime.Once.{IsOnce}
use duraclaw.Runtime.Once.Calls.{execute_tool_calls-IsOnce}
use duraclaw.Runtime.Once.Rows.{IsOnce-Closed}
use duraclaw.Runtime.Store.{World, M, one_more_call}
use duraclaw.Providers.{Candidate}
use duraclaw.Shared.{ℕ, zero, suc, ◌+◌, ◌<◌, arith, Bool, List, [], ◌∷◌, String, Option, none, some}

module _ {P : World → Type 0} (c : Closed P) (o : Model) where
  pub failing_step-Keeps :
      {A : Type 0} (id : ℕ) {m : M A} → Keeps P m → Keeps P (failing_step o id m)
  unfolding failing_step
  failing_step-Keeps id k = Keeps-on_error _ _ k (complete_run_step-Keeps c o.calls.fails id _)

  extended-Keeps : (r : Option Bool) → Keeps P (extended o r)
  extended-Keeps none = wait-Keeps c and λ u. Keeps-fail _
  extended-Keeps (some b) = wait-Keeps c and λ u. Keeps-if _ _ _ (Keeps-return _) (Keeps-fail _)

  seen-Keeps : (r : Option String) → Keeps P (seen o r)
  seen-Keeps none = wait-Keeps c and λ u. Keeps-fail _
  seen-Keeps (some s) = wait-Keeps c and λ u.
      Keeps-if _ _ _ (Keeps-fail _) (Keeps-with_world _ (λ w. extended-Keeps _))

  pub ensure_runnable-Keeps : Keeps P (ensure_runnable o)
  unfolding ensure_runnable
  ensure_runnable-Keeps = Keeps-with_world _ (λ w. seen-Keeps _)

  suppress-Keeps : (s : State) (r : Response) (n : ℕ) → Keeps P (suppress o s r n)
  unfolding suppress
  suppress-Keeps s r n =
      Keeps-if _ _ _ (checkpoint-Keeps c o.calls.fails _ and λ u. Keeps-return _)
        (checkpoint-Keeps c o.calls.fails _ and λ u. Keeps-return _)

  without_calls-Keeps :
      (s : State) (must : Bool) (r : Response) → Keeps P (without_calls o s must r)
  unfolding without_calls
  without_calls-Keeps s must r = Keeps-if _ _ _ (Keeps-return _) (Keeps-return _)

module _ {P : World → Type 0} (c : Closed P) (o : Model)
    (tools : (calls : List Call) → Keeps P (execute_tool_calls o.calls calls)) where
  pub run_tools-Keeps :
      (limit iteration : ℕ) (s : State) (r : Response) (calls : List Call)
      → Keeps P (run_tools o limit iteration s r calls)
  unfolding run_tools
  run_tools-Keeps limit iteration s r calls = start_run_step-Keeps c o.calls.fails _ and λ id.
      failing_step-Keeps c o id (tools calls) and λ results.
      complete_run_step-Keeps c o.calls.fails id _ and λ u.
      checkpoint-Keeps c o.calls.fails _ and λ u. Keeps-if _ _ _ (Keeps-fail _) (Keeps-return _)

  chosen-Keeps :
      (limit iteration : ℕ) (s : State) (r : Response) (chosen : List Call × ℕ)
      → Keeps P (chosen_calls o limit iteration s r chosen)
  chosen-Keeps limit iteration s r ([], n) = suppress-Keeps c o s r n
  chosen-Keeps limit iteration s r (k ∷ ks, n) = run_tools-Keeps limit iteration s r (k ∷ ks)

  with_calls-Keeps :
      (limit iteration : ℕ) (s : State) (r : Response) → Keeps P (with_calls o limit iteration s r)
  unfolding with_calls
  with_calls-Keeps limit iteration s r =
      chosen-Keeps limit iteration s r
        (tool_calls_for_execution r.tool_calls o.interleave (allowed_names s.defs))

  pub after_model-Keeps :
      (limit iteration : ℕ) (s : State) (must : Bool) (r : Response)
      → Keeps P (after_model o limit iteration s must r)
  unfolding after_model
  after_model-Keeps limit iteration s must r =
      Keeps-if _ _ _ (without_calls-Keeps c o s must r) (with_calls-Keeps limit iteration s r)

module _ {P : World → Type 0} (c : Closed P) (o : Model)
    (counts : (w : World) → P w → P (one_more_call w))
    (tools : (calls : List Call) → Keeps P (execute_tool_calls o.calls calls)) where
  pass_over-Keeps : {rest : M Response} → Keeps P rest → Keeps P (pass_over o rest)
  unfolding pass_over
  pass_over-Keeps k = Keeps-attempt _ (plain_call-Keeps c o.calls.fails) and λ u.
      demand-Keeps c o.calls _ and λ u. k

  replied-Keeps :
      {rest : M Response} (r : Option Response) → Keeps P rest → Keeps P (replied o rest r)
  replied-Keeps none k = wait-Keeps c and λ u. pass_over-Keeps k
  replied-Keeps (some r) k = wait-Keeps c and λ u. plain_call-Keeps c o.calls.fails and λ u.
      plain_call-Keeps c o.calls.fails and λ u. Keeps-return _

  try_candidates-Keeps :
      (s : State) (must : Bool) (cs : List Candidate) → Keeps P (try_candidates o s must cs)
  unfolding try_candidates
  try_candidates-Keeps s must [] = Keeps-fail _
  try_candidates-Keeps s must (x ∷ cs) = demand-Keeps c o.calls _ and λ u.
      start_model_call-Keeps c o.calls.fails counts and λ u.
      Keeps-if _ _ _ (Keeps-with_world _ (λ w. replied-Keeps _ (try_candidates-Keeps s must cs)))
        (pass_over-Keeps (try_candidates-Keeps s must cs))

  call_model-Keeps : (s : State) (must : Bool) → Keeps P (call_model o s must)
  unfolding call_model
  call_model-Keeps s must = plain_call-Keeps c o.calls.fails and λ u.
      try_candidates-Keeps s must _ and λ r. Keeps-return _

  iterate-Keeps :
      (force : Bool) (limit iteration : ℕ) (s : State) → Keeps P (iterate o force limit iteration s)
  unfolding iterate
  iterate-Keeps force limit iteration s = start_run_step-Keeps c o.calls.fails _ and λ id.
      failing_step-Keeps c o id (enforce-Keeps c o.calls _ _) and λ u.
      failing_step-Keeps c o id (call_model-Keeps s _) and λ r.
      failing_step-Keeps c o id (enforce-Keeps c o.calls _ _) and λ u.
      complete_run_step-Keeps c o.calls.fails id _ and λ u.
      ensure_runnable-Keeps c o and λ u. after_model-Keeps c o tools limit iteration s _ r

  run_iterations-Keeps :
      (force : Bool) (limit left iteration : ℕ) (s : State)
      → Keeps P (run_iterations o force limit left iteration s)
  unfolding run_iterations
  run_iterations-Keeps force limit zero iteration s = Keeps-return _
  run_iterations-Keeps force limit (suc left) iteration s =
      iterate-Keeps force limit iteration s and λ next.
      follows next (λ t. run_iterations-Keeps force limit left (iteration + 1) t)
    where
      follows :
          (next : Next) {rest : State → M (Option Response)}
          → ((t : State) → Keeps P (rest t))
          → Keeps P (follow o rest next)
      follows (finished r) k = Keeps-return _
      follows (again t) k = k t

  pub agent_loop-Keeps :
      (messages : List Message) (defs : List String) (force : Bool)
      → Keeps P (agent_loop o messages defs force)
  unfolding agent_loop
  agent_loop-Keeps messages defs force = plain_call-Keeps c o.calls.fails and λ u.
      plain_call-Keeps c o.calls.fails and λ u. run_iterations-Keeps force _ _ 1 _

-- Whatever the loop between model and tools does, and however it ends, a tool call that may not be run
-- again is finished once at most for its name and arguments, when that held before and no workflow starts one.
pub agent_loop-IsOnce :
    (o : Model) (messages : List Message) (defs : List String) (force : Bool) (w : World)
    → StartsNoTool o.calls
    → IsOnce w
    → IsOnce (agent_loop o messages defs force w).1
agent_loop-IsOnce o messages defs force w quiet p =
    (agent_loop-Keeps IsOnce-Closed o (λ v q. q) (execute_tool_calls-IsOnce o.calls quiet) messages
        defs force).at
      w p

-- A run that has a limit on its tool calls, and is within it, is within it after the loop too, however
-- the loop ends: the rows of tool calls and MCP calls are as many as the limit at most. No name of an
-- MCP tool may be that of a tool that may not be run again, and no workflow starts a call.
pub agent_loop-Within :
    (o : Model) (messages : List Message) (defs : List String) (force : Bool) (w : World)
    → 0 < o.calls.max_tool_calls
    → Separate o.calls
    → StartsNone o.calls
    → Within o.calls.max_tool_calls w
    → Within o.calls.max_tool_calls (agent_loop o messages defs force w).1
agent_loop-Within o messages defs force w pos s quiet p =
    let b = o.calls.max_tool_calls in
    (agent_loop-Keeps (Within-Closed b) o (λ v q. q)
        (execute_tool_calls-Within o.calls b pos (omega arith) s quiet) messages defs force).at
      w p
