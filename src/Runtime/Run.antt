-- ===== src/Runtime/Run.antt =====
-- One run from its claim to its end (internal/runtime/worker.go): `RunOnce`, `process`, `runWorkflowPhase`,
-- `buildContextPhase`. Events, activities, counters and traces, whose errors the code drops, are left out;
-- the recommendations, which run beside the loop, come in with the text that they make of the answer.
pub mod Kept
pub mod Refused
pub mod Settled
pub mod Told
pub mod Judged
pub mod Ending
mod Tests
use duraclaw.Json.{object}
use duraclaw.Runtime.Calls.{GraphOutcome, enforce, demand, or_fault, execute_graph}
use duraclaw.Runtime.Finish.{
  Run, Scope, Service, Quota, within_quota, exceeded, unread, fails, text_field,
  workflow_id_from_input, moderation_denied, finalize_assistant_response, finalize_suppressed,
  complete_out_of_scope_run, complete_moderation_denied_run, fail_delegation_child_run,
  cancel_delegation_child_run,
}
use duraclaw.Runtime.Aliases.{trim}
use duraclaw.Runtime.Loop.{Response, is_stopped, failing_step, ensure_runnable, agent_loop}
use duraclaw.Runtime.Store.{
  Failure, fault, stopped, Result, ok, err, M, ◌>>=◌, ◌>>◌, return, fail, with_world, wait, attempt,
  start_run_step, complete_run_step, checkpoint, set_run_state, plain_call,
}
use duraclaw.Shared.{
  ℕ, Bool, true, false, not, ◌&&◌, ◌||◌, List, [], ◌∷◌, String, Option, none, some, str_eq,
  if◌then◌else◌,
}

module _ (o : Service) (r : Run) where
  -- `isBroadcastGenerationRun`, `isSessionGreetingRun`, `isReminderDueRun`.
  unfoldable pub is_broadcast_generation_run : Bool
  unfolding trim
  is_broadcast_generation_run = o.equal_fold (text_field "event_type" r) "broadcast_generation"

  unfoldable pub is_session_greeting_run : Bool
  unfolding trim
  is_session_greeting_run = o.equal_fold (text_field "system_event" r) "session_greeting"

  unfoldable pub is_reminder_due_run : Bool
  unfolding trim
  is_reminder_due_run = o.equal_fold (text_field "event_type" r) "reminder_due"

  -- `mergePromptInjectionRisk`.
  abbrev pub merge_prompt_injection_risk : Scope → String → Scope
  merge_prompt_injection_risk s said =
      if o.risky said then record s { injection_risk = true } else s

  -- The workflow of a run has returned.
  unfoldable pub after_workflow : String → ℕ → GraphOutcome → M String
  after_workflow workflow id out =
      if str_eq out.state "awaiting_user"
      then (complete_run_step (fails o r) id "succeeded" >> fail (stopped "awaiting_user"))
      else (failing_step o.model id (enforce o.model.calls "post_workflow" workflow)
          >> (complete_run_step (fails o r) id "succeeded"
              >> (checkpoint (fails o r) "workflow_graph_complete" >> return out.output_text)))

  unfoldable pub run_named_workflow : String → M String
  run_named_workflow workflow = do
    demand o.model.calls (o.model.calls.workflow_allowed workflow)
    plain_call (fails o r)
    plain_call (fails o r)
    plain_call (fails o r)
    id ← start_run_step (fails o r) "workflow_graph"
    failing_step o.model id (enforce o.model.calls "pre_workflow" workflow)
    out ← failing_step o.model id (execute_graph o.model.calls workflow (object r.input))
    after_workflow workflow id out

  -- `runWorkflowPhase`; the three reads are of the model, the tools and the servers.
  unfoldable pub run_workflow_phase : M String
  unfolding workflow_id_from_input
  run_workflow_phase =
      if str_eq (workflow_id_from_input r) ""
      then return ""
      else run_named_workflow (workflow_id_from_input r)

  -- `buildContextPhase`.
  unfoldable pub build_context_phase : String → M String
  build_context_phase extra = do
    id ← start_run_step (fails o r) "build_context"
    reprs ← failing_step o.model id (with_world (λ w. or_fault o.model.calls (o.artifacts w)))
    complete_run_step (fails o r) id "succeeded"
    return (o.context r.text extra reprs)

  -- The tools that the model is offered, and whether it must use one.
  unfoldable pub offered_tools : Scope → String → M (List String × Bool)
  unfolding is_broadcast_generation_run is_session_greeting_run is_reminder_due_run
  offered_tools s said =
      if is_broadcast_generation_run || is_session_greeting_run || is_reminder_due_run
        || s.injection_risk
      then return ([], false)
      else with_world (λ w. or_fault o.model.calls (o.offered s said w))

  unfoldable pub finish : String → M (Unit {0})
  finish answer =
      if is_broadcast_generation_run
      then finalize_suppressed o r
      else finalize_assistant_response o r answer

  -- The loop always returns a response; the code reads it without a test.
  unfoldable pub answered_run : Option Response → M (Unit {0})
  answered_run none = fail fault
  answered_run (some a) =
      checkpoint (fails o r) "provider_complete"
      >> with_world (λ w. wait >> finish (o.polished a.content w))

  unfoldable pub converse : Scope → String → M (Unit {0})
  converse s said = do
    messages ← with_world (λ w. or_fault o.model.calls (o.prompts said s w))
    tools ← offered_tools s said
    answer ← agent_loop o.model messages tools.0 tools.1
    answered_run answer

  -- The phases of a run that is in scope and delegates to nobody.
  unfoldable pub work : Scope → M (Unit {0})
  work s = do
    extra ← run_workflow_phase
    said ← build_context_phase extra
    ensure_runnable o.model
    demand o.model.calls (o.policies_allow said)
    enforce o.model.calls "pre_run" said
    converse (merge_prompt_injection_risk s said) said

  -- `shouldScanAgentDelegations`.
  unfoldable pub should_scan_agent_delegations : Scope → Bool
  should_scan_agent_delegations s =
      not is_broadcast_generation_run && not s.injection_risk && str_eq r.refinement_parent ""

  abbrev pub by_delegated : Scope → List String → M (Unit {0})
  by_delegated s [] = work s
  by_delegated s (d ∷ ds) = finalize_assistant_response o r (o.acknowledged (d ∷ ds))

  unfoldable pub in_scope_run : Scope → M (Unit {0})
  unfolding should_scan_agent_delegations
  in_scope_run s =
      if should_scan_agent_delegations s
      then with_world (λ w. or_fault o.model.calls (o.delegated w)) >>= (λ ds. by_delegated s ds)
      else work s

  -- A workflow is not run for a message that seems to inject a prompt.
  unfoldable pub guarded_run : Scope → M (Unit {0})
  unfolding workflow_id_from_input
  guarded_run s =
      if s.injection_risk && not (str_eq (workflow_id_from_input r) "")
      then complete_out_of_scope_run o r
          "I can help with the request in chat, but I cannot run a workflow from a message that includes instructions to bypass or alter my safeguards."
      else in_scope_run s

  unfoldable pub scoped_run : Scope → M (Unit {0})
  scoped_run s =
      if s.in_scope then guarded_run s else complete_out_of_scope_run o r s.recommended_response

  unfoldable pub judged_run : Scope → M (Unit {0})
  judged_run s =
      if moderation_denied s
      then complete_moderation_denied_run o r s.recommended_response
      else scoped_run s

  abbrev trusted : Scope
  trusted = record {
    in_scope = true;
    safe = false;
    moderated = false;
    injection_risk = false;
    recommended_response = "";
  }

  unfoldable pub judge_run : M (Unit {0})
  judge_run =
      if is_broadcast_generation_run
      then in_scope_run trusted
      else with_world (λ w. or_fault o.model.calls (o.judge_scope w)) >>= (λ s. judged_run s)

  -- `process`; the second call is `MarkRunInterruptWindowStarted`.
  unfoldable pub process : M (Unit {0})
  process = do
    set_run_state (fails o r) "running"
    plain_call (fails o r)
    ensure_runnable o.model
    checkpoint (fails o r) "started"
    judge_run

  -- What `RunOnce` does after an error of `process`.
  unfoldable pub stop_run : String → M Bool
  stop_run s =
      if is_stopped o.model s
      then (attempt (cancel_delegation_child_run o r s) >> fail (stopped s))
      else fail (stopped s)

  unfoldable pub fail_run : Failure → M Bool
  fail_run e =
      attempt (set_run_state (fails o r) "failed")
      >> (attempt (fail_delegation_child_run o r) >> fail e)

  abbrev pub give_up_run : Failure → M Bool
  give_up_run (stopped s) = stop_run s
  give_up_run e = fail_run e

  abbrev pub settled : Result (Unit {0}) → M Bool
  settled (ok u) = return true
  settled (err e) = give_up_run e

  unfoldable pub process_claimed : M Bool
  process_claimed w = let (result, v) = process w in settled result v

  abbrev pub by_quota : Quota → M Bool
  by_quota within_quota = wait >> process_claimed
  by_quota exceeded = wait >> (attempt (set_run_state (fails o r) "failed") >> fail fault)
  by_quota unread = wait >> fail fault

  abbrev pub by_claim : Bool → M Bool
  by_claim false = plain_call (fails o r) >> return false
  by_claim true = set_run_state (fails o r) "leased" >> with_world (λ w. by_quota (o.quota w))

  -- `RunOnce`; the first call is `RecoverExpiredLeases`, which frees the runs of other workers, and
  -- `ClaimRun` finds the run queued or not.
  unfoldable pub run_once : M Bool
  run_once = plain_call (fails o r) >> with_world (λ w. by_claim (o.queued w))
