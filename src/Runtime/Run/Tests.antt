-- ===== src/Runtime/Run/Tests.antt =====
-- A delegated run that calls a tool and answers, and one that is refused.
use duraclaw.Json.{is_space, null, end, field}
use duraclaw.Providers.{
  split_slash, canonical, normalize_provider, parse_model_ref, model_key, add_each,
  resolve_candidates,
}
use duraclaw.Runtime.Aliases.{cons_trimmed, trim_left, trim_right, trim, original_name}
use duraclaw.Runtime.Calls.{
  enforce, demand, or_fault, planned, is_internal, index_rows, check_limit, execute_all,
  execute_call, execute_registered, execute_fresh, execute_tool_calls, normalize_calls,
}
use duraclaw.Runtime.Finish.{
  Run, Scope, Service, found, within_quota, moderation_denied, workflow_id_from_input,
  emit_final_outbound, tell_parent, end_delegation, deliver, finalize_assistant_response,
}
use duraclaw.Runtime.Limits.{Within}
use duraclaw.Runtime.Loop.{
  given, allowed_names, tool_calls_for_execution, candidates, pass_over, try_candidates, call_model,
  should_require_tool_use, max_iterations_for_run, failing_step, ensure_runnable, run_tools,
  suppress, without_calls, with_calls, after_model, iterate, run_iterations, agent_loop,
}
use duraclaw.Runtime.Once.{IsOnce}
use duraclaw.Runtime.Run.{
  is_broadcast_generation_run, is_session_greeting_run, is_reminder_due_run, run_workflow_phase,
  build_context_phase, offered_tools, finish, answered_run, converse, work,
  should_scan_agent_delegations, in_scope_run, guarded_run, scoped_run, judged_run, judge_run,
  process, process_claimed, run_once,
}
use duraclaw.Runtime.Run.Ending.{run_once-Tells}
use duraclaw.Runtime.Run.Kept.{run_once-IsOnce, run_once-Within}
use duraclaw.Runtime.Run.Refused.{Untouched, SaysRefusal, run_once-Refuses}
use duraclaw.Runtime.Run.Settled.{Settled, run_once-Settled}
use duraclaw.Runtime.Run.Told.{Tells}
use duraclaw.Runtime.Store.{
  message, outbound, parent_message, parent_outbound, ok, ◌>>=◌, return, fail, with_world, attempt,
  on_error, wait, call, complete_rows, finish_step, finished_once, start_model_call,
  start_tool_call, complete_tool_call, completed_non_retryable, tool_execution_count,
  start_run_step, complete_run_step, checkpoint, set_run_state, plain_call, post, complete_run,
}
use duraclaw.Runtime.Tests.{model, fresh, defs, separate, fresh-IsOnce}
use duraclaw.Shared.{◌≡◌, refl, inl, subst, arith, true, false, [], ◌∷◌, some, str_eq}
use duraclaw.Tools.{retryable, execute, validate_args, within}

abbrev allowed : Scope
allowed = record {
  in_scope = true;
  safe = true;
  moderated = false;
  injection_risk = false;
  recommended_response = "";
}

abbrev service : Service
service = record {
  model = model;
  equal_fold = str_eq;
  has_outbound = true;
  max_refine_depth = 0;
  judge_scope = λ w. some allowed;
  risky = λ said. false;
  delegated = λ w. some [];
  acknowledged = λ ds. "";
  artifacts = λ w. some [];
  policies_allow = λ said t. true;
  context = λ said extra reprs. said;
  prompts = λ said s w. some (given "user" said ∷ []);
  offered = λ s said w. some (defs, false);
  polished = λ said w. "Done.";
  waits = λ t. true;
  deferred = λ w. some 0;
  delegation_of = λ w. found;
  queued = λ w. true;
  quota = λ w. within_quota;
}

abbrev child_run : Run
child_run = record {
  input = field "agent_delegation" null end;
  text = "send it";
  refinement_parent = "";
  refinement_depth = 0;
}

-- The tool is called once, and the answer goes to the user and to the parent.
answered_once :
    ((run_once service child_run fresh).0 ≡ ok true)
    × ((run_once service child_run fresh).1.sent
        ≡ message "Done." false
          ∷ outbound "Done."
          ∷ parent_message "Done."
          ∷ parent_outbound "Done."
          ∷ [])
unfolding run_once process_claimed process judge_run judged_run scoped_run guarded_run in_scope_run
    should_scan_agent_delegations work converse answered_run finish offered_tools
    build_context_phase run_workflow_phase is_broadcast_generation_run is_session_greeting_run
    is_reminder_due_run workflow_id_from_input emit_final_outbound tell_parent end_delegation
    deliver finalize_assistant_response post complete_run set_run_state agent_loop run_iterations
    iterate after_model with_calls without_calls suppress run_tools ensure_runnable failing_step
    max_iterations_for_run should_require_tool_use start_model_call pass_over try_candidates
    candidates resolve_candidates add_each model_key parse_model_ref normalize_provider canonical
    split_slash trim_left trim_right cons_trimmed is_space call_model tool_calls_for_execution
    allowed_names plain_call checkpoint complete_run_step start_run_step tool_execution_count
    completed_non_retryable complete_tool_call start_tool_call finished_once finish_step
    complete_rows call wait on_error attempt with_world fail return ◌>>=◌ normalize_calls
    execute_tool_calls execute_fresh execute_registered execute_call execute_all check_limit
    index_rows is_internal planned demand or_fault enforce original_name trim retryable execute
    validate_args within
answered_once = (refl, refl)

run_once-Tells_example : Tells service child_run [] (run_once service child_run fresh).1
run_once-Tells_example = run_once-Tells service child_run fresh (λ k i w. refl) answered_once.0

run_once-IsOnce_example : IsOnce (run_once service child_run fresh).1
run_once-IsOnce_example = run_once-IsOnce service child_run fresh (λ k i w. refl) fresh-IsOnce

run_once-Within_example : Within 2 (run_once service child_run fresh).1
run_once-Within_example =
    run_once-Within service child_run fresh (omega arith) separate (λ k i w. refl, λ k i w. refl)
      (omega arith)

run_once-Settled_example :
    Settled fresh (run_once service child_run fresh).0 (run_once service child_run fresh).1
run_once-Settled_example = run_once-Settled service child_run fresh (λ t. refl) (λ v e. cc)

abbrev denied : Scope
denied = record allowed { safe = false; moderated = true; recommended_response = "No." }

abbrev strict : Service
strict = record service { judge_scope = λ w. some denied }

no_broadcast : is_broadcast_generation_run strict child_run ≡ false
unfolding is_broadcast_generation_run trim
no_broadcast = refl

run_once-Refuses_example :
    Untouched fresh (run_once strict child_run fresh).1
    × ((run_once strict child_run fresh).0 ≡ ok true
        → SaysRefusal strict child_run [] (run_once strict child_run fresh).1)
run_once-Refuses_example = run_once-Refuses strict child_run fresh no_broadcast (λ v s e.
    let same_scope : denied ≡ s = cc in
    inl (subst (λ x. moderation_denied x ≡ true) same_scope refl))
