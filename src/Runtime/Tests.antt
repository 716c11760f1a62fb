-- ===== src/Runtime/Tests.antt =====
-- The worker's loop on a model that calls a tool and then answers.
use duraclaw.Json.{is_space, null, text, end, field}
use duraclaw.Providers.{
  ModelConfig, split_slash, canonical, normalize_provider, parse_model_ref, model_key, add_each,
  resolve_candidates,
}
use duraclaw.Runtime.Aliases.{cons_trimmed, trim_left, trim_right, trim, original_name}
use duraclaw.Runtime.Calls.{
  Call, Outside, enforce, demand, planned, is_internal, index_rows, check_limit, execute_all,
  execute_call, execute_registered, execute_fresh, execute_tool_calls, normalize_calls,
}
use duraclaw.Runtime.Limits.Calls.{Separate}
use duraclaw.Runtime.Loop.{
  Message, given, Response, Model, allowed_names, tool_calls_for_execution, candidates, pass_over,
  try_candidates, call_model, should_require_tool_use, max_iterations_for_run, failing_step,
  ensure_runnable, run_tools, suppress, without_calls, with_calls, after_model, iterate,
  run_iterations, agent_loop,
}
use duraclaw.Runtime.Loop.Answered.{AsksNothing, agent_loop-AsksNothing}
use duraclaw.Runtime.Loop.Chosen.{Chooses, tool_calls_for_execution-chosen}
use duraclaw.Runtime.Loop.Counted.{CalledAtMost, agent_loop-CalledAtMost}
use duraclaw.Runtime.Once.{IsOnce}
use duraclaw.Runtime.Store.{
  World, ok, ◌>>=◌, return, fail, with_world, attempt, on_error, wait, call, complete_rows,
  finish_step, finished_once, start_model_call, start_tool_call, complete_tool_call,
  completed_non_retryable, tool_execution_count, start_run_step, complete_run_step, checkpoint,
  plain_call,
}
use duraclaw.Shared.{
  ◌≡◌, refl, arith, true, false, List, [], ◌∷◌, String, Option, none, some, ltb, length,
  if◌then◌else◌,
}
use duraclaw.Tools.{Tool, plain, gave, retryable, execute, validate_args, within}

abbrev send : Tool
send = record { name = "send"; parameters = end; retries = some false }

abbrev send_call : Call
send_call = record { id = "call-1"; name = "send"; arguments = field "to" (text "me") end }

abbrev other_call : Call
other_call = record { id = "call-2"; name = "delete"; arguments = end }

abbrev outside : Outside
outside = record {
  fails = λ t. false;
  denies = λ stage subject t. false;
  registry = send ∷ [];
  bindings = [];
  aliases = record { original_to_alias = []; alias_to_original = [] };
  max_tool_calls = 2;
  args_hash = λ k args. "h";
  tool_allowed = λ k t. true;
  ran = λ c w.
      gave (record { for_llm = plain "sent"; artifacts = null; is_error = false; cause = false });
  has_client = λ s. true;
  mcp_allowed = λ s t u. true;
  mcp_result = λ c w. none;
  current_time = λ args t. none;
  workflow_allowed = λ k t. true;
  run_graph = λ k input w. (none, w);
}

abbrev asks : List Call → Response
asks calls = record { content = ""; tool_calls = calls; finish_reason = "tool_calls" }

-- The model sends twice what may be sent once, and then answers.
abbrev replies : World → Option Response
replies w = some (if ltb w.model_calls 2 then asks (send_call ∷ []) else asks [])

abbrev configured : ModelConfig
configured = record { primary = "duraclaw"; fallbacks = [] }

abbrev pub model : Model
model = record {
  calls = outside;
  to_lower = λ s. s;
  model_config = configured;
  default_provider = "mock";
  has_provider = λ p. true;
  quota_allows = λ t. true;
  chat = λ c messages defs must w. replies w;
  done = λ t. false;
  visible = λ s. s;
  seen_state = λ w. some "running";
  lease_extended = λ w. some true;
  worker_iterations = 6;
  configured_iterations = 0;
  interleave = false;
}

abbrev pub fresh : World
fresh = record {
  tool_calls = [];
  mcp_calls = [];
  steps = [];
  checkpoints = [];
  run_state = "running";
  sent = [];
  model_calls = 0;
  clock = 0;
}

abbrev hello : List Message
hello = given "user" "send it" ∷ []

abbrev pub defs : List String
defs = "send" ∷ []

-- The tool runs once, although it is called twice, and the last of three answers is returned.
sent_once :
    ((agent_loop model hello defs false fresh).0 ≡ ok (some (asks [])))
    × (length (agent_loop model hello defs false fresh).1.tool_calls ≡ 1)
unfolding agent_loop run_iterations iterate after_model with_calls without_calls suppress run_tools
    ensure_runnable failing_step max_iterations_for_run should_require_tool_use start_model_call
    pass_over try_candidates candidates resolve_candidates add_each model_key parse_model_ref
    normalize_provider canonical split_slash trim_left trim_right cons_trimmed is_space call_model
    tool_calls_for_execution allowed_names plain_call checkpoint complete_run_step start_run_step
    tool_execution_count completed_non_retryable complete_tool_call start_tool_call finished_once
    finish_step complete_rows call wait on_error attempt with_world fail return ◌>>=◌
    normalize_calls execute_tool_calls execute_fresh execute_registered execute_call execute_all
    check_limit index_rows is_internal planned demand enforce original_name trim retryable execute
    validate_args within
sent_once = (refl, refl)

blocked_tools_run :
    tool_calls_for_execution (other_call ∷ []) false (allowed_names []) ≡ (other_call ∷ [], 0)
unfolding tool_calls_for_execution allowed_names
blocked_tools_run = refl

pub fresh-IsOnce : IsOnce fresh
fresh-IsOnce = (tt, λ k. omega arith)

pub separate : Separate outside
separate k b e = cc

agent_loop-CalledAtMost_example : CalledAtMost 6 (agent_loop model hello defs false fresh).1
unfolding max_iterations_for_run candidates resolve_candidates add_each model_key parse_model_ref
    normalize_provider canonical split_slash trim trim_left trim_right cons_trimmed is_space
agent_loop-CalledAtMost_example =
    agent_loop-CalledAtMost model hello defs false fresh (λ k i w. refl)

agent_loop-AsksNothing_example : AsksNothing defs (some (asks []))
agent_loop-AsksNothing_example =
    agent_loop-AsksNothing model hello defs false fresh (some (asks [])) sent_once.0

abbrev both : List Call
both = send_call ∷ other_call ∷ []

-- With interleaving the first of two calls is executed.
first_only : tool_calls_for_execution both true [] ≡ (send_call ∷ [], 1)
unfolding tool_calls_for_execution
first_only = refl

tool_calls_for_execution-chosen_example :
    Chooses both true defs (tool_calls_for_execution both true defs)
tool_calls_for_execution-chosen_example = tool_calls_for_execution-chosen both true defs
