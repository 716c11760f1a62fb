-- ===== src/Runtime/Loop.antt =====
-- The loop between the model and the tools (internal/runtime/worker.go): `agentLoopPhase`, `toolCallsForExecution`,
-- `shouldRequireToolUse`, `ensureRunnable`, `maxIterationsForRun`.
pub mod Kept
pub mod Chosen
pub mod Answered
pub mod Counted
use Prim.Native.String.{◌++◌ as join}
use duraclaw.Json.{is_blank}
use duraclaw.Runtime.Aliases.{trim}
use duraclaw.Providers.{Candidate, ModelConfig, resolve_candidates}
pub use duraclaw.Runtime.Calls.{Response}
use duraclaw.Runtime.Calls.{Call, Answer, Content, Outside, enforce, demand, execute_tool_calls}
use duraclaw.Runtime.Store.{
  World, fault, stopped, iterations_exceeded, ok, M, ◌>>=◌, ◌>>◌, return, fail, with_world, wait,
  attempt, start_model_call, on_error, start_run_step, complete_run_step, checkpoint, plain_call,
}
use duraclaw.Shared.{
  ℕ, zero, suc, ◌+◌, ◌-◌, Bool, true, false, not, ◌&&◌, ◌||◌, List, [], ◌∷◌, ◌++◌, String, Option,
  none, some, str_eq, ltb, leb, ◌==◌, if◌then◌else◌, contains, length, keep, take,
}

-- The messages that the loop adds, and any that it is given.
pub data Message : Type 0 where
  given : String → String → Message
  system : String → Message
  assistant : String → List Call → Message
  tool_answer : Answer → Message

-- The configuration of the run's models and whether a provider is registered; whether the quota of the
-- models' usage leaves room, what a provider answers, and whether the context of the run is done; the
-- cleaning of what the model says; what other processes make of the state and the lease of the run; and
-- the run's limits.
pub record Model : Type 0 where
  pub calls : Outside
  pub to_lower : String → String
  pub model_config : ModelConfig
  pub default_provider : String
  pub has_provider : String → Bool
  pub quota_allows : ℕ → Bool
  pub chat : Candidate → List Message → List String → Bool → World → Option Response
  pub done : ℕ → Bool
  pub visible : String → String
  pub seen_state : World → Option String
  pub lease_extended : World → Option Bool
  pub worker_iterations : ℕ
  pub configured_iterations : ℕ
  pub interleave : Bool

-- `allowedToolCallNames`.
unfoldable pub allowed_names : List String → List String
unfolding trim
allowed_names [] = []
allowed_names (d ∷ ds) = if str_eq (trim d) "" then allowed_names ds else trim d ∷ allowed_names ds

-- Whether a call passes the filter: where no name is allowed, every call does.
abbrev pub passes : List String → Call → Bool
passes [] c = true
passes (a ∷ more) c = contains (a ∷ more) c.name

-- `toolCallsForExecution`, with the number of calls that it suppresses.
unfoldable pub tool_calls_for_execution : List Call → Bool → List String → List Call × ℕ
tool_calls_for_execution calls interleave allowed =
    let chosen = keep (passes allowed) calls in
    let suppressed = length calls - length chosen in
    if length chosen == 0
    then ([], suppressed)
    else if not interleave || leb (length calls) 1
    then (chosen, suppressed)
    else (take 1 chosen, (suppressed + length chosen) - 1)

-- `shouldRequireToolUse`.
unfoldable pub should_require_tool_use : Bool → Bool → ℕ → List String → Bool
should_require_tool_use force executed iteration defs =
    force && not executed && leb iteration 2 && ltb 0 (length defs)

-- `maxIterationsForRun`, with `defaultMaxIterations`.
unfoldable pub max_iterations_for_run : ℕ → ℕ → ℕ
max_iterations_for_run worker configured =
    if ltb 0 configured then configured else if ltb 0 worker then worker else 6

-- What the loop carries from one iteration to the next.
pub record State : Type 0 where
  pub messages : List Message
  pub defs : List String
  pub executed : Bool
  pub response : Option Response

pub data Next : Type 0 where
  finished : Response → Next
  again : State → Next

abbrev pub must_call : Message
must_call =
    system
      "You must call the available tool to complete this user request. Do not claim the action is done until the tool result is available."

abbrev pub unavailable : Message
unavailable =
    system
      "The previous tool call request was unavailable. Use the tool results and conversation context already provided to answer directly without calling tools."

abbrev pub answers : List Answer → List Message
answers [] = []
answers (a ∷ rest) = tool_answer a ∷ answers rest

module _ (o : Model) where
  -- `CompleteRunStep` with "failed" where a call of the step fails.
  unfoldable pub failing_step : {A : Type 0} → ℕ → M A → M A
  failing_step id m = on_error m (complete_run_step o.calls.fails id "failed")

  abbrev pub is_stopped : String → Bool
  is_stopped s = str_eq s "cancelled" || str_eq s "expired"

  abbrev pub extended : Option Bool → M (Unit {0})
  extended none = wait >> fail fault
  extended (some b) = wait >> (if b then return tt else fail (stopped "lease_lost"))

  abbrev pub seen : Option String → M (Unit {0})
  seen none = wait >> fail fault
  seen (some s) =
      wait
      >> (if is_stopped s
          then fail (stopped s)
          else with_world (λ w. extended (o.lease_extended w)))

  -- `ensureRunnable`.
  unfoldable pub ensure_runnable : M (Unit {0})
  ensure_runnable = with_world (λ w. seen (o.seen_state w))

  -- The candidates of `chat`.
  abbrev pub or_mock : List Candidate → List Candidate
  or_mock [] = record { provider = "mock"; model = "duraclaw" } ∷ []
  or_mock (c ∷ cs) = c ∷ cs

  unfoldable pub candidates : List Candidate
  unfolding resolve_candidates
  candidates = or_mock (resolve_candidates o.to_lower o.model_config o.default_provider)

  -- A candidate has failed: its row is completed with the error, and the next one is tried unless the
  -- context is done.
  unfoldable pub pass_over : M Response → M Response
  pass_over rest =
      attempt (plain_call o.calls.fails) >> (demand o.calls (λ t. not (o.done t)) >> rest)

  -- A provider has answered: the row is completed, and the usage recorded.
  abbrev pub replied : M Response → Option Response → M Response
  replied rest none = wait >> pass_over rest
  replied rest (some r) =
      wait >> (plain_call o.calls.fails >> (plain_call o.calls.fails >> return r))

  -- The loop of `chat`: after the quota is checked, a row is written for the call of each candidate.
  unfoldable pub try_candidates : State → Bool → List Candidate → M Response
  try_candidates s must [] = fail fault
  try_candidates s must (c ∷ cs) = do
    demand o.calls o.quota_allows
    start_model_call o.calls.fails
    if o.has_provider c.provider
        then with_world
            (λ w. replied (try_candidates s must cs) (o.chat c s.messages s.defs must w))
        else pass_over (try_candidates s must cs)

  -- `chat`, with the read of the configuration, and the cleaning of what is said.
  unfoldable pub call_model : State → Bool → M Response
  call_model s must =
      plain_call o.calls.fails
      >> (try_candidates s must candidates
          >>= (λ r. return (record r { content = o.visible r.content })))

  -- The end of an iteration whose tools have run: past the last one the loop gives up.
  abbrev pub after_tools : ℕ → ℕ → State → M Next
  after_tools limit iteration s =
      if iteration == limit then fail (iterations_exceeded limit) else return (again s)

  -- The tool calls of an iteration are executed, and their results are handed to the model.
  unfoldable pub run_tools : ℕ → ℕ → State → Response → List Call → M Next
  run_tools limit iteration s r calls = do
    id ← start_run_step o.calls.fails "tool_execution"
    results ← failing_step id (execute_tool_calls o.calls calls)
    complete_run_step o.calls.fails id "succeeded"
    checkpoint o.calls.fails "tools_complete"
    after_tools limit iteration (record s {
      messages = (s.messages ++ assistant r.content calls ∷ []) ++ answers results;
      executed = true;
      response = some r;
    })

  -- No call of the answer may be executed.
  unfoldable pub suppress : State → Response → ℕ → M Next
  suppress s r suppressed =
      if is_blank r.content && ltb 0 suppressed
      then (checkpoint o.calls.fails "tools_suppressed"
          >> return (
              again (record s {
                messages = s.messages ++ unavailable ∷ [];
                defs = [];
                response = some r;
              })))
      else (checkpoint o.calls.fails "tools_suppressed" >> return (finished r))

  abbrev pub chosen_calls : ℕ → ℕ → State → Response → List Call × ℕ → M Next
  chosen_calls limit iteration s r ([], n) = suppress s r n
  chosen_calls limit iteration s r (c ∷ cs, n) = run_tools limit iteration s r (c ∷ cs)

  -- The answer has no tool calls.
  unfoldable pub without_calls : State → Bool → Response → M Next
  without_calls s must r =
      if must
      then return (again (record s { messages = s.messages ++ must_call ∷ []; response = some r }))
      else return (finished r)

  unfoldable pub with_calls : ℕ → ℕ → State → Response → M Next
  with_calls limit iteration s r =
      chosen_calls limit iteration s r
        (tool_calls_for_execution r.tool_calls o.interleave (allowed_names s.defs))

  -- What follows an answer of the model.
  unfoldable pub after_model : ℕ → ℕ → State → Bool → Response → M Next
  after_model limit iteration s must r =
      if length r.tool_calls == 0 then without_calls s must r else with_calls limit iteration s r

  -- One iteration of `agentLoopPhase`.
  unfoldable pub iterate : Bool → ℕ → ℕ → State → M Next
  iterate force limit iteration s = do
    id ← start_run_step o.calls.fails "model_call"
    failing_step id (enforce o.calls "pre_model" "")
    r ← failing_step id (call_model s (should_require_tool_use force s.executed iteration s.defs))
    failing_step id (enforce o.calls "post_model" "")
    complete_run_step o.calls.fails id "succeeded"
    ensure_runnable
    after_model limit iteration s (should_require_tool_use force s.executed iteration s.defs) r

  abbrev pub follow : (State → M (Option Response)) → Next → M (Option Response)
  follow rest (finished r) = return (some r)
  follow rest (again s) = rest s

  -- The loop, with the iterations that are left; past the last one the latest answer is returned.
  unfoldable pub run_iterations : Bool → ℕ → ℕ → ℕ → State → M (Option Response)
  run_iterations force limit zero iteration s = return s.response
  run_iterations force limit (suc left) iteration s =
      iterate force limit iteration s >>= follow (run_iterations force limit left (iteration + 1))

  -- `agentLoopPhase`; the two reads are of the limit of iterations and of interleaving.
  unfoldable pub agent_loop : List Message → List String → Bool → M (Option Response)
  agent_loop messages defs force =
      plain_call o.calls.fails
      >> (plain_call o.calls.fails
          >> run_iterations force
              (max_iterations_for_run o.worker_iterations o.configured_iterations)
              (max_iterations_for_run o.worker_iterations o.configured_iterations) 1
              (record { messages = messages; defs = defs; executed = false; response = none }))
