-- ===== src/Runtime/Calls.antt =====
-- The execution of the tool calls of one answer of the model (internal/runtime/worker.go, internal/mcp/executor.go):
-- `executeToolCalls`, `plannedToolExecutions`, `executeInternalTool`, `executeMCPTool`,
-- `completedNonRetryableTools`. Events, counters and the embedding of artifacts are left out: their
-- errors are dropped by the code.

use Prim.Native.String.{◌++◌ as join}
use duraclaw.Json.{Json, null, object, Fields, field_or_null, string_or_empty, is_blank}
use duraclaw.Runtime.Aliases.{AliasSet, original_name}
use duraclaw.Runtime.Store.{
  Output, ToolRow, World, fault, stopped, tool_calls_exceeded, denied, tool_failed, M, ◌>>=◌, ◌>>◌,
  return, fail, with_world, wait, attempt, key_of, row_key, start_tool_call, complete_tool_call,
  completed_non_retryable, tool_execution_count, start_mcp_call, complete_mcp_call, set_run_state,
  plain_call,
}
use duraclaw.Shared.{
  ℕ, ◌+◌, Bool, true, false, not, ◌||◌, List, [], ◌∷◌, String, Option, none, some, str_eq, ltb,
  if◌then◌else◌, contains,
}
use duraclaw.Tools.{Registry, Ran, ToolResult, Said, retryable, execute}

-- `providers.ToolCall`.
pub record Call : Type 0 where
  pub id : String
  pub name : String
  pub arguments : Fields

-- What the loop reads of `providers.LLMResponse`.
pub record Response : Type 0 where
  pub content : String
  pub tool_calls : List Call
  pub finish_reason : String

-- The server and the tool that a name stands for.
pub record Binding : Type 0 where
  pub server : String
  pub tool : String

-- What `ExecuteGraph` returns of a workflow: its state and the text of its output.
pub record GraphOutcome : Type 0 where
  pub state : String
  pub output_text : String

-- What the run's configuration says and what others do. `fails` is of the store; `denies` says whether
-- the policies refuse a stage of a subject at a time; `ran` is what the code of a tool does, and `run_graph` what a
-- workflow returns and what it leaves: its nodes write rows of the same run.
pub record Outside : Type 0 where
  pub fails : ℕ → Bool
  pub denies : String → String → ℕ → Bool
  pub registry : Registry
  pub bindings : List (String × Binding)
  pub aliases : AliasSet
  pub max_tool_calls : ℕ
  pub args_hash : String → Fields → String
  pub tool_allowed : String → ℕ → Bool
  pub ran : Call → World → Ran
  pub has_client : String → Bool
  pub mcp_allowed : String → String → ℕ → Bool
  pub mcp_result : Call → World → Option Json
  pub current_time : Fields → ℕ → Option String
  pub workflow_allowed : String → ℕ → Bool
  pub run_graph : String → Json → World → Option GraphOutcome × World

-- The text that goes back to the model: the name and what the tool says, the name and the recorded
-- output in JSON, the server, the tool and its result in JSON, or a text.
pub data Content : Type 0 where
  said : String → Said → Content
  recorded : String → Output → Content
  mcp_said : String → String → Json → Content
  words : String → Content

-- `toolExecutionResult`.
pub record Answer : Type 0 where
  pub tool_call_id : String
  pub content : Content

-- The completed calls by their keys: the entry that was put in last stands first.
abbrev pub Completed : Type 0
Completed = List (String × Output)

abbrev pub prior_of : String → Completed → Option Output
prior_of k [] = none
prior_of k ((j, out) ∷ m) = if str_eq j k then some out else prior_of k m

abbrev pub output_or : Option Output → Completed → String → Completed
output_or none m k = m
output_or (some out) m k = (k, out) ∷ m

-- The loop of `completedNonRetryableTools`.
unfoldable pub index_rows : List ToolRow → Completed → Completed
index_rows [] m = m
index_rows (r ∷ rs) m = index_rows rs (output_or r.output m (row_key r))

-- `isInternalTool`.
unfoldable pub is_internal : String → Bool
is_internal k =
    str_eq k "duraclaw.run_workflow"
    || str_eq k "duraclaw.ask_user"
    || str_eq k "duraclaw.current_time"

abbrev pub is_known : Option Output → Bool
is_known none = false
is_known (some out) = true

module _ (o : Outside) where
  abbrev pub call_key : Call → String
  call_key c = key_of c.name (o.args_hash c.name c.arguments)

  -- `plannedToolExecutions`; `seen` has the keys that are counted already.
  unfoldable pub planned : Completed → List String → List Call → ℕ
  unfolding is_internal retryable
  planned m seen [] = 0
  planned m seen (c ∷ cs) =
      let counted = planned m seen cs + 1 in
      let passed = planned m seen cs in
      let noted = planned m (call_key c ∷ seen) cs + 1 in
      if is_internal c.name || retryable o.registry c.name
      then counted
      else if is_known (prior_of (call_key c) m) || contains seen (call_key c)
      then passed
      else noted

  -- `Enforce` of the policy engine.
  unfoldable pub enforce : String → String → M (Unit {0})
  enforce stage subject =
      with_world λ w. if o.denies stage subject w.clock then (wait >> fail (denied stage)) else wait

  -- A test of the code, or of a parameter, that returns an error where it does not hold.
  unfoldable pub demand : (ℕ → Bool) → M (Unit {0})
  demand test = with_world λ w. if test w.clock then wait else (wait >> fail fault)

  unfoldable pub or_fault : {A : Type 0} → Option A → M A
  or_fault none = wait >> fail fault
  or_fault (some a) = wait >> return a

  abbrev pub ask_text : Call → String
  ask_text c =
      let q = string_or_empty (field_or_null "question" c.arguments) in
      if is_blank q then "Additional input is required." else q

  abbrev pub workflow_of : Call → String
  workflow_of c = string_or_empty (field_or_null "workflow_id" c.arguments)

  abbrev pub input_of : Json → Json
  input_of (object fs) = object fs
  input_of _ = null

  -- `executeInternalTool` of `duraclaw.ask_user`.
  unfoldable pub ask_user : Call → M Content
  ask_user c = do
    enforce "pre_run" c.name
    set_run_state o.fails "awaiting_user"
    plain_call o.fails
    fail (stopped "awaiting_user")

  -- `ExecuteGraph`, which may write any of the rows of the run.
  unfoldable pub execute_graph : String → Json → M GraphOutcome
  execute_graph workflow input w = let (r, v) = o.run_graph workflow input w in or_fault r v

  abbrev pub after_graph : String → GraphOutcome → M Content
  after_graph workflow r =
      if str_eq r.state "awaiting_user"
      then fail (stopped "awaiting_user")
      else (enforce "post_workflow" workflow >> return (words r.output_text))

  -- `executeInternalTool` of `duraclaw.run_workflow`; the three reads are of the model, the tools and the
  -- servers that the run is configured with.
  unfoldable pub run_workflow : Call → M Content
  run_workflow c = do
    demand (λ t. not (is_blank (workflow_of c)))
    demand (o.workflow_allowed (workflow_of c))
    enforce "pre_workflow" (workflow_of c)
    plain_call o.fails
    plain_call o.fails
    plain_call o.fails
    r ← execute_graph (workflow_of c) (input_of (field_or_null "input" c.arguments))
    after_graph (workflow_of c) r

  -- `executeInternalTool`.
  unfoldable pub execute_internal : Call → M Content
  execute_internal c =
      if str_eq c.name "duraclaw.current_time"
      then with_world (λ w. or_fault (o.current_time c.arguments w.clock))
        >>= (λ t. return (words t))
      else if str_eq c.name "duraclaw.ask_user"
      then ask_user c
      else run_workflow c

  unfoldable pub finish_mcp_call : ℕ → Option Json → M Json
  finish_mcp_call id none = wait >> (attempt (complete_mcp_call o.fails id "failed") >> fail fault)
  finish_mcp_call id (some r) = wait >> (complete_mcp_call o.fails id "succeeded" >> return r)

  -- `executeMCPTool` and the executor's `CallTool`.
  unfoldable pub execute_mcp_tool : Binding → Call → M Json
  execute_mcp_tool b c = do
    plain_call o.fails
    demand (λ t. o.has_client b.server)
    demand (o.mcp_allowed b.server b.tool)
    id ← start_mcp_call o.fails b.server b.tool
    with_world (λ w. finish_mcp_call id (o.mcp_result c w))

  -- What executing one call gives: the content of its answer, and the completed calls.
  abbrev pub Executed : Type 0
  Executed = Content × Completed

  -- The branch of `executeToolCalls` for a name that is bound to an MCP tool.
  unfoldable pub execute_bound : Completed → Call → Binding → M Executed
  execute_bound m c b = do
    enforce "pre_tool" (join b.server (join "." b.tool))
    r ← execute_mcp_tool b c
    enforce "post_tool" (join b.server (join "." b.tool))
    return (mcp_said b.server b.tool r, m)

  abbrev pub output_of : ToolResult → Output
  output_of r = record { for_llm = r.for_llm; artifacts = r.artifacts; is_error = r.is_error }

  abbrev pub after_run : Completed → Call → ToolResult → M Executed
  after_run m c r =
      if r.is_error
      then fail tool_failed
      else (enforce "post_tool" c.name
          >> return (
            said c.name r.for_llm,
            if retryable o.registry c.name then m else (call_key c, output_of r) ∷ m,
          ))

  abbrev pub with_result : Completed → Call → ℕ → ToolResult → M Executed
  with_result m c id r = complete_tool_call o.fails id (output_of r) >> after_run m c r

  -- A call of a tool of the registry that is not replayed.
  unfoldable pub execute_fresh : Completed → Call → M Executed
  execute_fresh m c = do
    id ←
        start_tool_call o.fails c.name (o.args_hash c.name c.arguments)
          (retryable o.registry c.name)
    with_world (λ w. wait >> with_result m c id (execute o.registry c.name c.arguments (o.ran c w)))

  abbrev pub or_replay : Completed → Call → Option Output → M Executed
  or_replay m c none = execute_fresh m c
  or_replay m c (some out) = return (recorded c.name out, m)

  -- A call of a tool of the registry: one that is not retryable and has completed before is not run
  -- again.
  unfoldable pub execute_registered : Completed → Call → M Executed
  execute_registered m c =
      enforce "pre_tool" c.name
      >> (if retryable o.registry c.name
          then execute_fresh m c
          else or_replay m c (prior_of (call_key c) m))

  abbrev pub unbound_call : Completed → Call → M Executed
  unbound_call m c =
      demand (o.tool_allowed c.name)
      >> (if is_internal c.name
          then execute_internal c >>= (λ t. return (t, m))
          else execute_registered m c)

  abbrev pub binding_of : String → List (String × Binding) → Option Binding
  binding_of k [] = none
  binding_of k ((j, b) ∷ bs) = if str_eq j k then some b else binding_of k bs

  abbrev pub by_binding : Completed → Call → Option Binding → M Executed
  by_binding m c none = unbound_call m c
  by_binding m c (some b) = execute_bound m c b

  -- One round of the loop of `executeToolCalls`.
  unfoldable pub execute_call : Completed → Call → M Executed
  execute_call m c = by_binding m c (binding_of c.name o.bindings)

  -- The loop of `executeToolCalls`.
  unfoldable pub execute_all : Completed → List Call → M (List Answer)
  execute_all m [] = return []
  execute_all m (c ∷ cs) = execute_call m c >>= λ r.
      execute_all r.1 cs >>= λ rest. return (record { tool_call_id = c.id; content = r.0 } ∷ rest)

  unfoldable pub normalize_calls : List Call → List Call
  unfolding original_name
  normalize_calls [] = []
  normalize_calls (c ∷ cs) = record c { name = original_name o.aliases c.name } ∷ normalize_calls cs

  -- The check of the limit; a limit of 0 is none.
  unfoldable pub check_limit : Completed → List Call → M (Unit {0})
  check_limit m calls =
      if ltb 0 o.max_tool_calls
      then tool_execution_count o.fails >>= (λ n.
        if ltb o.max_tool_calls (n + planned m [] calls)
        then fail (tool_calls_exceeded (n + planned m [] calls) o.max_tool_calls)
        else return tt)
      else return tt

  abbrev pub with_completed : List Call → List ToolRow → M (List Answer)
  with_completed calls rows =
      check_limit (index_rows rows []) calls >> execute_all (index_rows rows []) calls

  -- `executeToolCalls`; the first reads are of the registry, the bindings, the definitions, the
  -- aliases and the limit.
  unfoldable pub execute_tool_calls : List Call → M (List Answer)
  execute_tool_calls calls = do
    plain_call o.fails
    plain_call o.fails
    plain_call o.fails
    plain_call o.fails
    plain_call o.fails
    rows ← completed_non_retryable o.fails
    with_completed (normalize_calls calls) rows
