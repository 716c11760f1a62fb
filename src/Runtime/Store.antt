-- ===== src/Runtime/Store.antt =====
-- The rows that a worker reads and writes for one run (internal/db/store.go): its tool calls, its MCP
-- calls, its steps, its checkpoints and its state. Any call of the store may fail: `fails` says whether
-- one does at a time of the clock, which every call moves on; a call that fails changes nothing.
-- Other processes write the state and the lease of a run too, so what `RunState` and
-- `ExtendRunLease` say of them is a parameter.
use Prim.Native.String.{◌++◌ as join}
use duraclaw.Json.{Json}
use duraclaw.Shared.{
  ℕ, ◌+◌, Bool, true, false, not, ◌&&◌, List, [], ◌∷◌, ◌++◌, String, Option, none, some,
  if◌then◌else◌, length, ◌==◌,
}
use duraclaw.Tools.{Said}

-- What a tool call returns, as its row keeps it.
pub record Output : Type 0 where
  pub for_llm : Said
  pub artifacts : Json
  pub is_error : Bool

-- A row of `tool_calls`; `output` is set with `completed_at`.
pub record ToolRow : Type 0 where
  pub id : ℕ
  pub tool_name : String
  pub args_hash : String
  pub retryable : Bool
  pub state : String
  pub output : Option Output

-- A row of `mcp_calls`.
pub record McpRow : Type 0 where
  pub id : ℕ
  pub server : String
  pub tool : String
  pub state : String

-- A row of `run_steps`.
pub record StepRow : Type 0 where
  pub id : ℕ
  pub kind : String
  pub state : String

-- What a run says: a message of the assistant in its own session, which later contexts may leave out, or
-- in the session of the parent that delegated to it; and what the outbound service hands on to the two,
-- apart from the notices of typing and of activities.
pub data Notice : Type 0 where
  message : String → Bool → Notice
  outbound : String → Notice
  parent_message : String → Notice
  parent_outbound : String → Notice

-- `model_calls` counts the rows of that table that are written for the answers of the run and by its
-- workflows; the judge of scope and the recommendations write theirs too, which are not counted.
pub record World : Type 0 where
  pub tool_calls : List ToolRow
  pub mcp_calls : List McpRow
  pub steps : List StepRow
  pub checkpoints : List String
  pub run_state : String
  pub sent : List Notice
  pub model_calls : ℕ
  pub clock : ℕ

-- The errors that the worker tells apart, and those that it makes itself; `fault` is any other.
pub data Failure : Type 0 where
  fault : Failure
  stopped : String → Failure
  iterations_exceeded : ℕ → Failure
  tool_calls_exceeded : ℕ → ℕ → Failure
  denied : String → Failure
  tool_failed : Failure

pub data Result (A : Type 0) : Type 0 where
  err : Failure → Result A
  ok : A → Result A

abbrev pub M : Type 0 → Type 0
M A = World → Result A × World

abbrev pub tick : World → World
tick w = record w { clock = w.clock + 1 }

module _ {A : Type 0} where
  unfoldable pub return : A → M A
  return a w = (ok a, w)

  unfoldable pub fail : Failure → M A
  fail e w = (err e, w)

  -- What follows reads the world.
  unfoldable pub with_world : (World → M A) → M A
  with_world f w = f w w

  -- `_ = call`: what the call returns is dropped.
  unfoldable pub attempt : M A → M (Unit {0})
  attempt m w = (ok tt, (m w).1)

module _ {A C : Type 0} where
  abbrev pub and_then : Result A → (A → M C) → M C
  and_then (err e) rest w = (err e, w)
  and_then (ok a) rest w = rest a w

  infixl 5 ◌>>=◌
  unfoldable pub ◌>>=◌ : M A → (A → M C) → M C
  ◌>>=◌ first rest w = let (r, v) = first w in and_then r rest v

  -- What is done on an error, before it is returned.
  abbrev pub cleaned : Result A → M C → M A
  cleaned (ok a) clean w = (ok a, w)
  cleaned (err e) clean w = (err e, (clean w).1)

  unfoldable pub on_error : M A → M C → M A
  on_error m clean w = let (r, v) = m w in cleaned r clean v

infixl 5 ◌>>◌
abbrev pub ◌>>◌ : {C : Type 0} → M (Unit {0}) → M C → M C
m >> next = m >>= λ _. next

-- Time passes.
unfoldable pub wait : M (Unit {0})
wait w = (ok tt, tick w)

-- What `UPDATE tool_calls` makes of a row.
abbrev pub complete_row : ℕ → Output → ToolRow → ToolRow
complete_row i out r =
    if r.id == i
    then record r { state = if out.is_error then "failed" else "succeeded"; output = some out }
    else r

unfoldable pub complete_rows : ℕ → Output → List ToolRow → List ToolRow
complete_rows i out [] = []
complete_rows i out (r ∷ rs) = complete_row i out r ∷ complete_rows i out rs

unfoldable pub finish_mcp : ℕ → String → List McpRow → List McpRow
finish_mcp i state [] = []
finish_mcp i state (r ∷ rs) =
    (if r.id == i then record r { state = state } else r) ∷ finish_mcp i state rs

unfoldable pub finish_step : ℕ → String → List StepRow → List StepRow
finish_step i state [] = []
finish_step i state (r ∷ rs) =
    (if r.id == i then record r { state = state } else r) ∷ finish_step i state rs

-- The rows that `CompletedNonRetryableToolCalls` selects.
abbrev pub is_finished : Option Output → Bool
is_finished none = false
is_finished (some out) = true

unfoldable pub finished_once : List ToolRow → List ToolRow
finished_once [] = []
finished_once (r ∷ rs) =
    if not r.retryable && is_finished r.output then r ∷ finished_once rs else finished_once rs

-- The key under which the worker keeps a completed call.
abbrev pub key_of : String → String → String
key_of name hash = join name (join ":" hash)

abbrev pub row_key : ToolRow → String
row_key r = key_of r.tool_name r.args_hash

-- The checkpoints and the steps after one more.
abbrev pub noted : String → World → List String
noted key w = w.checkpoints ++ key ∷ []

abbrev pub stepped : String → World → List StepRow
stepped kind w = w.steps ++ record { id = length w.steps; kind = kind; state = "running" } ∷ []

abbrev pub one_more_call : World → World
one_more_call w = record w { model_calls = w.model_calls + 1 }

abbrev pub posted : List Notice → World → World
posted ns w = record w { sent = w.sent ++ ns }

module _ (fails : ℕ → Bool) where
  -- One call of the store, whose effect is `change`.
  unfoldable pub call : {A : Type 0} → (World → World) → (World → A) → M A
  call change answer w =
      if fails w.clock then (err fault, tick w) else (ok (answer w), change (tick w))

  -- `StartToolCall`: the identifier of the new row is returned.
  unfoldable pub start_tool_call : String → String → Bool → M ℕ
  start_tool_call name hash again =
      call
        (λ w. record w {
          tool_calls =
              w.tool_calls
              ++ record {
                id = length w.tool_calls;
                tool_name = name;
                args_hash = hash;
                retryable = again;
                state = "running";
                output = none;
              }
                ∷ [];
        })
        (λ w. length w.tool_calls)

  -- `CompleteToolCall`.
  unfoldable pub complete_tool_call : ℕ → Output → M (Unit {0})
  complete_tool_call i out =
      call (λ w. record w { tool_calls = complete_rows i out w.tool_calls }) (λ w. tt)

  -- `CompletedNonRetryableToolCalls`.
  unfoldable pub completed_non_retryable : M (List ToolRow)
  completed_non_retryable = call (λ w. w) (λ w. finished_once w.tool_calls)

  -- `ToolExecutionCount`.
  unfoldable pub tool_execution_count : M ℕ
  tool_execution_count = call (λ w. w) (λ w. length w.tool_calls + length w.mcp_calls)

  -- `StartMCPCall`, `CompleteMCPCall`.
  unfoldable pub start_mcp_call : String → String → M ℕ
  start_mcp_call server tool =
      call
        (λ w. record w {
          mcp_calls =
              w.mcp_calls
              ++ record { id = length w.mcp_calls; server = server; tool = tool; state = "running" }
                ∷ [];
        })
        (λ w. length w.mcp_calls)

  unfoldable pub complete_mcp_call : ℕ → String → M (Unit {0})
  complete_mcp_call i state =
      call (λ w. record w { mcp_calls = finish_mcp i state w.mcp_calls }) (λ w. tt)

  -- `StartRunStep`, `CompleteRunStep`.
  unfoldable pub start_run_step : String → M ℕ
  start_run_step kind = call (λ w. record w { steps = stepped kind w }) (λ w. length w.steps)

  unfoldable pub complete_run_step : ℕ → String → M (Unit {0})
  complete_run_step i state = call (λ w. record w { steps = finish_step i state w.steps }) (λ w. tt)

  -- `Checkpoint`.
  unfoldable pub checkpoint : String → M (Unit {0})
  checkpoint key = call (λ w. record w { checkpoints = noted key w }) (λ w. tt)

  -- `SetRunState`, of a state that is valid.
  unfoldable pub set_run_state : String → M (Unit {0})
  set_run_state state = call (λ w. record w { run_state = state }) (λ w. tt)

  -- A call whose rows nothing here reads: of events, or a read that can only fail.
  unfoldable pub plain_call : M (Unit {0})
  plain_call = call (λ w. w) (λ w. tt)

  -- `StartModelCall`.
  unfoldable pub start_model_call : M (Unit {0})
  start_model_call = call one_more_call (λ w. tt)

  -- `InsertMessage`, of the assistant, or `Emit` of the outbound service.
  unfoldable pub post : Notice → M (Unit {0})
  post n = call (posted (n ∷ [])) (λ w. tt)

  -- `CompleteRunWithMessage`, `CompleteRunSuppressed`.
  unfoldable pub complete_run : M (Unit {0})
  complete_run = call (λ w. record w { run_state = "completed" }) (λ w. tt)
