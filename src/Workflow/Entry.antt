-- ===== src/Workflow/Entry.antt =====
-- The entry points of the executor (internal/workflow/executor.go): `ExecuteGraph` after the definition
-- is loaded, `StartAskUser` and `ResumeAwaitingUser`.
pub mod Laws
mod Tests
use duraclaw.Json.{Json, null, text, object, Fields, end, field}
use duraclaw.Shared.{
  ℕ, ◌&&◌, ◌||◌, Bool, true, false, not, List, [], ◌∷◌, String, Option, none, some, str_eq,
  if◌then◌else◌,
}
use duraclaw.Workflow.Activity.{set_all}
use duraclaw.Workflow.Execute.{Outside}
use duraclaw.Workflow.Graph.{Graph}
use duraclaw.Workflow.Rounds.{
  Answer, store_error, run_ready_queue, initialize_states, queue_start_if_fresh,
}
use duraclaw.Workflow.Store.{
  Status, queued, running, succeeded, awaiting_user, running_workflow, World, StoreError, Result,
  ok, err, M, ◌>>=◌, ◌>>◌, return, call, unchanged, set_node_state, start_node_run,
  complete_node_run, set_workflow_run, set_host_run, add_event,
}
use duraclaw.Workflow.Validate.{GraphError, validate_graph}
use duraclaw.Json.{set_field}

-- What the engine reads of a `GraphRequest`.
pub record GraphRequest : Type 0 where
  pub run_id : String
  pub workflow_definition_id : String
  pub channel_type : String
  pub channel_user_id : String
  pub channel_conversation_id : String
  pub location_context : String
  pub email_context : String
  pub reply_context : String
  pub group_context : String
  pub input : Fields

abbrev has_input : Fields → Bool
has_input end = false
has_input (field k v fs) = true

abbrev channel_of : GraphRequest → Json
channel_of req = object (
    field "type" (text req.channel_type) (
      field "user_id" (text req.channel_user_id)
        (field "conversation_id" (text req.channel_conversation_id) end)))

-- `if s != "" { out[key] = s }`.
abbrev set_named : String → String → Fields → Fields
set_named key s out = if str_eq s "" then out else set_field key (text s) out

abbrev set_channel : GraphRequest → Fields → Fields
set_channel req out =
    if str_eq req.channel_type ""
      && (str_eq req.channel_user_id "" && str_eq req.channel_conversation_id "")
    then out
    else set_field "channel" (channel_of req) out

-- `workflowInitialContext`.
unfoldable pub workflow_initial_context : GraphRequest → Fields
unfolding set_all
workflow_initial_context req =
    let out : Fields =
      if has_input req.input
      then set_all req.input (field "input" (object req.input) end)
      else end in
    set_named "whatsapp_group_context" req.group_context (
      set_named "reply_context" req.reply_context (
        set_named "email_context" req.email_context
          (set_named "location" req.location_context (set_channel req out))))

-- `_ = call` within a chain of calls.
abbrev pub quietly : M (Unit {0}) → M (Unit {0})
quietly m w = (ok tt, (m w).1)

-- `StartWorkflowRun`: the scope and the quota, the row, and the state of the host run.
unfoldable pub start_workflow_run : M (Unit {0})
unfolding call set_workflow_run set_host_run add_event
start_workflow_run = do
  call unchanged
  call unchanged
  set_workflow_run running
  quietly (set_host_run running_workflow)
  quietly add_event

-- `ensureWorkflowRun`: the run that is there, or a new one.
unfoldable pub ensure_workflow_run : Bool → M (Unit {0})
unfolding call start_workflow_run
ensure_workflow_run true = call unchanged
ensure_workflow_run false = call unchanged >> start_workflow_run

-- The calls of `ExecuteGraph` before the loop.
unfoldable pub prepare : Bool → Graph → String → M (Unit {0})
unfolding ensure_workflow_run initialize_states queue_start_if_fresh
prepare exists g start = do
  ensure_workflow_run exists
  initialize_states g.nodes
  queue_start_if_fresh start

pub data Executed : Type 0 where
  missing_id not_loaded : Executed
  refused : GraphError → Executed
  not_prepared : StoreError → Executed
  ran : Option Answer → Executed

abbrev pub after_prepare : Outside → Graph → Fields → Result (Unit {0}) × World → Executed × World
after_prepare o g initial (err e, w) = (not_prepared e, w)
after_prepare o g initial (ok u, w) = let (a, v) = run_ready_queue o g initial w in (ran a, v)

abbrev pub checked :
    Outside
    → Graph
    → Bool
    → Fields
    → duraclaw.Workflow.Validate.Result String
    → World
    → Executed × World
checked o g exists initial (duraclaw.Workflow.Validate.err e) w = (refused e, w)
checked o g exists initial (duraclaw.Workflow.Validate.ok start) w =
    after_prepare o g initial (prepare exists g start w)

abbrev pub loaded : Outside → Option Graph → Bool → Fields → World → Executed × World
loaded o none exists initial w = (not_loaded, w)
loaded o (some g) exists initial w = checked o g exists initial (validate_graph g) w

-- `ExecuteGraph`, with what `loadGraph` gives, and whether a run of the definition is there already.
unfoldable pub execute_graph :
    Outside → Option Graph → Bool → GraphRequest → World → Executed × World
unfolding validate_graph prepare run_ready_queue workflow_initial_context
execute_graph o graph exists req w =
    if str_eq req.run_id "" || str_eq req.workflow_definition_id ""
    then (missing_id, w)
    else loaded o graph exists (workflow_initial_context req) w

-- What `StartAskUser` and `ResumeAwaitingUser` return: a missing field, or what the calls give.
pub data Answered : Type 0 where
  missing_field : Answered
  answered : Result (Unit {0}) → Answered

abbrev pub answer_of : Result (Unit {0}) × World → Answered × World
answer_of (r, w) = (answered r, w)

-- The calls of `StartAskUser`; the run is new.
unfoldable pub ask : M (Unit {0})
unfolding start_workflow_run set_workflow_run start_node_run complete_node_run set_host_run
    add_event
ask = do
  start_workflow_run
  id ← start_node_run
  complete_node_run id awaiting_user
  set_workflow_run awaiting_user
  set_host_run awaiting_user
  add_event

-- `StartAskUser`, with the ids of the run and of the definition, the node and the question.
unfoldable pub start_ask_user : String → String → String → String → World → Answered × World
unfolding ask
start_ask_user run_id definition_id node_key question w =
    if str_eq run_id "" || (str_eq definition_id "" || (str_eq node_key "" || str_eq question ""))
    then (missing_field, w)
    else answer_of (ask w)

-- The calls of `ResumeAwaitingUser`.
unfoldable pub resume : String → Json → M (Unit {0})
unfolding set_node_state set_workflow_run set_host_run add_event
resume node_key response = do
  set_node_state node_key succeeded (object (field "response" response end))
  set_workflow_run running
  set_host_run queued
  add_event

-- `ResumeAwaitingUser`.
unfoldable pub resume_awaiting_user : String → String → String → Json → World → Answered × World
unfolding resume
resume_awaiting_user run_id workflow_run_id node_key response w =
    if str_eq run_id "" || (str_eq workflow_run_id "" || str_eq node_key "")
    then (missing_field, w)
    else answer_of (resume node_key response w)
