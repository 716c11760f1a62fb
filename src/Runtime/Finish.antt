-- ===== src/Runtime/Finish.antt =====
-- How a run ends (internal/runtime/worker.go): `finalizeAssistantResponse`, `finalizeSuppressedSystemResponse`,
-- `completeOutOfScopeRun`, `completeModerationDeniedRun`, `emitFinalOutbound`, and what a delegated run tells its
-- parent: `completeDelegationChildRun`, `failDelegationChildRun`, `cancelDelegationChildRun`,
-- `emitDelegationStopped`. Events and activities, whose errors the code drops, are left out.
pub mod Kept
use Prim.Native.String.{◌++◌ as join}
use duraclaw.Json.{Fields, is_blank, get_field, field_or_null, string_or_empty}
use duraclaw.Runtime.Aliases.{trim}
use duraclaw.Runtime.Calls.{demand, or_fault}
use duraclaw.Runtime.Loop.{Model, Message}
use duraclaw.Runtime.Store.{
  World, Notice, message, outbound, parent_message, parent_outbound, fault, M, ◌>>=◌, ◌>>◌, return,
  fail, with_world, wait, plain_call, post, complete_run,
}
use duraclaw.Shared.{
  ℕ, Bool, true, false, List, String, Option, none, some, str_eq, ltb, ◌==◌, if◌then◌else◌,
}

-- What the worker reads of `db.Run`; `text` is what `extractText` makes of the input.
pub record Run : Type 0 where
  pub input : Fields
  pub text : String
  pub refinement_parent : String
  pub refinement_depth : ℕ

-- What the worker reads of `scopeJudgement`.
pub record Scope : Type 0 where
  pub in_scope : Bool
  pub safe : Bool
  pub moderated : Bool
  pub injection_risk : Bool
  pub recommended_response : String

-- `AgentDelegationByChildRun`: an error, no row, or a row.
pub data Lookup : Type 0 where
  broken : Lookup
  missing : Lookup
  found : Lookup

-- `EnforceRunStartQuota`.
pub data Quota : Type 0 where
  within_quota : Quota
  exceeded : Quota
  unread : Quota

-- What is outside of the phases of a run, besides the model and the tools. `judge_scope` is
-- `judgeScope`, `delegated` the handles of the runs that `createMentionDelegations` makes, `context`
-- `buildContextPhase`'s text, `offered` the tools that are selected for the run and whether one must be
-- used, `polished` what the reminders and the recommendations make of the answer, `deferred` the number
-- of messages that `ClaimDeferredRunMessages` claims, and `waits` whether the run may wait for them.
pub record Service : Type 0 where
  pub model : Model
  pub equal_fold : String → String → Bool
  pub has_outbound : Bool
  pub max_refine_depth : ℕ
  pub judge_scope : World → Option Scope
  pub risky : String → Bool
  pub delegated : World → Option (List String)
  pub acknowledged : List String → String
  pub artifacts : World → Option (List String)
  pub policies_allow : String → ℕ → Bool
  pub context : String → String → List String → String
  pub prompts : String → Scope → World → Option (List Message)
  pub offered : Scope → String → World → Option (List String × Bool)
  pub polished : String → World → String
  pub waits : ℕ → Bool
  pub deferred : World → Option ℕ
  pub delegation_of : World → Lookup
  pub queued : World → Bool
  pub quota : World → Quota

-- `isAgentDelegationChildRun`.
abbrev pub is_set : {A : Type 0} → Option A → Bool
is_set none = false
is_set (some a) = true

abbrev pub is_agent_delegation_child_run : Run → Bool
is_agent_delegation_child_run r = is_set (get_field "agent_delegation" r.input)

-- `workflowIDFromInput`.
abbrev pub text_field : String → Run → String
text_field k r = trim (string_or_empty (field_or_null k r.input))

unfoldable pub workflow_id_from_input : Run → String
unfolding trim
workflow_id_from_input r =
    if str_eq (text_field "workflow_id" r) ""
    then text_field "workflow_definition_id" r
    else text_field "workflow_id" r

-- `moderationDenied`.
abbrev pub moderation_denied : Scope → Bool
moderation_denied s = if s.safe then false else s.moderated

module _ (o : Service) (r : Run) where
  abbrev pub fails : ℕ → Bool
  fails = o.model.calls.fails

  abbrev pub hand_on : Notice → M (Unit {0})
  hand_on n = if o.has_outbound then post fails n else return tt

  -- `emitFinalOutbound`, with the reads of the artifacts of three kinds.
  unfoldable pub emit_final_outbound : String → M (Unit {0})
  emit_final_outbound answer =
      if o.has_outbound
      then (plain_call fails
          >> (plain_call fails >> (plain_call fails >> post fails (outbound answer))))
      else return tt

  -- The delegation is set to its last state, and the parent is told.
  unfoldable pub tell_parent : String → M (Unit {0})
  tell_parent said = do
    plain_call fails
    post fails (parent_message said)
    hand_on (parent_outbound said)

  abbrev pub by_lookup : String → Lookup → M (Unit {0})
  by_lookup said broken = wait >> fail fault
  by_lookup said missing = wait >> return tt
  by_lookup said found = wait >> tell_parent said

  -- `completeDelegationChildRun`, and `failDelegationChildRun` and `cancelDelegationChildRun` with
  -- `emitDelegationStopped`, which differ in what they say.
  unfoldable pub end_delegation : String → M (Unit {0})
  end_delegation said =
      if is_agent_delegation_child_run r
      then with_world (λ w. by_lookup said (o.delegation_of w))
      else return tt

  unfoldable pub fail_delegation_child_run : M (Unit {0})
  fail_delegation_child_run = end_delegation "The delegated agent could not complete the request."

  unfoldable pub cancel_delegation_child_run : String → M (Unit {0})
  cancel_delegation_child_run state =
      end_delegation (join "The delegated agent request was " (join state "."))

  -- A message of the assistant is the last of the run.
  unfoldable pub deliver : String → Bool → M (Unit {0})
  deliver answer excluded = do
    post fails (message answer excluded)
    emit_final_outbound answer
    complete_run fails
    end_delegation answer

  -- `CreateRefinementRun` reads artifacts of two kinds, writes the run and moves the artifacts.
  unfoldable pub create_refinement_run : M (Unit {0})
  create_refinement_run = do plain_call fails; plain_call fails; plain_call fails; plain_call fails

  unfoldable pub by_deferred : String → ℕ → M (Unit {0})
  by_deferred answer n =
      if n == 0 then deliver answer false else (complete_run fails >> create_refinement_run)

  unfoldable pub await_deferred : String → M (Unit {0})
  await_deferred answer =
      demand o.model.calls o.waits
      >> (with_world (λ w. or_fault o.model.calls (o.deferred w)) >>= (λ n. by_deferred answer n))

  -- `finalizeAssistantResponse`.
  unfoldable pub finalize_assistant_response : String → M (Unit {0})
  finalize_assistant_response answer =
      if ltb r.refinement_depth o.max_refine_depth
      then await_deferred answer
      else deliver answer false

  -- `finalizeSuppressedSystemResponse`.
  unfoldable pub finalize_suppressed : M (Unit {0})
  finalize_suppressed = complete_run fails

  abbrev pub or_else : String → String → String
  or_else said default = if is_blank said then default else trim said

  -- `completeOutOfScopeRun` and `completeModerationDeniedRun`: the messages of the user are taken out of
  -- later contexts, and so is the answer.
  unfoldable pub refuse : String → M (Unit {0})
  refuse answer = plain_call fails >> deliver answer true

  unfoldable pub complete_out_of_scope_run : String → M (Unit {0})
  unfolding trim
  complete_out_of_scope_run said =
      refuse
        (or_else said "I cannot help with that request because it is outside my configured scope.")

  unfoldable pub complete_moderation_denied_run : String → M (Unit {0})
  unfolding trim
  complete_moderation_denied_run said = refuse (
      or_else said
        "I cannot help with that message. Please keep the conversation respectful and safe.")
