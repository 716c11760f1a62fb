-- ===== src/Policy/Engine.antt =====
-- `Evaluate`, `record`, `Enforce`, `PromptInstructions` of the engine (internal/policy/policy.go). The
-- rules that the store gives for the scope are an argument, none where that call fails. The log holds
-- the evaluations recorded so far, the last first, and whether the recordings to come fail.
pub mod Chosen
pub mod Denials
pub mod Recorded
use Prim.Native.String.{◌++◌ as join}
use duraclaw.Json.{is_blank}
use duraclaw.Policy.{TextTools, Context, Rule}
use duraclaw.Policy.Match.{rule_matches}
use duraclaw.Policy.Redact.{redacted}
use duraclaw.Shared.{
  ℕ, Bool, true, false, List, [], ◌∷◌, ◌++◌, String, Option, none, some, str_eq, ltb, if◌then◌else◌,
}

pub record Decision : Type 0 where
  pub action : String
  pub reason : String
  pub instructions : List String
  pub matched_rules : List Rule

-- `db.PolicyEvaluation`; an empty id stands for null.
pub record Evaluation : Type 0 where
  pub policy_pack_id : String
  pub policy_rule_id : String
  pub enforcement_mode : String
  pub decision : String
  pub reason : String
  pub payload : Context

pub record Log : Type 0 where
  pub evaluations : List Evaluation
  pub faults : List Bool

-- `strength`.
abbrev pub strength : String → ℕ
strength action =
    if str_eq action "deny"
    then 4
    else if str_eq action "require_clarification"
    then 3
    else if str_eq action "modify"
    then 2
    else 1

-- `strongerDecision`.
abbrev pub stronger_decision : Decision → String → String → Decision
stronger_decision current action reason =
    if ltb (strength current.action) (strength action)
    then record current { action = action; reason = reason }
    else current

abbrev pub nothing : Decision
nothing = record { action = ""; reason = ""; instructions = []; matched_rules = [] }

abbrev pub allow : Decision
allow = record { action = "allow"; reason = ""; instructions = []; matched_rules = [] }

-- `RecordPolicyEvaluation`: none where it fails.
abbrev pub insert : Evaluation → List Bool → Log → Option (Unit {0}) × Log
insert ev [] log = (some tt, record log { evaluations = ev ∷ log.evaluations })
insert ev (b ∷ bs) log =
    if b
    then (none, record log { faults = bs })
    else (some tt, record { evaluations = ev ∷ log.evaluations; faults = bs })

abbrev pub evaluation_of :
    TextTools → String → Context → String → String → String → String → Evaluation
evaluation_of tools mode pc pack id action reason = record {
  policy_pack_id = pack;
  policy_rule_id = id;
  enforcement_mode = mode;
  decision = action;
  reason = reason;
  payload = redacted tools pc;
}

-- `record`.
unfoldable pub record_evaluation :
    TextTools → String → Context → String → String → String → String → Log → Option (Unit {0}) × Log
unfolding redacted
record_evaluation tools mode pc pack id action reason log =
    insert (evaluation_of tools mode pc pack id action reason) log.faults log

abbrev pub reason_of : Rule → String
reason_of rule = if is_blank rule.instruction_text then rule.rule_type else rule.instruction_text

-- What a rule that matches does to the decision.
abbrev pub add_rule : Decision → Rule → Decision
add_rule d rule = record d {
  matched_rules = d.matched_rules ++ rule ∷ [];
  instructions =
      if is_blank rule.instruction_text
      then d.instructions
      else d.instructions ++ rule.instruction_text ∷ [];
}

abbrev pub then_rules :
    Option (Unit {0}) × Log → (Log → Option Decision × Log) → Option Decision × Log
then_rules (none, log) next = (none, log)
then_rules (some u, log) next = next log

-- The loop of `Evaluate`.
unfoldable pub evaluate_rules :
    TextTools → String → Context → List Rule → Decision → Log → Option Decision × Log
unfolding rule_matches record_evaluation is_blank
evaluate_rules tools mode pc [] d log = (some d, log)
evaluate_rules tools mode pc (rule ∷ rules) d log =
    if rule_matches tools pc rule
    then then_rules
        (record_evaluation tools mode pc rule.policy_pack_id rule.id rule.action (reason_of rule)
          log)
        (λ after.
          evaluate_rules tools mode pc rules
            (stronger_decision (add_rule d rule) rule.action (reason_of rule)) after)
    else evaluate_rules tools mode pc rules d log

-- What follows the loop: a run without a match is recorded, whether that works or not.
abbrev pub close : TextTools → String → Context → Option Decision × Log → Option Decision × Log
close tools mode pc (none, log) = (none, log)
close tools mode pc (some d, log) = elim d.matched_rules [
  | [] ↦ (some d, (record_evaluation tools mode pc "" "" "allow" "no matching policy rule" log).1)
  | r ∷ rs ↦ (some d, log)
]

-- `Evaluate` of an engine with a store.
unfoldable pub evaluate :
    TextTools → String → Context → Option (List Rule) → Log → Option Decision × Log
unfolding evaluate_rules record_evaluation
evaluate tools mode pc rules log = if str_eq mode "" then (some allow, log) else elim rules [
  | none ↦ (none, log)
  | some rs ↦ close tools mode pc (evaluate_rules tools mode pc rs allow log)
]

-- `Enforce`: the decision, with the text of the error where there is one; none where the evaluation
-- fails.
pub data Enforced : Type 0 where
  passed : Decision → Enforced
  denied : Decision → String → Enforced
  failed : Enforced

abbrev pub with_reason : Decision → Decision
with_reason d = if str_eq d.reason "" then record d { reason = "policy denied" } else d

abbrev pub judge : String → Option Decision × Log → Enforced × Log
judge mode (none, log) = (failed, log)
judge mode (some d, log) =
    if str_eq d.action "deny"
    then (
      denied (with_reason d)
          (join "policy denied at " (join mode (join ": " (with_reason d).reason))),
      log,
    )
    else (passed d, log)

unfoldable pub enforce : TextTools → String → Context → Option (List Rule) → Log → Enforced × Log
unfolding evaluate
enforce tools mode pc rules log = judge mode (evaluate tools mode pc rules log)

-- `PromptInstructions`.
abbrev instructions_of : Option Decision × Log → Option (List String) × Log
instructions_of (none, log) = (none, log)
instructions_of (some d, log) = (some d.instructions, log)

unfoldable pub prompt_instructions :
    TextTools → Context → Option (List Rule) → Log → Option (List String) × Log
unfolding evaluate
prompt_instructions tools pc rules log = instructions_of (evaluate tools "prompt" pc rules log)
