-- ===== src/Policy/Tests.antt =====
-- The policy engine at small rules.
use duraclaw.Json.{text, object, Fields, end, field, decoded, sprint}
use duraclaw.Policy.{TextTools, Context, Rule}
use duraclaw.Policy.Artifact.{reject_raw, HasRaw}
use duraclaw.Policy.Artifact.Laws.{reject_raw_iff}
use duraclaw.Policy.Engine.{Decision, Log, evaluate, enforce}
use duraclaw.Policy.Engine.Denials.{Verdict, enforce-Verdict}
use duraclaw.Policy.Engine.Chosen.{Decides, evaluate-Decides}
use duraclaw.Policy.Engine.Recorded.{Trailed, evaluate-Trailed}
use duraclaw.Policy.Match.{rule_matches}
use duraclaw.Policy.Redact.{redact_map}
use duraclaw.Policy.Redact.Laws.{FieldsClean, field_keys, redact_map_cleans}
use duraclaw.Shared.{◌≡◌, ◌≢◌, ◌↔◌, refl, List, [], ◌∷◌, String, none, some, keep, str_eq}

-- Texts in lower case, patterns that match only themselves, and no replacement.
abbrev plain : TextTools
plain = record { to_lower = λ s. s; matches = λ p s. some (str_eq p s); replace_all = λ p r s. s }

abbrev call : Context
call = record {
  customer_id = "c";
  user_id = "u";
  agent_instance_id = "";
  session_id = "";
  run_id = "r";
  step_id = "";
  workflow_run_id = "";
  workflow_node_key = "";
  tool_name = "shell";
  workflow_id = "";
  artifact_id = "";
  processor = "";
  content = "remove";
  additional_fields = field "api_token" (text "t") end;
}

abbrev on_tool : String → Fields
on_tool name =
    field "equals" (object (field "key" (text "tool_name") (field "value" (text name) end))) end

abbrev rule : String → String → Fields → Rule
rule id action condition = record {
  id = id;
  policy_pack_id = "p";
  rule_type = "guard";
  condition = decoded (object condition);
  action = action;
  instruction_text = "";
}

abbrev rules : List Rule
rules =
    rule "1" "modify" end
    ∷ rule "2" "deny" (on_tool "shell")
    ∷ rule "3" "deny" (on_tool "mail")
    ∷ []

abbrev no_log : Log
no_log = record { evaluations = []; faults = [] }

abbrev decided : Decision
decided = record {
  action = "deny";
  reason = "guard";
  instructions = [];
  matched_rules = rule "1" "modify" end ∷ rule "2" "deny" (on_tool "shell") ∷ [];
}

rules_decide : (evaluate plain "pre_tool" call (some rules) no_log).0 ≡ some decided
unfolding evaluate sprint
rules_decide = refl

evaluate-Decides_example : Decides (keep (rule_matches plain call) rules) decided
evaluate-Decides_example =
    evaluate-Decides plain "pre_tool" call rules no_log decided (λ e. cc) rules_decide

enforce-Verdict_example :
    Verdict plain call rules (enforce plain "pre_tool" call (some rules) no_log).0
enforce-Verdict_example = enforce-Verdict plain "pre_tool" call rules no_log (λ e. cc)

abbrev logged : Log
logged = (evaluate plain "pre_tool" call (some rules) no_log).1

rules_log : evaluate plain "pre_tool" call (some rules) no_log ≡ (some decided, logged)
unfolding evaluate sprint
rules_log = refl

evaluate-Trailed_example :
    Trailed plain "pre_tool" call (keep (rule_matches plain call) rules) [] logged.evaluations
evaluate-Trailed_example =
    evaluate-Trailed plain "pre_tool" call rules no_log decided logged (λ e. cc) rules_log

abbrev secrets : Fields
secrets = field "note" (text "n") (field "nested" (object (field "password" (text "x") end)) end)

redact_map_cleans_example :
    FieldsClean plain (redact_map plain secrets)
    × (field_keys (redact_map plain secrets) ≡ field_keys secrets)
redact_map_cleans_example = redact_map_cleans plain secrets

abbrev metadata : Fields
metadata = field "size" (text "1") (field "more" (object (field "base64" (text "x") end)) end)

reject_raw_iff_example : (reject_raw metadata ≢ none) ↔ HasRaw metadata
reject_raw_iff_example = reject_raw_iff metadata
