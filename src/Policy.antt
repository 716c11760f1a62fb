-- ===== src/Policy.antt =====
-- The policy engine (internal/policy/policy.go): what it is told of a call, and the parts of it.
-- Lower-casing by the tables of Unicode and the regular expressions of Go are parameters.
pub mod Redact
pub mod Match
pub mod Engine
pub mod Artifact
mod Tests
use duraclaw.Json.{Fields, Raw}
use duraclaw.Shared.{Bool, List, String, Option}

-- `strings.ToLower`, `regexp.MatchString` (none where the pattern does not compile) and
-- `ReplaceAllString` of a compiled pattern.
pub record TextTools : Type 0 where
  pub to_lower : String → String
  pub matches : String → String → Option Bool
  pub replace_all : String → String → String → String

-- `Context`, the fields that conditions and records read.
pub record Context : Type 0 where
  pub customer_id : String
  pub user_id : String
  pub agent_instance_id : String
  pub session_id : String
  pub run_id : String
  pub step_id : String
  pub workflow_run_id : String
  pub workflow_node_key : String
  pub tool_name : String
  pub workflow_id : String
  pub artifact_id : String
  pub processor : String
  pub content : String
  pub additional_fields : Fields

-- What the engine reads of `db.PolicyRule`.
pub record Rule : Type 0 where
  pub id : String
  pub policy_pack_id : String
  pub rule_type : String
  pub condition : Raw
  pub action : String
  pub instruction_text : String
