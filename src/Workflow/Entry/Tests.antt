-- ===== src/Workflow/Entry/Tests.antt =====
-- The entry points at small requests.
use duraclaw.Json.{end}
use duraclaw.Shared.{◌≡◌, refl, false, [], some}
use duraclaw.Workflow.Entry.{GraphRequest, execute_graph}
use duraclaw.Workflow.Store.{World, succeeded}
use duraclaw.Workflow.Tests.{diamond, permissive, fresh}

abbrev request : GraphRequest
request = record {
  run_id = "r";
  workflow_definition_id = "d";
  channel_type = "";
  channel_user_id = "";
  channel_conversation_id = "";
  location_context = "";
  email_context = "";
  reply_context = "";
  group_context = "";
  input = end;
}

abbrev unprepared : World
unprepared = record fresh { states = [] }

diamond_runs :
    (execute_graph permissive (some diamond) false request unprepared).1.run_status ≡ succeeded
unfolding execute_graph
diamond_runs = refl
