-- ===== src/Workflow/Entry/Laws.antt =====
-- What the entry points leave behind.
use duraclaw.Json.{Json, object, field, end}
use duraclaw.Shared.{◌≡◌, ◌≢◌, String, Option, none, some, In}
use duraclaw.Workflow.Entry.{
  Executed, missing_id, not_loaded, refused, not_prepared, ran, Answered, missing_field, answered,
}
use duraclaw.Workflow.Graph.{Graph}
use duraclaw.Workflow.Store.{queued, running, succeeded, awaiting_user, NodeState, World, ok, err}
use duraclaw.Workflow.Validate.Sound.{IsRunnable}

-- What `StartAskUser` leaves: nothing without the ids, and else, if it returns no error, a workflow
-- run and a host run that await the user.
abbrev pub AskLeaves : World → Answered × World → Type 0
AskLeaves w (missing_field, v) = v ≡ w
AskLeaves w (answered (ok u), v) = (v.run_status ≡ awaiting_user) × (v.host_status ≡ awaiting_user)
AskLeaves w (answered (err e), v) = Unit

-- What `ResumeAwaitingUser` leaves.
abbrev pub ResumeLeaves : String → Json → World → Answered × World → Type 0
ResumeLeaves k response w (missing_field, v) = v ≡ w
ResumeLeaves k response w (answered (err e), v) = Unit
ResumeLeaves k response w (answered (ok u), v) =
    ((t : NodeState)
      → In t v.states
      → t.node ≡ k
      → (t.status ≡ succeeded) × (t.output ≡ object (field "response" response end)))
    × (v.run_status ≡ running)
    × (v.host_status ≡ queued)

-- What `ExecuteGraph` says of the definition and of the world.
abbrev pub ExecuteLeaves : Option Graph → World → Executed × World → Type 0
ExecuteLeaves graph w (missing_id, v) = v ≡ w
ExecuteLeaves graph w (not_loaded, v) = v ≡ w
ExecuteLeaves graph w (refused e, v) = v ≡ w
ExecuteLeaves graph w (not_prepared e, v) =
    (g : Graph) × (start : String) × (graph ≡ some g) × IsRunnable g start
ExecuteLeaves graph w (ran a, v) =
    (g : Graph) × (start : String) × (graph ≡ some g) × IsRunnable g start × (a ≢ none)
