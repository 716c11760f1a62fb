-- ===== src/Workflow/Rounds/Outcome.antt =====
-- What holds of the states when the loop says that the run has succeeded.
use duraclaw.Json.{Fields}
use duraclaw.Shared.{ℕ, zero, suc, ◌≡◌, refl, sym, subst, List, String, Option, none, some, In}
use duraclaw.Workflow.Execute.{Outside}
use duraclaw.Workflow.Execute.Bounded.{IsBounded}
use duraclaw.Workflow.Graph.{Graph}
use duraclaw.Workflow.Queue.Frame.{state_nodes, Unique, Distinct}
use duraclaw.Workflow.Rounds.{
  Answer, result, Turn, stop, again, turn, go_on, run_turns, turns_for, run_ready_queue,
}
use duraclaw.Workflow.Rounds.Limits.{turn-Kept}
use duraclaw.Workflow.Rounds.RetryPolicy.{Kept, KeptTurn}
use duraclaw.Workflow.Rounds.Marked.{IsDone, Ended, Ends}
use duraclaw.Workflow.Rounds.Success.{turn-Ends}
use duraclaw.Workflow.Store.{succeeded, NodeState, World}

abbrev pub EndedRun : Option Answer × World → Type 0
EndedRun (none, v) = Unit
EndedRun (some a, v) = Ended a v

module _ (g : Graph) (ks : List String) (u : Unique ks) where
  run_turns-EndedRun :
      (o : Outside) (fuel n : ℕ) (out : Fields) (w : World)
      → Kept g ks u w
      → EndedRun (run_turns o g fuel n out w)
  unfolding run_turns
  run_turns-EndedRun o zero n out w p = tt
  run_turns-EndedRun o (suc fuel) n out w p =
      go (λ m collected v q. run_turns-EndedRun o fuel m collected v q) (turn o g n out w)
        (turn-Kept g ks u o n out w p) (turn-Ends o g n out w (subst Unique (sym p.0) u))
    where
      go :
          ((m : ℕ) (collected : Fields) (v : World)
            → Kept g ks u v
            → EndedRun (run_turns o g fuel m collected v))
          → (r : Turn × World) → KeptTurn g ks u r
          → Ends r
          → EndedRun (go_on (run_turns o g fuel) r)
      go rest (stop a, v) q e = e
      go rest (again m collected, v) q e = rest m collected v q

-- From a world with one row for each node, all within the retry policies of their nodes: where
-- `runReadyQueue` returns that the run has succeeded, whatever calls failed on the way, the row of the
-- run says so, and every node has succeeded or is skipped.
pub run_ready_queue_success :
    (o : Outside) (g : Graph) (initial : Fields) (w : World) (k : String) (out : Fields)
    → Distinct w.states
    → ((s : NodeState) → In s w.states → IsBounded g s)
    → (run_ready_queue o g initial w).0 ≡ some (result succeeded k out)
    → ((run_ready_queue o g initial w).1.run_status ≡ succeeded)
      × ((s : NodeState) → In s (run_ready_queue o g initial w).1.states → IsDone s)
unfolding run_ready_queue
run_ready_queue_success o g initial w k out d h e =
    subst (λ a. EndedRun (a, (run_turns o g (turns_for w) 0 initial w).1)) e
      (run_turns-EndedRun g (state_nodes w.states) d o (turns_for w) 0 initial w (refl, h))
