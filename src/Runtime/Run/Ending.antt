-- ===== src/Runtime/Run/Ending.antt =====
-- What a run says in each of its phases, up to its end (`RunOnce`, `process`, `finalizeAssistantResponse`).
use duraclaw.Json.{Json}
use duraclaw.Runtime.Calls.{Outside, or_fault}
use duraclaw.Runtime.Finish.{
  Run, Scope, Service, fails, create_refinement_run, by_deferred, await_deferred,
  finalize_assistant_response, finalize_suppressed, refuse, complete_out_of_scope_run,
  complete_moderation_denied_run,
}
use duraclaw.Runtime.Keeps.{
  Keeps, Keeps-with_world, ◌and◌, wait-Keeps, plain_call-Keeps, complete_run-Keeps,
  checkpoint-Keeps,
}
use duraclaw.Runtime.Keeps.Calls.{execute_tool_calls-Keeps}
use duraclaw.Runtime.Keeps.Tools.{GraphsKeep, enforce-Keeps, demand-Keeps, or_fault-Keeps}
use duraclaw.Runtime.Limits.{Gives, Gives-return, Gives-fail, Gives-bind, Gives-with_world}
use duraclaw.Runtime.Loop.{Message, Response, agent_loop}
use duraclaw.Runtime.Loop.Kept.{ensure_runnable-Keeps, agent_loop-Keeps}
use duraclaw.Runtime.Run.{
  is_broadcast_generation_run, finish, answered_run, converse, work, by_delegated,
  should_scan_agent_delegations, in_scope_run, guarded_run, scoped_run, judged_run, judge_run,
  run_once,
}
use duraclaw.Runtime.Run.Kept.{workflow-Keeps, context-Keeps, offered-Keeps}
use duraclaw.Runtime.Store.{World, Notice, ok, M, with_world}
use duraclaw.Runtime.Yields.{Yields, Yields-fail, Yields-with_world, Yields-if, Yields-if_given}
use duraclaw.Shared.{
  ℕ, ◌∙◌, ap, ◌<◌, ◌≡◌, refl, arith, Bool, true, false, List, [], ◌∷◌, String, Option, none, some,
  ltb, ◌==◌,
}
use duraclaw.Runtime.Run.Told.{
  Any, Log, Log-Closed, ◌quietly◌, given_quietly, Tells, nothing_waits, last_word, refusal,
  broadcasts, refined, deliver-Spoke, refuse-Spoke, Spoke-Tells, silent-Tells,
}
use duraclaw.Runtime.Run.Judged.{run_once-judged}

-- No workflow writes a message or hands anything on.
abbrev pub SaysNothing : Outside → Type 0
SaysNothing o = (k : String) (i : Json) (w : World) → (o.run_graph k i w).1.sent ≡ w.sent

module _ (o : Service) (r : Run) (s : List Notice) (quiet : SaysNothing o.model.calls) where
  graphs : GraphsKeep (Log s) o.model.calls
  graphs k i w p = quiet k i w ∙ p

  -- So many messages were found that wait for the run.
  abbrev WereDeferred : ℕ → Type 0
  WereDeferred n = (v : World) × (o.deferred v ≡ some n)

  -- Where the run returns without an error, it has told what it has to.
  abbrev Ending : M (Unit {0}) → Type 0
  Ending m = Yields (Log s) (λ u. Tells o r s) Any m

  claimed-Gives : Gives WereDeferred (with_world (λ w. or_fault o.model.calls (o.deferred w)))
  unfolding or_fault
  claimed-Gives = Gives-with_world _ (λ w. read w (o.deferred w) refl)
    where
      read :
          (w : World) (x : Option ℕ)
          → o.deferred w ≡ x
          → Gives WereDeferred (or_fault o.model.calls x)
      read w none e = Gives-bind _ _ λ u. Gives-fail _
      read w (some n) e = Gives-bind _ _ λ u. Gives-return n (w, e)

  by_deferred-Tells :
      is_broadcast_generation_run o r ≡ false
      → r.refinement_depth < o.max_refine_depth
      → (a : String) (n : ℕ) → WereDeferred n
      → Ending (by_deferred o r a n)
  unfolding by_deferred create_refinement_run
  by_deferred-Tells f l a n (v, e) =
      let plain = plain_call-Keeps (Log-Closed s) (fails o r) in
      Yields-if_given (n == 0) _ _
        (λ t.
          Spoke-Tells o r a false s (nothing_waits f v (e ∙ ap some (ground arith)))
            (deliver-Spoke o r a false s))
        (λ d. silent-Tells o r s (refined f l v n (ground arith) e) (
          complete_run-Keeps (Log-Closed s) (fails o r) and λ u.
          plain and λ u. plain and λ u. plain and λ u. plain))

  finalize-Tells :
      is_broadcast_generation_run o r ≡ false
      → (a : String) → Ending (finalize_assistant_response o r a)
  unfolding finalize_assistant_response await_deferred
  finalize-Tells f a =
      let c = Log-Closed s in
      Yields-if_given (ltb r.refinement_depth o.max_refine_depth) _ _
        (λ t. demand-Keeps c o.model.calls o.waits quietly λ u.
          given_quietly (Keeps-with_world _ (λ w. or_fault-Keeps c o.model.calls _)) claimed-Gives
            (λ n. by_deferred-Tells f (ground arith) a n))
        (λ e. Spoke-Tells o r a false s (last_word f (ground arith)) (deliver-Spoke o r a false s))

  refuse-Tells : is_broadcast_generation_run o r ≡ false → (a : String) → Ending (refuse o r a)
  refuse-Tells f a = Spoke-Tells o r a true s (refusal f) (refuse-Spoke o r a s)

  answered-Tells : (a : Option Response) → Ending (answered_run o r a)
  unfolding answered_run finish finalize_suppressed
  answered-Tells none = Yields-fail _ (λ w p. tt)
  answered-Tells (some a) = checkpoint-Keeps (Log-Closed s) (fails o r) _ quietly λ u.
      Yields-with_world _ λ w. wait-Keeps (Log-Closed s) quietly λ u.
      Yields-if_given (is_broadcast_generation_run o r) _ _
        (λ t. silent-Tells o r s (broadcasts t) (complete_run-Keeps (Log-Closed s) (fails o r)))
        (λ f. finalize-Tells f _)

  loop-Keeps :
      (ms : List Message) (defs : List String) (force : Bool)
      → Keeps (Log s) (agent_loop o.model ms defs force)
  loop-Keeps =
      agent_loop-Keeps (Log-Closed s) o.model (λ v q. q)
        (execute_tool_calls-Keeps (Log-Closed s) o.model.calls (λ w ts p. p) (λ w ms p. p) graphs)

  work-Tells : (k : Scope) → Ending (work o r k)
  unfolding work converse
  work-Tells k =
      let c = Log-Closed s in
      workflow-Keeps c o r graphs quietly λ extra. context-Keeps c o r extra quietly λ said.
      ensure_runnable-Keeps c o.model quietly λ u. demand-Keeps c o.model.calls _ quietly λ u.
      enforce-Keeps c o.model.calls _ _ quietly λ u.
      Keeps-with_world _ (λ w. or_fault-Keeps c o.model.calls _) quietly λ messages.
      offered-Keeps c o r _ said quietly λ tools.
      loop-Keeps messages tools.0 tools.1 quietly λ a. answered-Tells a

  in_scope-Tells : (k : Scope) → Ending (in_scope_run o r k)
  unfolding in_scope_run should_scan_agent_delegations
  in_scope-Tells k =
      Yields-if_given (should_scan_agent_delegations o r k) _ _
        (λ t. Keeps-with_world _ (λ w. or_fault-Keeps (Log-Closed s) o.model.calls _) quietly λ ds.
          delegated-Tells t ds)
        (λ f. work-Tells k)
    where
      no_broadcast :
          should_scan_agent_delegations o r k ≡ true → is_broadcast_generation_run o r ≡ false
      no_broadcast t = ground arith

      delegated-Tells :
          should_scan_agent_delegations o r k ≡ true
          → (ds : List String) → Ending (by_delegated o r k ds)
      delegated-Tells t [] = work-Tells k
      delegated-Tells t (d ∷ ds) = finalize-Tells (no_broadcast t) _

  scoped-Tells : is_broadcast_generation_run o r ≡ false → (k : Scope) → Ending (scoped_run o r k)
  unfolding scoped_run guarded_run complete_out_of_scope_run
  scoped-Tells f k =
      Yields-if _ _ _ (Yields-if _ _ _ (refuse-Tells f _) (in_scope-Tells k)) (refuse-Tells f _)

  judged-Tells : is_broadcast_generation_run o r ≡ false → (k : Scope) → Ending (judged_run o r k)
  unfolding judged_run complete_moderation_denied_run
  judged-Tells f k = Yields-if _ _ _ (refuse-Tells f _) (scoped-Tells f k)

  judge_run-Tells : Ending (judge_run o r)
  unfolding judge_run
  judge_run-Tells =
      Yields-if_given (is_broadcast_generation_run o r) _ _ (λ t. in_scope-Tells _)
        (λ f. Keeps-with_world _ (λ w. or_fault-Keeps (Log-Closed s) o.model.calls _) quietly λ k.
          judged-Tells f k)

-- Where no workflow says anything for the run, a run that the worker brings to its end without an error
-- has said just one answer, as one message of the assistant, and has handed it on once where there is an
-- outbound service; its parent has been told the same, once, or not at all, and only where the run was
-- delegated. It is a refusal, or the run may not be refined again, or no message was found that waits
-- for it, and the run does not generate a broadcast. Or it has said nothing: then it generates a
-- broadcast, or it may be refined and messages were found that wait for it. The notices of typing and of
-- activities, whose errors the code drops, are not among what is said.
pub run_once-Tells :
    (o : Service) (r : Run) (w : World)
    → SaysNothing o.model.calls
    → (run_once o r w).0 ≡ ok true
    → Tells o r w.sent (run_once o r w).1
run_once-Tells o r w quiet =
    run_once-judged o r w.sent (Tells o r w.sent) (judge_run-Tells o r w.sent quiet) w refl
