-- ===== src/Runtime/Run/Judged.antt =====
-- What the phases leave of the log, `RunOnce` leaves of it (`RunOnce`, `process`).
use duraclaw.Runtime.Finish.{Run, Service, Quota, within_quota, exceeded, unread, fails}
use duraclaw.Runtime.Keeps.{
  Keeps-attempt, checkpoint-Keeps, wait-Keeps, plain_call-Keeps, set_run_state-Keeps,
}
use duraclaw.Runtime.Loop.{is_stopped}
use duraclaw.Runtime.Loop.Kept.{ensure_runnable-Keeps}
use duraclaw.Runtime.Run.{
  judge_run, process, stop_run, fail_run, settled, process_claimed, by_quota, by_claim, run_once,
}
use duraclaw.Runtime.Run.Told.{Any, Log, Log-Closed, ◌quietly◌}
use duraclaw.Runtime.Store.{
  World, Notice, fault, stopped, iterations_exceeded, tool_calls_exceeded, denied, tool_failed,
  Result, ok, err, attempt, ◌>>=◌, return, fail,
}
use duraclaw.Runtime.Yields.{Yields, Ends, Yields-return, Yields-fail, Yields-with_world}
use duraclaw.Shared.{◌≡◌, subst, inl, inr, Bool, true, false, List, Bool-cases}

module _ (o : Service) (r : Run) (s : List Notice) (Q : World → Type 0)
    (judged : Yields (Log s) (λ u. Q) Any (judge_run o r)) where
  process-Ends : Yields (Log s) (λ u. Q) Any (process o r)
  unfolding process
  process-Ends =
      let c = Log-Closed s in
      set_run_state-Keeps c (fails o r) _ quietly λ u. plain_call-Keeps c (fails o r) quietly λ u.
      ensure_runnable-Keeps c o.model quietly λ u.
      checkpoint-Keeps c (fails o r) _ quietly λ u. judged

  -- A worker that has claimed no run leaves the log as it is.
  abbrev Ended : Bool → World → Type 0
  Ended true w = Q w
  Ended false w = Log s w

  settled-Ends :
      (result : Result (Unit {0})) (v : World)
      → Ends (λ u. Q) Any result v
      → Ends Ended Any (settled o r result v).0 (settled o r result v).1
  unfolding return stop_run fail_run attempt fail ◌>>=◌
  settled-Ends (ok u) v p = p
  settled-Ends (err (stopped k)) v p = elim (Bool-cases (is_stopped o.model k)) [
    | inl t ↦ rw t tt
    | inr f ↦ rw f tt
  ]
  settled-Ends (err fault) v p = tt
  settled-Ends (err (iterations_exceeded n)) v p = tt
  settled-Ends (err (tool_calls_exceeded n m)) v p = tt
  settled-Ends (err (denied k)) v p = tt
  settled-Ends (err tool_failed) v p = tt

  run_once-Ended : Yields (Log s) Ended Any (run_once o r)
  unfolding run_once process_claimed
  run_once-Ended = plain_call-Keeps (Log-Closed s) (fails o r) quietly λ u.
      Yields-with_world _ (λ w. by_claim-Ends _)
    where
      claimed-Ends : Yields (Log s) Ended Any (process_claimed o r)
      claimed-Ends = record {
        at = λ w p. settled-Ends (process o r w).0 (process o r w).1 (process-Ends.at w p);
      }

      by_quota-Ends : (q : Quota) → Yields (Log s) Ended Any (by_quota o r q)
      by_quota-Ends within_quota = wait-Keeps (Log-Closed s) quietly λ u. claimed-Ends
      by_quota-Ends exceeded = wait-Keeps (Log-Closed s) quietly λ u.
          Keeps-attempt _ (set_run_state-Keeps (Log-Closed s) (fails o r) _) quietly λ u.
          Yields-fail _ (λ w p. tt)
      by_quota-Ends unread = wait-Keeps (Log-Closed s) quietly λ u. Yields-fail _ (λ w p. tt)

      by_claim-Ends : (b : Bool) → Yields (Log s) Ended Any (by_claim o r b)
      by_claim-Ends false =
          plain_call-Keeps (Log-Closed s) (fails o r) quietly λ u. Yields-return _ (λ w p. p)
      by_claim-Ends true = set_run_state-Keeps (Log-Closed s) (fails o r) _ quietly λ u.
          Yields-with_world _ (λ w. by_quota-Ends _)

  pub run_once-judged :
      (w : World) → w.sent ≡ s → (run_once o r w).0 ≡ ok true → Q (run_once o r w).1
  run_once-judged w p e = subst (λ x. Ends Ended Any x (run_once o r w).1) e (run_once-Ended.at w p)
