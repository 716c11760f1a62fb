-- ===== src/Runtime/Run/Settled.antt =====
-- The state that a run is left in (`RunOnce`, `process`).
use duraclaw.Runtime.Finish.{
  Run, Scope, Service, Quota, within_quota, exceeded, unread, fails, deliver, by_deferred,
  await_deferred, finalize_assistant_response, finalize_suppressed, refuse,
  complete_out_of_scope_run, complete_moderation_denied_run,
}
use duraclaw.Runtime.Finish.Kept.{end_delegation-Keeps, refinement-Keeps, fail_delegation-Keeps}
use duraclaw.Runtime.Keeps.{Keeps}
use duraclaw.Runtime.Loop.{Response, is_stopped}
use duraclaw.Runtime.Run.{
  finish, answered_run, converse, work, by_delegated, in_scope_run, guarded_run, scoped_run,
  judged_run, judge_run, process, stop_run, fail_run, settled, process_claimed, by_quota, by_claim,
  run_once,
}
use duraclaw.Runtime.Store.{
  World, Failure, fault, stopped, iterations_exceeded, tool_calls_exceeded, denied, tool_failed,
  Result, ok, err, M, ◌>>=◌, ◌>>◌, return, fail, with_world, attempt, wait, tick, call,
  complete_run, set_run_state, plain_call,
}
use duraclaw.Runtime.Yields.{
  Yields, Ends, Yields-fail, Yields-with_world, Yields-if, Yields-bind, Yields-keep,
}
use duraclaw.Shared.{
  ℕ, ◌≡◌, refl, inl, inr, Bool, true, false, List, [], ◌∷◌, String, Option, none, some, Bool-cases,
}

abbrev IsCompleted : World → Type 0
IsCompleted w = w.run_state ≡ "completed"

abbrev Any : World → Type 0
Any w = Unit {0}

-- Where `m` returns without an error, the run is completed.
abbrev Completes : M (Unit {0}) → Type 0
Completes m = Yields Any (λ u. IsCompleted) Any m

anything : {A : Type 0} {m : M A} → Yields Any (λ a. Any) Any m
anything {A} {m} = record { at = λ w p. go (m w).0 (m w).1 }
  where
    go : (r : Result A) (v : World) → Ends (λ a. Any) Any r v
    go (ok a) v = tt
    go (err e) v = tt

-- What is done before the run is completed does not matter.
infixr 5 ◌then◌
abbrev ◌then◌ :
    {A : Type 0} (m : M A) {f : A → M (Unit {0})}
    → ((a : A) → Completes (f a))
    → Completes (m >>= f)
m then k = Yields-bind m _ anything k

complete_run-Completes : (fails : ℕ → Bool) → Completes (complete_run fails)
unfolding complete_run call
complete_run-Completes fails = record {
  at = λ w p. elim (Bool-cases (fails w.clock)) [ inl t ↦ rw t tt | inr f ↦ rw f refl ];
}

module _ (o : Service) (r : Run) where
  -- What follows on the end of the run leaves it completed.
  stays : {m : M (Unit {0})} → Keeps IsCompleted m → Completes (complete_run (fails o r) >> m)
  stays k = Yields-bind _ _ (complete_run-Completes (fails o r)) λ u. Yields-keep (λ w q. tt) k

  deliver-Completes : (answer : String) (excluded : Bool) → Completes (deliver o r answer excluded)
  unfolding deliver
  deliver-Completes answer excluded =
      _ then λ u. _ then λ u. stays (end_delegation-Keeps (λ w p. p) (λ w n p. p) o r answer)

  finalize-Completes : (answer : String) → Completes (finalize_assistant_response o r answer)
  unfolding finalize_assistant_response await_deferred by_deferred
  finalize-Completes answer =
      Yields-if _ _ _
        (_ then λ u. _ then λ n.
          Yields-if _ _ _ (deliver-Completes answer _)
            (stays (refinement-Keeps (λ w p. p) (λ w n p. p) o r)))
        (deliver-Completes answer _)

  refuse-Completes : (answer : String) → Completes (refuse o r answer)
  unfolding refuse
  refuse-Completes answer = _ then λ u. deliver-Completes answer _

  out_of_scope-Completes : (said : String) → Completes (complete_out_of_scope_run o r said)
  unfolding complete_out_of_scope_run
  out_of_scope-Completes said = refuse-Completes _

  denied-Completes : (said : String) → Completes (complete_moderation_denied_run o r said)
  unfolding complete_moderation_denied_run
  denied-Completes said = refuse-Completes _

  answered-Completes : (a : Option Response) → Completes (answered_run o r a)
  unfolding answered_run finish finalize_suppressed
  answered-Completes none = Yields-fail _ (λ w p. tt)
  answered-Completes (some a) = _ then λ u.
      Yields-with_world _
        λ w. _ then λ u. Yields-if _ _ _ (complete_run-Completes (fails o r)) (finalize-Completes _)

  work-Completes : (s : Scope) → Completes (work o r s)
  unfolding work converse
  work-Completes s = _ then λ extra. _ then λ said. _ then λ u.
      _ then λ u. _ then λ u. _ then λ messages. _ then λ tools. _ then λ a. answered-Completes a

  in_scope-Completes : (s : Scope) → Completes (in_scope_run o r s)
  unfolding in_scope_run
  in_scope-Completes s = Yields-if _ _ _ (_ then λ ds. delegated-Completes ds) (work-Completes s)
    where
      delegated-Completes : (ds : List String) → Completes (by_delegated o r s ds)
      delegated-Completes [] = work-Completes s
      delegated-Completes (d ∷ ds) = finalize-Completes _

  scoped-Completes : (s : Scope) → Completes (scoped_run o r s)
  unfolding scoped_run guarded_run
  scoped-Completes s =
      Yields-if _ _ _ (Yields-if _ _ _ (out_of_scope-Completes _) (in_scope-Completes s))
        (out_of_scope-Completes _)

  judged-Completes : (s : Scope) → Completes (judged_run o r s)
  unfolding judged_run
  judged-Completes s = Yields-if _ _ _ (denied-Completes _) (scoped-Completes s)

  process-Completes : Completes (process o r)
  unfolding process judge_run
  process-Completes = _ then λ u. _ then λ u. _ then λ u.
      _ then λ u. Yields-if _ _ _ (in_scope-Completes _) (_ then λ s. judged-Completes s)

-- What the end of `RunOnce` says of the state: a run that is processed is completed, no run is touched
-- where none is claimed, and an error that does not stop the run makes it fail.
abbrev pub Settled : World → Result Bool → World → Type 0
Settled w (ok true) v = v.run_state ≡ "completed"
Settled w (ok false) v = v.run_state ≡ w.run_state
Settled w (err (stopped s)) v = Unit {0}
Settled w (err e) v = v.run_state ≡ "failed"

abbrev Settling : World → M Bool → Type 0
Settling w m = (v : World) → Settled w (m v).0 (m v).1

module _ (o : Service) (r : Run) (never : (t : ℕ) → fails o r t ≡ false) (w : World) where
  stop_run-Settled : (s : String) → Settling w (stop_run o r s)
  unfolding stop_run fail attempt ◌>>=◌
  stop_run-Settled s v = elim (Bool-cases (is_stopped o.model s)) [
    | inl t ↦ rw t tt
    | inr f ↦ rw f tt
  ]

  -- The last two actions after a failure keep the state that the first has set.
  fail_run-failed : (e : Failure) (v : World) → (fail_run o r e v).1.run_state ≡ "failed"
  unfolding fail_run set_run_state call attempt fail ◌>>=◌
  fail_run-failed e v = rw (never v.clock) (
      (fail_delegation-Keeps {P = λ x. x.run_state ≡ "failed"} (λ x p. p) (λ x n p. p) o r).at
        (record (tick v) { run_state = "failed" }) refl)

  fail_run-err : (e : Failure) (v : World) → (fail_run o r e v).0 ≡ err e
  unfolding fail_run attempt fail ◌>>=◌
  fail_run-err e v = refl

  settled-Settled :
      (result : Result (Unit {0})) (v : World)
      → Ends (λ u. IsCompleted) Any result v
      → Settled w (settled o r result v).0 (settled o r result v).1
  unfolding return
  settled-Settled (ok u) v p = p
  settled-Settled (err (stopped s)) v p = stop_run-Settled s v
  settled-Settled (err fault) v p = rw (fail_run-err fault v) (fail_run-failed fault v)
  settled-Settled (err (iterations_exceeded n)) v p =
      rw (fail_run-err (iterations_exceeded n) v) (fail_run-failed (iterations_exceeded n) v)
  settled-Settled (err (tool_calls_exceeded n m)) v p =
      rw (fail_run-err (tool_calls_exceeded n m) v) (fail_run-failed (tool_calls_exceeded n m) v)
  settled-Settled (err (denied s)) v p =
      rw (fail_run-err (denied s) v) (fail_run-failed (denied s) v)
  settled-Settled (err tool_failed) v p =
      rw (fail_run-err tool_failed v) (fail_run-failed tool_failed v)

  claimed-Settled : Settling w (process_claimed o r)
  unfolding process_claimed
  claimed-Settled v =
      settled-Settled (process o r v).0 (process o r v).1 ((process-Completes o r).at v tt)

  by_quota-Settled : (q : Quota) → (q ≡ unread → ⊥) → Settling w (by_quota o r q)
  unfolding wait attempt set_run_state call fail ◌>>=◌
  by_quota-Settled within_quota h v = claimed-Settled (tick v)
  by_quota-Settled exceeded h v = rw (never (tick v).clock) refl
  by_quota-Settled unread h v = absurd (h refl)

-- Where no call of the store fails and the quota can be read, no run that a worker claims is left queued,
-- leased or running by an error of its own: after `RunOnce` it is completed when that returns no error,
-- and failed when that returns an error that is not of a run that others stopped or that waits for its
-- user. Where no run is queued the state is as it was.
pub run_once-Settled :
    (o : Service) (r : Run) (w : World)
    → ((t : ℕ) → fails o r t ≡ false)
    → ((v : World) → o.quota v ≡ unread → ⊥)
    → Settled w (run_once o r w).0 (run_once o r w).1
unfolding run_once plain_call set_run_state call with_world return ◌>>=◌
run_once-Settled o r w never h = rw (never w.clock) (by_claim-Settled (o.queued (tick w)))
  where
    by_claim-Settled :
        (b : Bool) → Settled w (by_claim o r b (tick w)).0 (by_claim o r b (tick w)).1
    by_claim-Settled false = rw (never (tick w).clock) refl
    by_claim-Settled true = rw (never (tick w).clock) (
        by_quota-Settled o r never w _ (h (record (tick (tick w)) { run_state = "leased" }))
          (record (tick (tick w)) { run_state = "leased" }))
