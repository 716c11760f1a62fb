-- ===== src/Runtime/Finish/Kept.antt =====
-- What the calls of the store keep, the end of a run keeps.
use duraclaw.Runtime.Finish.{
  Run, Service, Lookup, broken, missing, found, fails, hand_on, emit_final_outbound, tell_parent,
  by_lookup, end_delegation, deliver, create_refinement_run, by_deferred, await_deferred,
  finalize_assistant_response, finalize_suppressed, refuse, complete_out_of_scope_run,
  complete_moderation_denied_run, fail_delegation_child_run, cancel_delegation_child_run,
}
use duraclaw.Runtime.Keeps.{
  Keeps, Keeps-return, Keeps-fail, Keeps-if, Keeps-with_world, ◌and◌, Closed, wait-Keeps_ticked,
  plain_call-Keeps, plain_call-Keeps_ticked, complete_run-Keeps, post-Keeps_ticked,
}
use duraclaw.Runtime.Keeps.Tools.{demand-Keeps, or_fault-Keeps}
use duraclaw.Runtime.Store.{World, Notice, tick, posted}
use duraclaw.Shared.{ℕ, Bool, [], ◌∷◌, String}

module _ {P : World → Type 0} (ticks : (w : World) → P w → P (tick w))
    (posts : (w : World) (n : Notice) → P w → P (posted (n ∷ []) w)) (o : Service) (r : Run) where
  pub said-Keeps : (n : Notice) → Keeps P (hand_on o r n)
  said-Keeps n =
      Keeps-if _ _ _ (post-Keeps_ticked ticks (fails o r) n (λ w. posts w n)) (Keeps-return _)

  pub emit-Keeps : (answer : String) → Keeps P (emit_final_outbound o r answer)
  unfolding emit_final_outbound
  emit-Keeps answer =
      Keeps-if _ _ _
        (plain_call-Keeps_ticked ticks (fails o r) and λ u.
          plain_call-Keeps_ticked ticks (fails o r) and λ u.
          plain_call-Keeps_ticked ticks (fails o r) and λ u.
          post-Keeps_ticked ticks (fails o r) _ (λ w. posts w _))
        (Keeps-return _)

  tell_parent-Keeps : (said : String) → Keeps P (tell_parent o r said)
  unfolding tell_parent
  tell_parent-Keeps said = plain_call-Keeps_ticked ticks (fails o r) and λ u.
      post-Keeps_ticked ticks (fails o r) _ (λ w. posts w _) and λ u. said-Keeps _

  by_lookup-Keeps : (said : String) (l : Lookup) → Keeps P (by_lookup o r said l)
  by_lookup-Keeps said broken = wait-Keeps_ticked ticks and λ u. Keeps-fail _
  by_lookup-Keeps said missing = wait-Keeps_ticked ticks and λ u. Keeps-return _
  by_lookup-Keeps said found = wait-Keeps_ticked ticks and λ u. tell_parent-Keeps said

  pub end_delegation-Keeps : (said : String) → Keeps P (end_delegation o r said)
  unfolding end_delegation
  end_delegation-Keeps said =
      Keeps-if _ _ _ (Keeps-with_world _ (λ w. by_lookup-Keeps said _)) (Keeps-return _)

  pub fail_delegation-Keeps : Keeps P (fail_delegation_child_run o r)
  unfolding fail_delegation_child_run
  fail_delegation-Keeps = end_delegation-Keeps _

  pub cancel_delegation-Keeps : (s : String) → Keeps P (cancel_delegation_child_run o r s)
  unfolding cancel_delegation_child_run
  cancel_delegation-Keeps s = end_delegation-Keeps _

  pub refinement-Keeps : Keeps P (create_refinement_run o r)
  unfolding create_refinement_run
  refinement-Keeps = plain_call-Keeps_ticked ticks (fails o r) and λ u.
      plain_call-Keeps_ticked ticks (fails o r) and λ u.
      plain_call-Keeps_ticked ticks (fails o r) and λ u. plain_call-Keeps_ticked ticks (fails o r)

module _ {P : World → Type 0} (c : Closed P)
    (posts : (w : World) (n : Notice) → P w → P (posted (n ∷ []) w)) (o : Service) (r : Run) where
  deliver-Keeps : (answer : String) (excluded : Bool) → Keeps P (deliver o r answer excluded)
  unfolding deliver
  deliver-Keeps answer excluded = post-Keeps_ticked c.ticks (fails o r) _ (λ w. posts w _) and λ u.
      emit-Keeps c.ticks posts o r answer and λ u.
      complete_run-Keeps c (fails o r) and λ u. end_delegation-Keeps c.ticks posts o r answer

  by_deferred-Keeps : (answer : String) (n : ℕ) → Keeps P (by_deferred o r answer n)
  unfolding by_deferred
  by_deferred-Keeps answer n =
      Keeps-if _ _ _ (deliver-Keeps answer _)
        (complete_run-Keeps c (fails o r) and λ u. refinement-Keeps c.ticks posts o r)

  await_deferred-Keeps : (answer : String) → Keeps P (await_deferred o r answer)
  unfolding await_deferred
  await_deferred-Keeps answer = demand-Keeps c o.model.calls o.waits and λ u.
      Keeps-with_world _ (λ w. or_fault-Keeps c o.model.calls _) and λ n. by_deferred-Keeps answer n

  pub finalize-Keeps : (answer : String) → Keeps P (finalize_assistant_response o r answer)
  unfolding finalize_assistant_response
  finalize-Keeps answer = Keeps-if _ _ _ (await_deferred-Keeps answer) (deliver-Keeps answer _)

  pub suppressed-Keeps : Keeps P (finalize_suppressed o r)
  unfolding finalize_suppressed
  suppressed-Keeps = complete_run-Keeps c (fails o r)

  refuse-Keeps : (answer : String) → Keeps P (refuse o r answer)
  unfolding refuse
  refuse-Keeps answer = plain_call-Keeps c (fails o r) and λ u. deliver-Keeps answer _

  pub out_of_scope-Keeps : (said : String) → Keeps P (complete_out_of_scope_run o r said)
  unfolding complete_out_of_scope_run
  out_of_scope-Keeps said = refuse-Keeps _

  pub moderation_denied-Keeps : (said : String) → Keeps P (complete_moderation_denied_run o r said)
  unfolding complete_moderation_denied_run
  moderation_denied-Keeps said = refuse-Keeps _
