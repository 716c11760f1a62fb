-- ===== src/Runtime/Run/Refused.antt =====
-- The runs that the judge refuses (`process`, `completeOutOfScopeRun`, `completeModerationDeniedRun`).
use duraclaw.Runtime.Calls.{or_fault}
use duraclaw.Runtime.Finish.{
  Run, Scope, Service, moderation_denied, workflow_id_from_input, or_else, refuse,
  complete_out_of_scope_run, complete_moderation_denied_run,
}
use duraclaw.Runtime.Run.Told.{Any, Log, Log-Closed, given_quietly, Spoke, refuse-Spoke}
use duraclaw.Runtime.Run.Judged.{run_once-judged}
use duraclaw.Runtime.Yields.{Yields, Yields-if_given, Yields-weaken}
use duraclaw.Runtime.Finish.Kept.{out_of_scope-Keeps, moderation_denied-Keeps}
use duraclaw.Runtime.Keeps.{Keeps, Keeps-if_given, Keeps-with_world, Closed}
use duraclaw.Runtime.Keeps.Tools.{or_fault-Keeps}
use duraclaw.Runtime.Limits.{
  length-finish_mcp, Gives, Gives-return, Gives-fail, Gives-bind, Gives-with_world,
  Keeps-bind_given,
}
use duraclaw.Runtime.Run.{
  is_broadcast_generation_run, guarded_run, scoped_run, judged_run, judge_run, run_once,
}
use duraclaw.Runtime.Run.Kept.{run_once-Keeps_judged}
use duraclaw.Runtime.Store.{World, Notice, posted, ok, with_world}
use duraclaw.Shared.{
  ◌≡◌, refl, subst, sym, inl, inr, ◌⊎◌, ◌∙◌, Bool, true, false, not, ◌&&◌, List, String,
  if◌then◌else◌, [], ◌∷◌, Option, none, some, str_eq, length,
}

abbrev pub injects : Run → Scope → Bool
injects r s = s.injection_risk && not (str_eq (workflow_id_from_input r) "")

-- The judge refuses a message: it is denied, it is out of scope, or it asks for a workflow and seems to
-- inject a prompt.
abbrev pub Refuses : Run → Scope → Type 0
Refuses r s = (moderation_denied s ≡ true) ⊎ ((s.in_scope ≡ false) ⊎ (injects r s ≡ true))

-- No tool call and no MCP call was started, and the model was not called.
abbrev pub Untouched : World → World → Type 0
Untouched v w =
    (w.tool_calls ≡ v.tool_calls)
    × (length w.mcp_calls ≡ length v.mcp_calls)
    × (w.model_calls ≡ v.model_calls)

Untouched-Closed : (v : World) → Closed (Untouched v)
Untouched-Closed v = record {
  ticks = λ w p. p;
  with_steps = λ w ss p. p;
  with_checkpoints = λ w cs p. p;
  with_run_state = λ w s p. p;
  with_mcp_states = λ w i s p. (p.0, length-finish_mcp i s w.mcp_calls ∙ p.1, p.2);
}

module _ (v : World) (o : Service) (r : Run) where
  abbrev c : Closed (Untouched v)
  c = Untouched-Closed v

  abbrev posts : (w : World) (n : Notice) → Untouched v w → Untouched v (posted (n ∷ []) w)
  posts w n p = p

  refused-Keeps : (s : Scope) → Refuses r s → Keeps (Untouched v) (judged_run o r s)
  unfolding judged_run scoped_run guarded_run
  refused-Keeps s h =
      Keeps-if_given (moderation_denied s) _ _ (λ t. moderation_denied-Keeps c posts o r _)
        λ a.
          Keeps-if_given s.in_scope _ _
            (λ b.
              Keeps-if_given (injects r s) _ _ (λ t. out_of_scope-Keeps c posts o r _)
                (λ d. absurd (elim h [ inl e ↦ cc | inr (inl e) ↦ cc | inr (inr e) ↦ cc ])))
            (λ b. out_of_scope-Keeps c posts o r _)

  judged :
      (x : Option Scope)
      → ((s : Scope) → x ≡ some s → Refuses r s)
      → Gives (Refuses r) (or_fault o.model.calls x)
  unfolding or_fault
  judged none h = Gives-bind _ _ λ u. Gives-fail _
  judged (some s) h = Gives-bind _ _ λ u. Gives-return s (h s refl)

  judge_run-Keeps :
      is_broadcast_generation_run o r ≡ false
      → ((w : World) (s : Scope) → o.judge_scope w ≡ some s → Refuses r s)
      → Keeps (Untouched v) (judge_run o r)
  unfolding judge_run
  judge_run-Keeps e h =
      Keeps-if_given (is_broadcast_generation_run o r) _ _ (λ t. absurd (cc))
        λ f.
          Keeps-bind_given (Keeps-with_world _ (λ w. or_fault-Keeps c o.model.calls _))
            (Gives-with_world _ (λ w. judged (o.judge_scope w) (h w))) refused-Keeps

-- What a refused message is answered with: what the judge recommends, or a text for each reason.
abbrev pub refusal_text : Service → Run → Scope → String
refusal_text o r s =
    if moderation_denied s
    then or_else o r s.recommended_response
        "I cannot help with that message. Please keep the conversation respectful and safe."
    else if s.in_scope
    then or_else o r
        "I can help with the request in chat, but I cannot run a workflow from a message that includes instructions to bypass or alter my safeguards."
        "I cannot help with that request because it is outside my configured scope."
    else or_else o r s.recommended_response
        "I cannot help with that request because it is outside my configured scope."

-- The log has grown by one answer and nothing else: the refusal of what the judge has found.
abbrev pub SaysRefusal : Service → Run → List Notice → World → Type 0
SaysRefusal o r ns w =
    (v : World) × ((s : Scope) × (o.judge_scope v ≡ some s)
      × Spoke o r (refusal_text o r s) true ns w)

module _ (ns : List Notice) (o : Service) (r : Run)
    (h : (w : World) (s : Scope) → o.judge_scope w ≡ some s → Refuses r s) where
  -- The judge has found this.
  abbrev Found : Scope → Type 0
  Found s = (v : World) × (o.judge_scope v ≡ some s)

  refused-Says :
      (s : Scope) → Found s → Yields (Log ns) (λ u. SaysRefusal o r ns) Any (judged_run o r s)
  unfolding judged_run scoped_run guarded_run complete_out_of_scope_run
      complete_moderation_denied_run
  refused-Says s (v, e) =
      Yields-if_given (moderation_denied s) _ _ (λ t. says _ (rw t refl))
        λ a.
          Yields-if_given s.in_scope _ _
            (λ b.
              Yields-if_given (injects r s) _ _ (λ t. says _ (rw (a, b) refl))
                (λ d. absurd (elim (h v s e) [ inl p ↦ cc | inr (inl p) ↦ cc | inr (inr p) ↦ cc ])))
            (λ b. says _ (rw (a, b) refl))
    where
      says :
          (a : String)
          → a ≡ refusal_text o r s
          → Yields (Log ns) (λ u. SaysRefusal o r ns) Any (refuse o r a)
      says a p =
          subst (λ x. Yields (Log ns) (λ u. SaysRefusal o r ns) Any (refuse o r x)) (sym p)
            (Yields-weaken (λ u w q. (v, (s, e, q))) (refuse-Spoke o r (refusal_text o r s) ns))

  judge_scope-Gives : Gives Found (with_world (λ w. or_fault o.model.calls (o.judge_scope w)))
  unfolding or_fault
  judge_scope-Gives = Gives-with_world _ (λ w. read w (o.judge_scope w) refl)
    where
      read :
          (w : World) (x : Option Scope)
          → o.judge_scope w ≡ x
          → Gives Found (or_fault o.model.calls x)
      read w none e = Gives-bind _ _ λ u. Gives-fail _
      read w (some s) e = Gives-bind _ _ λ u. Gives-return s (w, e)

  judge_run-Says :
      is_broadcast_generation_run o r ≡ false
      → Yields (Log ns) (λ u. SaysRefusal o r ns) Any (judge_run o r)
  unfolding judge_run
  judge_run-Says f =
      Yields-if_given (is_broadcast_generation_run o r) _ _ (λ t. absurd (cc))
        λ e.
          given_quietly (Keeps-with_world _ (λ w. or_fault-Keeps (Log-Closed ns) o.model.calls _))
            judge_scope-Gives refused-Says

-- A run whose message the judge refuses whenever it answers, and that is no broadcast, starts no tool
-- call and no MCP call and does not call the model for an answer, however it ends. Where it ends without
-- an error, it has said just the refusal of what the judge has found, as one message of the assistant
-- that is kept out of later contexts, handed on once where there is an outbound service; a parent that
-- delegated it is told the same, once, or not at all.
pub run_once-Refuses :
    (o : Service) (r : Run) (w : World)
    → is_broadcast_generation_run o r ≡ false
    → ((v : World) (s : Scope) → o.judge_scope v ≡ some s → Refuses r s)
    → Untouched w (run_once o r w).1
      × ((run_once o r w).0 ≡ ok true → SaysRefusal o r w.sent (run_once o r w).1)
run_once-Refuses o r w e h = (
  (run_once-Keeps_judged (Untouched-Closed w) (λ v n p. p) o r (judge_run-Keeps w o r e h)).at w
      (refl, refl, refl),
  run_once-judged o r w.sent (SaysRefusal o r w.sent) (judge_run-Says w.sent o r h e) w refl,
)
