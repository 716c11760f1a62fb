-- ===== src/Runtime/Loop/Counted.antt =====
-- How often the loop between model and tools calls a model.
use duraclaw.Json.{Json}
use duraclaw.Providers.{Candidate}
use duraclaw.Runtime.Calls.{Call, Outside, execute_tool_calls}
use duraclaw.Runtime.Keeps.{
  Keeps, Keeps-attempt, Keeps-return, ◌and◌, wait-Keeps, Closed, plain_call-Keeps,
  start_run_step-Keeps, complete_run_step-Keeps,
}
use duraclaw.Runtime.Keeps.Calls.{execute_tool_calls-Keeps}
use duraclaw.Runtime.Keeps.Tools.{enforce-Keeps, demand-Keeps}
use duraclaw.Runtime.Loop.{
  Message, Response, Model, State, Next, finished, again, failing_step, replied, pass_over,
  try_candidates, candidates, call_model, iterate, follow, run_iterations, agent_loop,
  max_iterations_for_run, should_require_tool_use,
}
use duraclaw.Runtime.Loop.Kept.{after_model-Keeps, ensure_runnable-Keeps}
use duraclaw.Runtime.Store.{
  World, M, Result, ok, err, cleaned, on_error, complete_run_step, start_model_call, call,
}
use duraclaw.Runtime.Yields.{
  Ends, Yields, Yields-keep, Yields-return, Yields-fail, Yields-bind, Yields-with_world,
  Yields-weaken, Yields-if,
}
use duraclaw.Shared.{
  ℕ, zero, suc, ◌+◌, ◌*◌, ◌≤◌, ◌≡◌, subst, inl, inr, arith, Bool, List, [], ◌∷◌, String, Option,
  none, some, length, Bool-cases,
}

-- A call of a model has been started at most so often.
abbrev pub CalledAtMost : ℕ → World → Type 0
CalledAtMost n w = w.model_calls ≤ n

CalledAtMost-Closed : (n : ℕ) → Closed (CalledAtMost n)
CalledAtMost-Closed n = record {
  ticks = λ w p. p;
  with_steps = λ w ss p. p;
  with_checkpoints = λ w cs p. p;
  with_run_state = λ w s p. p;
  with_mcp_states = λ w i s p. p;
}

-- No workflow of the run calls a model.
abbrev pub CallsNoModel : Outside → Type 0
CallsNoModel o =
    (k : String) (i : Json) (w : World) → (o.run_graph k i w).1.model_calls ≡ w.model_calls

module _ (o : Model) (n : ℕ) (quiet : CallsNoModel o.calls) where
  -- What is left of the bound.
  abbrev Leaves : ℕ → World → Type 0
  Leaves left w = w.model_calls + left ≤ n

  Leaves-Closed : (left : ℕ) → Closed (Leaves left)
  Leaves-Closed left = record {
    ticks = λ w p. p;
    with_steps = λ w ss p. p;
    with_checkpoints = λ w cs p. p;
    with_run_state = λ w s p. p;
    with_mcp_states = λ w i s p. p;
  }

  Leaves-weak : (left : ℕ) (w : World) → Leaves left w → CalledAtMost n w
  Leaves-weak left w p = omega arith

  plainly :
      (left : ℕ) {A : Type 0} {m : M A}
      → Keeps (Leaves left) m
      → Yields (Leaves left) (λ a. Leaves left) (CalledAtMost n) m
  plainly left k = Yields-keep (Leaves-weak left) k

  Yields-failing_step :
      {A : Type 0} {P : World → Type 0} {Q : A → World → Type 0} (id : ℕ) (m : M A)
      → Yields P Q (CalledAtMost n) m
      → Yields P Q (CalledAtMost n) (failing_step o id m)
  unfolding failing_step on_error
  Yields-failing_step {A = A} {Q = Q} id m k = record { at = λ w p. go (m w).0 (m w).1 (k.at w p) }
    where
      go :
          (r : Result A) (v : World)
          → Ends Q (CalledAtMost n) r v
          → Ends Q
              (CalledAtMost n)
              (cleaned r (complete_run_step o.calls.fails id "failed") v).0
              (cleaned r (complete_run_step o.calls.fails id "failed") v).1
      go (ok a) v q = q
      go (err e) v q =
          (complete_run_step-Keeps (CalledAtMost-Closed n) o.calls.fails id "failed").at v q

  abbrev Spends : ℕ → ℕ → {A : Type 0} → M A → Type 0
  Spends before after m = Yields (Leaves before) (λ r. Leaves after) (CalledAtMost n) m

  start_model_call-Spends : (left : ℕ) → Spends (suc left) left (start_model_call o.calls.fails)
  unfolding start_model_call call
  start_model_call-Spends left = record {
    at = λ w p. elim (Bool-cases (o.calls.fails w.clock)) [
      | inl t ↦ rw t (omega arith)
      | inr f ↦ rw f (omega arith)
    ];
  }

  -- What is not spent may be left.
  Spends-weaken :
      {before after : ℕ} {A : Type 0} {m : M A}
      → after ≤ before
      → Keeps (Leaves before) m
      → Spends before after m
  Spends-weaken {before} l k = Yields-weaken (λ a w p. omega (arith, l)) (plainly before k)

  pass_over-Spends :
      (before after : ℕ) {rest : M Response}
      → Spends before after rest
      → Spends before after (pass_over o rest)
  unfolding pass_over
  pass_over-Spends before after k =
      Yields-bind _ _
        (plainly before (Keeps-attempt _ (plain_call-Keeps (Leaves-Closed before) o.calls.fails)))
        λ u. Yields-bind _ _ (plainly before (demand-Keeps (Leaves-Closed before) o.calls _)) λ u. k

  replied-Spends :
      (before after : ℕ) {rest : M Response} (r : Option Response)
      → after ≤ before
      → Spends before after rest
      → Spends before after (replied o rest r)
  replied-Spends before after none l k =
      Yields-bind _ _ (plainly before (wait-Keeps (Leaves-Closed before)))
        λ u. pass_over-Spends before after k
  replied-Spends before after (some r) l k =
      let c = Leaves-Closed before in
      Spends-weaken l (
        wait-Keeps c and λ u. plain_call-Keeps c o.calls.fails and λ u.
        plain_call-Keeps c o.calls.fails and λ u. Keeps-return r)

  -- Each candidate has one call.
  try_candidates-Spends :
      (after : ℕ) (s : State) (must : Bool) (cs : List Candidate)
      → Spends (length cs + after) after (try_candidates o s must cs)
  unfolding try_candidates
  try_candidates-Spends after s must [] = Yields-fail _ (Leaves-weak _)
  try_candidates-Spends after s must (x ∷ cs) =
      subst (λ b. Spends b after (try_candidates o s must (x ∷ cs))) (omega arith)
        (Yields-bind _ _ (plainly (suc left) (demand-Keeps (Leaves-Closed (suc left)) o.calls _))
          λ u. Yields-bind _ _ (start_model_call-Spends left) λ u.
            Yields-if _ _ _
              (Yields-with_world _ (λ w.
                replied-Spends left after _ (omega arith) (try_candidates-Spends after s must cs)))
              (pass_over-Spends left after (try_candidates-Spends after s must cs)))
    where
      left : ℕ
      left = length cs + after

  call_model-Spends :
      (left : ℕ) (s : State) (must : Bool)
      → Spends (length (candidates o) + left) left (call_model o s must)
  unfolding call_model
  call_model-Spends left s must =
      let before = length (candidates o) + left in
      Yields-bind _ _ (plainly before (plain_call-Keeps (Leaves-Closed before) o.calls.fails)) λ u.
        Yields-bind _ _ (try_candidates-Spends left s must (candidates o))
          λ r. Yields-return _ (λ w p. p)

  iterate-Leaves :
      (force : Bool) (limit left iteration : ℕ) (s : State)
      → Yields
          (Leaves (length (candidates o) + left))
          (λ next. Leaves left)
          (CalledAtMost n)
          (iterate o force limit iteration s)
  unfolding iterate
  iterate-Leaves force limit left iteration s =
      let start = length (candidates o) + left in
      let before = Leaves-Closed start in
      let after = Leaves-Closed left in
      Yields-bind _ _ (plainly start (start_run_step-Keeps before o.calls.fails _)) λ id.
        Yields-bind _ _
          (Yields-failing_step id _ (plainly start (enforce-Keeps before o.calls _ _)))
          λ u. Yields-bind _ _ (Yields-failing_step id _ (call_model-Spends left s _)) λ r.
            Yields-bind _ _
              (Yields-failing_step id _ (plainly left (enforce-Keeps after o.calls _ _)))
              λ u.
                Yields-bind _ _ (plainly left (complete_run_step-Keeps after o.calls.fails id _))
                  λ u. Yields-bind _ _ (plainly left (ensure_runnable-Keeps after o)) λ u.
                    plainly left (
                      after_model-Keeps after o tools limit iteration s
                        (should_require_tool_use force s.executed iteration s.defs) r)
    where
      tools : (calls : List Call) → Keeps (Leaves left) (execute_tool_calls o.calls calls)
      tools =
          execute_tool_calls-Keeps (Leaves-Closed left) o.calls (λ w ts p. p) (λ w ms p. p)
            (λ k i w p. omega (arith, quiet k i w))

  run_iterations-Leaves :
      (force : Bool) (limit left iteration : ℕ) (s : State)
      → Yields
          (Leaves (left * length (candidates o)))
          (λ r. CalledAtMost n)
          (CalledAtMost n)
          (run_iterations o force limit left iteration s)
  unfolding run_iterations
  run_iterations-Leaves force limit zero iteration s = Yields-return _ (Leaves-weak _)
  run_iterations-Leaves force limit (suc left) iteration s =
      subst
        (λ b.
          Yields (Leaves b) (λ r. CalledAtMost n) (CalledAtMost n)
            (run_iterations o force limit (suc left) iteration s))
        (one_more left (length (candidates o)))
        (Yields-bind _ _ (iterate-Leaves force limit (left * length (candidates o)) iteration s)
          λ next. follows next (run_iterations-Leaves force limit left (iteration + 1)))
    where
      one_more : (m k : ℕ) → k + m * k ≡ suc m * k
      one_more m k = omega arith

      left_then : ℕ
      left_then = left * length (candidates o)

      follows :
          (next : Next) {rest : State → M (Option Response)}
          → ((t : State)
              → Yields (Leaves left_then) (λ r. CalledAtMost n) (CalledAtMost n) (rest t))
          → Yields (Leaves left_then) (λ r. CalledAtMost n) (CalledAtMost n) (follow o rest next)
      follows (finished r) k = Yields-return _ (Leaves-weak _)
      follows (again t) k = k t

-- The loop starts at most as many calls of a model as its limit on iterations says for each candidate of
-- the run, whatever the models, the tools and the store do, where no workflow calls a model.
pub agent_loop-CalledAtMost :
    (o : Model) (messages : List Message) (defs : List String) (force : Bool) (w : World)
    → CallsNoModel o.calls
    → CalledAtMost
        (w.model_calls
          + max_iterations_for_run o.worker_iterations o.configured_iterations
            * length (candidates o))
        (agent_loop o messages defs force w).1
unfolding agent_loop
agent_loop-CalledAtMost o messages defs force w quiet =
    let limit = max_iterations_for_run o.worker_iterations o.configured_iterations in
    let left = limit * length (candidates o) in
    let n = w.model_calls + left in
    let read =
      plainly o n quiet left (plain_call-Keeps (Leaves-Closed o n quiet left) o.calls.fails) in
    at_most _ _ (
      (Yields-bind _ _ read
          λ u. Yields-bind _ _ read λ u. run_iterations-Leaves o n quiet force limit limit 1 _).at
        w (omega arith))
  where
    at_most :
        {n : ℕ} (r : Result (Option Response)) (v : World)
        → Ends (λ a. CalledAtMost n) (CalledAtMost n) r v
        → CalledAtMost n v
    at_most (ok a) v q = q
    at_most (err e) v q = q
