-- ===== src/Runtime/Limits/Planned.antt =====
-- The plan counts the executions: what the loop of `executeToolCalls` knows of completed calls is what
-- `plannedToolExecutions` assumed.
use duraclaw.Runtime.Calls.{
  Call, Outside, Completed, call_key, planned, execute_all, check_limit, index_rows,
  normalize_calls, with_completed, execute_tool_calls,
}
use duraclaw.Runtime.Keeps.{
  Keeps, Keeps-return, Keeps-fail, Keeps-if, plain_call-Keeps, call-Keeps, ◌and◌,
}
use duraclaw.Runtime.Limits.{
  executions, Within, Within-Closed, Adds, Adds-return, Adds-weaken, Adds-bind_given, Adds-bind,
}
use duraclaw.Runtime.Limits.Calls.{is_free, known, cost, Separate, StartsNone, execute_call-Adds}
use duraclaw.Runtime.Store.{
  ToolRow, World, M, Result, ok, err, and_then, ◌>>=◌, return, fail, call, tool_execution_count,
  completed_non_retryable, plain_call,
}
use duraclaw.Shared.{
  ℕ, ◌+◌, ◌≤◌, ◌<◌, ◌≡◌, refl, sym, ap, ◌∙◌, inl, inr, arith, Bool, true, false, ◌||◌, List, [],
  ◌∷◌, String, str_eq, if◌then◌else◌, contains, Bool-cases, str-Compared, same, differ, subst,
}
use duraclaw.Runtime.Limits.Known.{Follows, execute_call-Follows}

module _ (o : Outside) where
  -- What is known when the loop stands at a call is what the plan knew or has seen.
  abbrev Agrees : Completed → List String → Completed → Type 0
  Agrees start seen m = (k : String) → known o k m ≡ (known o k start || contains seen k)

  -- The keys that the plan has seen after a call.
  abbrev seen_after : Completed → List String → Call → List String
  seen_after m seen c =
      if is_free o c || known o (call_key o c) m then seen else call_key o c ∷ seen

  Agrees-next :
      (start : Completed) (seen : List String) (m n : Completed) (c : Call)
      → Agrees start seen m
      → (Follows o) m c n
      → Agrees start (seen_after m seen c) n
  Agrees-next start seen m n c g f k = elim (Bool-cases (is_free o c)) [
    | inl e ↦ rw e (f k ∙ rw e (ground (arith, g k)))
    | inr e ↦ elim (Bool-cases (known o (call_key o c) m)) [
      | inl h ↦ rw (e, h) (f k ∙ rw e (already h))
      | inr h ↦ rw (e, h) (f k ∙ rw e (ground (arith, g k)))
    ]
  ]
    where
      already :
          known o (call_key o c) m ≡ true
          → (known o k m || str_eq (call_key o c) k) ≡ (known o k start || contains seen k)
      already h = elim (str-Compared (call_key o c) k) [
        | same p t ↦ ground (arith, g k, ap (λ x. known o x m) p)
        | differ n d ↦ ground (arith, g k)
      ]

  planned-cost :
      (start : Completed) (seen : List String) (m : Completed) (c : Call) (cs : List Call)
      → Agrees start seen m
      → planned o start seen (c ∷ cs) ≡ cost o m c + planned o start (seen_after m seen c) cs
  unfolding planned
  planned-cost start seen m c cs g = elim (Bool-cases (is_free o c)) [
    | inl e ↦ rw e (omega arith)
    | inr e ↦ elim (Bool-cases (known o (call_key o c) m)) [
      | inl h ↦ rw (e, h, sym (g (call_key o c)) ∙ h) (omega arith)
      | inr h ↦ rw (e, h, sym (g (call_key o c)) ∙ h) (omega arith)
    ]
  ]

  -- The loop adds as many executions as are planned at most.
  execute_all-Adds :
      (start : Completed) (seen : List String) (m : Completed) (cs : List Call)
      → Separate o
      → StartsNone o
      → Agrees start seen m
      → Adds (planned o start seen cs) (execute_all o m cs)
  unfolding execute_all planned
  execute_all-Adds start seen m [] s quiet g = Adds-return _
  execute_all-Adds start seen m (c ∷ cs) s quiet g =
      subst (λ n. Adds n (execute_all o m (c ∷ cs))) (sym (planned-cost start seen m c cs g))
        (Adds-bind_given _ _ _ _ (execute_call-Adds o m c s quiet) (execute_call-Follows o m c s)
          λ r f. Adds-more _ (
            execute_all-Adds start (seen_after m seen c) r.1 cs s quiet
              (Agrees-next start seen m r.1 c g f)))
    where
      Adds-more :
          {A C : Type 0} {n : ℕ} {m : M A} (f : A → C) → Adds n m → Adds n (m >>= λ a. return (f a))
      Adds-more {n = n} f k = Adds-weaken (omega arith) (Adds-bind n 0 _ _ k (λ a. Adds-return _))

  -- A check of the limit that passes leaves room for what is planned.
  check_limit-room :
      (m : Completed) (calls : List Call) (w : World)
      → 0 < o.max_tool_calls
      → (check_limit o m calls w).0 ≡ ok tt
      → executions (check_limit o m calls w).1 + planned o m [] calls ≤ o.max_tool_calls
  unfolding check_limit tool_execution_count call ◌>>=◌ return fail
  check_limit-room m calls w pos h = ground arith

  check_limit-Keeps :
      (b : ℕ) (m : Completed) (calls : List Call) → Keeps (Within b) (check_limit o m calls)
  unfolding check_limit tool_execution_count
  check_limit-Keeps b m calls =
      Keeps-if _ _ _
        (call-Keeps (Within-Closed b) o.fails _ _ (λ w p. p) and λ n.
          Keeps-if _ _ _ (Keeps-fail _) (Keeps-return _))
        (Keeps-return _)

  module _ (b : ℕ) (pos : 0 < o.max_tool_calls) (le : o.max_tool_calls ≤ b) (s : Separate o)
      (quiet : StartsNone o) where
    with_completed-Keeps :
        (calls : List Call) (rows : List ToolRow) → Keeps (Within b) (with_completed o calls rows)
    unfolding ◌>>=◌
    with_completed-Keeps calls rows = record {
      at = λ w p.
          go (check_limit o m calls w).0 (check_limit o m calls w).1
            ((check_limit-Keeps b m calls).at w p) (check_limit-room m calls w pos);
    }
      where
        m : Completed
        m = index_rows rows []

        fresh : (b : Bool) → b ≡ (b || false)
        fresh true = refl
        fresh false = refl

        go :
            (r : Result (Unit {0})) (v : World)
            → Within b v
            → (r ≡ ok tt → executions v + planned o m [] calls ≤ o.max_tool_calls)
            → Within b (and_then r (λ _. execute_all o m calls) v).1
        go (err e) v p room = p
        go (ok tt) v p room = omega (
          arith,
          room refl,
          le,
          (execute_all-Adds m [] m calls s quiet (λ k. fresh (known o k m))).at v,
        )

    -- The executions of a run stay within any bound that is not below its limit.
    pub execute_tool_calls-Within :
        (calls : List Call) → Keeps (Within b) (execute_tool_calls o calls)
    unfolding execute_tool_calls completed_non_retryable
    execute_tool_calls-Within calls = read and λ u. read and λ u. read and λ u. read and λ u.
        read and λ u. call-Keeps (Within-Closed b) o.fails _ _ (λ w p. p) and λ rows.
        with_completed-Keeps (normalize_calls o calls) rows
      where
        read : Keeps (Within b) (plain_call o.fails)
        read = plain_call-Keeps (Within-Closed b) o.fails
