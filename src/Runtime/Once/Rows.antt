-- ===== src/Runtime/Once/Rows.antt =====
-- The rows of the tool calls while one call is made (`StartToolCall`, `CompleteToolCall`).
use duraclaw.Runtime.Calls.{Call, Outside, Executed, Completed, prior_of, is_known, call_key}
use duraclaw.Runtime.Keeps.Tools.{StartsNoTool, GraphsKeep}
use duraclaw.Runtime.Keeps.{Keeps, Closed}
use duraclaw.Runtime.Once.{
  one_if, finishes, Numbered, IsOnce, Numbered-append, Numbered-complete, new_row, finishes-start,
  finishes-complete_rows,
}
use duraclaw.Runtime.Yields.{Yields, Yields-keep}
use duraclaw.Runtime.Store.{
  Output, ToolRow, World, M, tick, call, complete_rows, start_tool_call, complete_tool_call,
}
use duraclaw.Shared.{
  sym, ℕ, ◌+◌, ◌≤◌, ◌<◌, ◌≡◌, refl, ap, subst, ◌∙◌, inl, inr, arith, Bool, true, false, not, ◌&&◌,
  ◌||◌, List, [], ◌∷◌, ◌++◌, String, str_eq, length, Bool-cases, str-Compared, same, differ,
}
use duraclaw.Tools.{retryable}

-- A property of the tool calls alone is closed.
pub rows-Closed : (P : List ToolRow → Type 0) → Closed (λ w. P w.tool_calls)
rows-Closed P = record {
  ticks = λ w p. p;
  with_steps = λ w ss p. p;
  with_checkpoints = λ w cs p. p;
  with_run_state = λ w s p. p;
  with_mcp_states = λ w i s p. p;
}

abbrev pub OnceRows : List ToolRow → Type 0
OnceRows rs = Numbered 0 rs × ((k : String) → finishes k rs ≤ 1)

pub rows-GraphsKeep :
    (P : List ToolRow → Type 0) (o : Outside) → StartsNoTool o → GraphsKeep (λ w. P w.tool_calls) o
rows-GraphsKeep P o quiet k i w p = subst P (sym (quiet k i w)) p

pub IsOnce-Closed : Closed IsOnce
IsOnce-Closed = rows-Closed OnceRows

module _ (o : Outside) where
  abbrev TrackedRows : Completed → List ToolRow → Type 0
  TrackedRows m rs =
      OnceRows rs × ((k : String) → 0 < finishes k rs → is_known (prior_of k m) ≡ true)

  -- The invariant of the loop, with the completed calls that it knows.
  abbrev pub Tracked : Completed → World → Type 0
  Tracked m w = TrackedRows m w.tool_calls

  abbrev pub TrackedCall : Executed o → World → Type 0
  TrackedCall r = Tracked r.1

  pub Tracked-GraphsKeep : StartsNoTool o → (m : Completed) → GraphsKeep (Tracked m) o
  Tracked-GraphsKeep quiet m = rows-GraphsKeep (TrackedRows m) o quiet

  pub Tracked-Closed : (m : Completed) → Closed (Tracked m)
  Tracked-Closed m = rows-Closed (TrackedRows m)

  pub plainly :
      (m : Completed) {A : Type 0} {n : M A}
      → Keeps (Tracked m) n
      → Yields (Tracked m) (λ a. Tracked m) IsOnce n
  plainly m k = Yields-keep (λ w p. p.0) k

  -- The row of a call that runs: completing it finishes its key once more at most.
  abbrev pub RunningRows : Completed → Call → ℕ → List ToolRow → Type 0
  RunningRows m c id rs =
      TrackedRows m rs
      × ((k : String) (out : Output)
          → finishes k (complete_rows id out rs)
            ≡ finishes k rs + one_if (not (retryable o.registry c.name) && str_eq (call_key o c) k))

  abbrev Running : Completed → Call → ℕ → World → Type 0
  Running m c id w = RunningRows m c id w.tool_calls

  -- The call may run: it may be run again, or it has not completed.
  abbrev pub MayRun : Completed → Call → Type 0
  MayRun m c =
      not (retryable o.registry c.name) ≡ true → is_known (prior_of (call_key o c) m) ≡ false

  abbrev pub EndedRows : Completed → Call → List ToolRow → Type 0
  EndedRows m c rs =
      OnceRows rs
      × ((k : String)
          → 0 < finishes k rs
          → (is_known (prior_of k m)
              || (not (retryable o.registry c.name) && str_eq (call_key o c) k))
            ≡ true)

  abbrev pub Ended : Completed → Call → World → Type 0
  Ended m c w = EndedRows m c w.tool_calls

  start-Running :
      (m : Completed) (c : Call) (w : World)
      → Tracked m w
      → Running m c (length w.tool_calls) (record w {
        tool_calls =
            w.tool_calls
            ++ new_row c.name
                (o.args_hash c.name c.arguments)
                (retryable o.registry c.name)
                w.tool_calls
              ∷ [];
      })
  start-Running m c w p = (
    (
      (Numbered-append 0 w.tool_calls _ p.0.0 (omega arith), λ k. rw (unstarted k) (p.0.1 k)),
      λ k h. p.1 k (subst (λ n. 0 < n) (unstarted k) h),
    ),
    λ k out.
        finishes-complete_rows k c.name hash again out w.tool_calls p.0.0 ∙ rw (unstarted k) refl,
  )
    where
      again : Bool
      again = retryable o.registry c.name

      hash : String
      hash = o.args_hash c.name c.arguments

      unstarted :
          (k : String)
          → finishes k (
              w.tool_calls
              ++ new_row c.name
                  (o.args_hash c.name c.arguments)
                  (retryable o.registry c.name)
                  w.tool_calls
                ∷ [])
            ≡ finishes k w.tool_calls
      unstarted k = finishes-start k c.name hash again w.tool_calls

  pub start_tool_call-Running :
      (m : Completed) (c : Call)
      → Yields (Tracked m) (Running m c) IsOnce (
          start_tool_call o.fails c.name
            (o.args_hash c.name c.arguments)
            (retryable o.registry c.name))
  unfolding start_tool_call call
  start_tool_call-Running m c = record {
    at = λ w p. elim (Bool-cases (o.fails w.clock)) [
      | inl t ↦ rw t p.0
      | inr f ↦ rw f (start-Running m c (tick w) p)
    ];
  }

  complete-Ended :
      (m : Completed) (c : Call) (id : ℕ) (out : Output) (rs : List ToolRow)
      → MayRun m c
      → RunningRows m c id rs
      → EndedRows m c (complete_rows id out rs)
  complete-Ended m c id out rs may p = (
    (Numbered-complete 0 id out rs p.0.0.0, λ k. rw (p.1 k out) (once k)),
    λ k h. tracked k (subst (λ n. 0 < n) (p.1 k out) h),
  )
    where
      once :
          (k : String)
          → finishes k rs + one_if (not (retryable o.registry c.name) && str_eq (call_key o c) k)
            ≤ 1
      once k = elim (str-Compared (call_key o c) k) [
        | same e t ↦ ground (arith, p.0.0.1 k, p.0.1 k, may, ap (λ x. is_known (prior_of x m)) e)
        | differ n f ↦ ground (arith, p.0.0.1 k)
      ]

      tracked :
          (k : String)
          → 0
            < finishes k rs + one_if (not (retryable o.registry c.name) && str_eq (call_key o c) k)
          → (is_known (prior_of k m)
              || (not (retryable o.registry c.name) && str_eq (call_key o c) k))
            ≡ true
      tracked k h = ground (arith, p.0.1 k)

  pub complete_tool_call-Ended :
      (m : Completed) (c : Call) (id : ℕ) (out : Output)
      → MayRun m c
      → Yields (Running m c id) (λ u. Ended m c) IsOnce (complete_tool_call o.fails id out)
  unfolding complete_tool_call call
  complete_tool_call-Ended m c id out may = record {
    at = λ w p. elim (Bool-cases (o.fails w.clock)) [
      | inl t ↦ rw t p.0.0
      | inr f ↦ rw f (complete-Ended m c id out w.tool_calls may p)
    ];
  }
