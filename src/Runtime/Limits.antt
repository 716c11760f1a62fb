-- ===== src/Runtime/Limits.antt =====
-- How many executions the tool calls of an answer add, and that the limit of a run is kept.
pub mod Calls
pub mod Known
pub mod Planned
use duraclaw.Json.{Json}
use duraclaw.Runtime.Aliases.{original_name}
use duraclaw.Runtime.Calls.{
  Call, Binding, Outside, Content, Answer, Executed, Completed, prior_of, is_known, is_internal,
  call_key, planned, enforce, demand, execute_mcp_tool, finish_mcp_call, execute_bound,
  execute_internal, after_run, with_result, execute_fresh, or_replay, execute_registered,
  unbound_call, binding_of, by_binding, execute_call, execute_all, output_of,
}
use duraclaw.Runtime.Keeps.{
  Keeps, Keeps-return, Keeps-fail, Keeps-if, ◌and◌, Closed, wait-Keeps, plain_call-Keeps,
  call-Keeps,
}
use duraclaw.Runtime.Keeps.Tools.{
  enforce-Keeps, demand-Keeps, execute_internal-Keeps, finish_mcp_call-Keeps,
}
use duraclaw.Runtime.Store.{
  Output, ToolRow, McpRow, World, Failure, Result, ok, err, M, and_then, ◌>>=◌, ◌>>◌, return, fail,
  with_world, wait, tick, call, complete_rows, finish_mcp, start_tool_call, complete_tool_call,
  start_mcp_call, plain_call,
}
use duraclaw.Shared.{
  ℕ, suc, ◌+◌, ◌≤◌, ◌≡◌, refl, sym, ap, subst, ◌∙◌, inl, inr, ◌⊎◌, arith, Bool, true, false, not,
  ◌&&◌, ◌||◌, List, [], ◌∷◌, ◌++◌, String, Option, none, some, str_eq, if◌then◌else◌, contains,
  length, length-append, Bool-cases, Option-cases, str-Compared, Compared, same, differ, str_eq_iff,
}
use duraclaw.Tools.{ToolResult, retryable, execute}

-- What `ToolExecutionCount` counts.
abbrev pub executions : World → ℕ
executions w = length w.tool_calls + length w.mcp_calls

abbrev pub Within : ℕ → World → Type 0
Within b w = executions w ≤ b

pub length-finish_mcp :
    (i : ℕ) (s : String) (rs : List McpRow) → length (finish_mcp i s rs) ≡ length rs
unfolding finish_mcp
length-finish_mcp i s [] = refl
length-finish_mcp i s (r ∷ rs) = omega (arith, length-finish_mcp i s rs)

pub length-complete_rows :
    (i : ℕ) (out : Output) (rs : List ToolRow) → length (complete_rows i out rs) ≡ length rs
unfolding complete_rows
length-complete_rows i out [] = refl
length-complete_rows i out (r ∷ rs) = omega (arith, length-complete_rows i out rs)

pub Within-Closed : (b : ℕ) → Closed (Within b)
Within-Closed b = record {
  ticks = λ w p. p;
  with_steps = λ w ss p. p;
  with_checkpoints = λ w cs p. p;
  with_run_state = λ w s p. p;
  with_mcp_states = λ w i s p. omega (arith, length-finish_mcp i s w.mcp_calls);
}

-- `m` adds at most `n` executions.
pub record Adds {A : Type 0} (n : ℕ) (m : M A) : Type 0 where
  pub at : (w : World) → executions (m w).1 ≤ executions w + n

-- A value that `m` returns has `R`.
pub record Gives {A : Type 0} (R : A → Type 0) (m : M A) : Type 0 where
  pub at : (w : World) (a : A) → (m w).0 ≡ ok a → R a

module _ {A : Type 0} where
  pub none_added : (m : M A) → ((b : ℕ) → Keeps (Within b) m) → Adds 0 m
  none_added m k = record { at = λ w. omega (arith, (k (executions w)).at w (omega arith)) }

  pub Adds-weaken : {a b : ℕ} {m : M A} → a ≤ b → Adds a m → Adds b m
  Adds-weaken l k = record { at = λ w. omega (arith, k.at w, l) }

  pub Adds-return : (a : A) → Adds 0 (return a)
  Adds-return a = none_added _ (λ b. Keeps-return a)

  pub Adds-with_world :
      (n : ℕ) (f : World → M A) → ((w : World) → Adds n (f w)) → Adds n (with_world f)
  unfolding with_world
  Adds-with_world n f k = record { at = λ w. (k w).at w }

  pub Gives-return : {R : A → Type 0} (a : A) → R a → Gives R (return a)
  unfolding return
  Gives-return {R} a r = record { at = λ w b e. go b e }
    where
      go : (b : A) → ok a ≡ ok b → R b
      go b e = subst R (cc) r

  pub Gives-fail : {R : A → Type 0} (e : Failure) → Gives R (fail e)
  unfolding fail
  Gives-fail e = record { at = λ w a q. absurd (cc) }

  pub Gives-if :
      {R : A → Type 0} (b : Bool) (m n : M A) → Gives R m → Gives R n → Gives R (if b then m else n)
  Gives-if true m n km kn = km
  Gives-if false m n km kn = kn

  pub Gives-with_world :
      {R : A → Type 0} (f : World → M A) → ((w : World) → Gives R (f w)) → Gives R (with_world f)
  unfolding with_world
  Gives-with_world f k = record { at = λ w. (k w).at w }

module _ {A C : Type 0} where
  Adds-and_then :
      (n k : ℕ) (r : Result A) (f : A → M C) (w v : World)
      → executions v ≤ executions w + n
      → ((a : A) → r ≡ ok a → Adds k (f a))
      → executions (and_then r f v).1 ≤ executions w + (n + k)
  Adds-and_then n k (err e) f w v l q = omega arith
  Adds-and_then n k (ok a) f w v l q = omega (arith, (q a refl).at v)

  pub Adds-bind_given :
      {R : A → Type 0} (n k : ℕ) (m : M A) (f : A → M C)
      → Adds n m
      → Gives R m
      → ((a : A) → R a → Adds k (f a))
      → Adds (n + k) (m >>= f)
  unfolding ◌>>=◌
  Adds-bind_given n k m f am gm af = record {
    at = λ w. Adds-and_then n k (m w).0 f w (m w).1 (am.at w) (λ a e. af a (gm.at w a e));
  }

  pub Adds-bind :
      (n k : ℕ) (m : M A) (f : A → M C)
      → Adds n m
      → ((a : A) → Adds k (f a))
      → Adds (n + k) (m >>= f)
  Adds-bind n k m f am af =
      Adds-bind_given {R = λ a. Unit} n k m f am (record { at = λ w a e. tt }) (λ a u. af a)

  pub Adds-after :
      (n : ℕ) (m : M A) (f : A → M C) → Adds 0 m → ((a : A) → Adds n (f a)) → Adds n (m >>= f)
  Adds-after n m f am af = Adds-weaken (omega arith) (Adds-bind 0 n m f am af)

  Gives-and_then :
      {R : C → Type 0} (r : Result A) (f : A → M C) (w : World) (c : C)
      → ((a : A) → Gives R (f a))
      → (and_then r f w).0 ≡ ok c
      → R c
  Gives-and_then (err e) f w c k q = absurd (cc)
  Gives-and_then (ok a) f w c k q = (k a).at w c q

  pub Gives-bind :
      {R : C → Type 0} (m : M A) (f : A → M C) → ((a : A) → Gives R (f a)) → Gives R (m >>= f)
  unfolding ◌>>=◌
  Gives-bind m f k = record { at = λ w c. Gives-and_then (m w).0 f (m w).1 c k }

  Gives-and_then_given :
      {Q : A → Type 0} {R : C → Type 0} (r : Result A) (f : A → M C) (w : World) (c : C)
      → ((a : A) → r ≡ ok a → Q a)
      → ((a : A) → Q a → Gives R (f a))
      → (and_then r f w).0 ≡ ok c
      → R c
  Gives-and_then_given (err e) f w c g k q = absurd (cc)
  Gives-and_then_given (ok a) f w c g k q = (k a (g a refl)).at w c q

  pub Gives-bind_given :
      {Q : A → Type 0} {R : C → Type 0} {m : M A} {f : A → M C}
      → Gives Q m
      → ((a : A) → Q a → Gives R (f a))
      → Gives R (m >>= f)
  unfolding ◌>>=◌
  Gives-bind_given {m = m} {f = f} g k = record {
    at = λ w c. Gives-and_then_given (m w).0 f (m w).1 c (g.at w) k;
  }

  Keeps-and_then_given :
      {P : World → Type 0} {R : A → Type 0} (r : Result A) (f : A → M C) (v : World)
      → P v
      → ((a : A) → r ≡ ok a → R a)
      → ((a : A) → R a → Keeps P (f a))
      → P (and_then r f v).1
  Keeps-and_then_given (err e) f v p g k = p
  Keeps-and_then_given (ok a) f v p g k = (k a (g a refl)).at v p

  pub Keeps-bind_given :
      {P : World → Type 0} {R : A → Type 0} {m : M A} {f : A → M C}
      → Keeps P m
      → Gives R m
      → ((a : A) → R a → Keeps P (f a))
      → Keeps P (m >>= f)
  unfolding ◌>>=◌
  Keeps-bind_given {m = m} {f = f} km g kf = record {
    at = λ w p. Keeps-and_then_given (m w).0 f (m w).1 (km.at w p) (g.at w) kf;
  }

-- The two calls that add a row.
pub Adds-call :
    {A : Type 0} (n : ℕ) (fails : ℕ → Bool) (change : World → World) (answer : World → A)
    → ((w : World) → executions (change w) ≤ executions w + n)
    → Adds n (call fails change answer)
unfolding call
Adds-call n fails change answer k = record {
  at = λ w. elim (Bool-cases (fails w.clock)) [
    | inl t ↦ rw t (omega arith)
    | inr f ↦ rw f (omega (arith, k (tick w)))
  ];
}
