-- ===== src/Runtime/Keeps.antt =====
-- What every call of the store keeps, the calls of the worker keep: a rule for each way to build an
-- action.
pub mod Tools
pub mod Calls
use duraclaw.Runtime.Store.{
  one_more_call, start_model_call, StepRow, Notice, World, Failure, Result, ok, err, M, and_then,
  cleaned, ◌>>=◌, return, fail, with_world, attempt, on_error, wait, tick, call, finish_mcp,
  finish_step, noted, stepped, complete_mcp_call, start_run_step, complete_run_step, checkpoint,
  set_run_state, plain_call, complete_run, post, posted,
}
use duraclaw.Shared.{
  ℕ, ◌≡◌, refl, inl, inr, Bool, true, false, List, [], ◌∷◌, String, Bool-cases, if◌then◌else◌,
}

-- `m` keeps `P`, whether it returns a value or an error.
pub record Keeps {A : Type 0} (P : World → Type 0) (m : M A) : Type 0 where
  pub at : (w : World) → P w → P (m w).1

module _ {A : Type 0} {P : World → Type 0} where
  pub Keeps-return : (a : A) → Keeps P (return a)
  unfolding return
  Keeps-return a = record { at = λ w p. p }

  pub Keeps-fail : (e : Failure) → Keeps P (fail {A = A} e)
  unfolding fail
  Keeps-fail e = record { at = λ w p. p }

  pub Keeps-with_world : (f : World → M A) → ((w : World) → Keeps P (f w)) → Keeps P (with_world f)
  unfolding with_world
  Keeps-with_world f k = record { at = λ w. (k w).at w }

  pub Keeps-attempt : (m : M A) → Keeps P m → Keeps P (attempt m)
  unfolding attempt
  Keeps-attempt m k = record { at = k.at }

  pub Keeps-if : (b : Bool) (m n : M A) → Keeps P m → Keeps P n → Keeps P (if b then m else n)
  Keeps-if true m n km kn = km
  Keeps-if false m n km kn = kn

  pub Keeps-if_given :
      (b : Bool) (m n : M A)
      → (b ≡ true → Keeps P m)
      → (b ≡ false → Keeps P n)
      → Keeps P (if b then m else n)
  Keeps-if_given true m n km kn = km refl
  Keeps-if_given false m n km kn = kn refl

module _ {A C : Type 0} {P : World → Type 0} where
  Keeps-and_then : (r : Result A) (f : A → M C) → ((a : A) → Keeps P (f a)) → Keeps P (and_then r f)
  Keeps-and_then (err e) f k = record { at = λ w p. p }
  Keeps-and_then (ok a) f k = record { at = (k a).at }

  pub Keeps-bind :
      (m : M A) (f : A → M C) → Keeps P m → ((a : A) → Keeps P (f a)) → Keeps P (m >>= f)
  unfolding ◌>>=◌
  Keeps-bind m f km kf = record {
    at = λ w p. let (r, v) = m w in (Keeps-and_then r f kf).at v (km.at w p);
  }

  Keeps-cleaned : (r : Result A) (n : M C) → Keeps P n → Keeps P (cleaned r n)
  Keeps-cleaned (ok a) n k = record { at = λ w p. p }
  Keeps-cleaned (err e) n k = record { at = k.at }

  pub Keeps-on_error : (m : M A) (n : M C) → Keeps P m → Keeps P n → Keeps P (on_error m n)
  unfolding on_error
  Keeps-on_error m n km kn = record {
    at = λ w p. let (r, v) = m w in (Keeps-cleaned r n kn).at v (km.at w p);
  }

-- The rule for two actions in a row, as an operator.
infixr 5 ◌and◌
abbrev pub ◌and◌ :
    {A C : Type 0} {P : World → Type 0} {m : M A} {f : A → M C}
    → Keeps P m
    → ((a : A) → Keeps P (f a))
    → Keeps P (m >>= f)
km and kf = Keeps-bind _ _ km kf

-- A property of the world that does not depend on the clock, the steps, the checkpoints, the state of
-- the run or the states of MCP calls.
pub record Closed (P : World → Type 0) : Type 0 where
  pub ticks : (w : World) → P w → P (tick w)
  pub with_steps : (w : World) (ss : List StepRow) → P w → P (record w { steps = ss })
  pub with_checkpoints : (w : World) (cs : List String) → P w → P (record w { checkpoints = cs })
  pub with_run_state : (w : World) (s : String) → P w → P (record w { run_state = s })
  pub with_mcp_states :
      (w : World) (i : ℕ) (s : String)
      → P w
      → P (record w { mcp_calls = finish_mcp i s w.mcp_calls })

-- What depends on the clock alone is asked of the calls that change nothing else.
module _ {P : World → Type 0} (ticks : (w : World) → P w → P (tick w)) where
  pub wait-Keeps_ticked : Keeps P wait
  unfolding wait
  wait-Keeps_ticked = record { at = ticks }

  pub call-Keeps_ticked :
      {A : Type 0} (fails : ℕ → Bool) (change : World → World) (answer : World → A)
      → ((w : World) → P w → P (change w))
      → Keeps P (call fails change answer)
  unfolding call
  call-Keeps_ticked fails change answer k = record {
    at = λ w p. elim (Bool-cases (fails w.clock)) [
      | inl t ↦ rw t (ticks w p)
      | inr f ↦ rw f (k (tick w) (ticks w p))
    ];
  }

  pub plain_call-Keeps_ticked : (fails : ℕ → Bool) → Keeps P (plain_call fails)
  unfolding plain_call
  plain_call-Keeps_ticked fails = call-Keeps_ticked fails (λ w. w) (λ w. tt) (λ w p. p)

  pub post-Keeps_ticked :
      (fails : ℕ → Bool) (n : Notice)
      → ((w : World) → P w → P (posted (n ∷ []) w))
      → Keeps P (post fails n)
  unfolding post
  post-Keeps_ticked fails n k = call-Keeps_ticked fails _ _ k

module _ {P : World → Type 0} (c : Closed P) where
  pub wait-Keeps : Keeps P wait
  wait-Keeps = wait-Keeps_ticked c.ticks

  pub call-Keeps :
      {A : Type 0} (fails : ℕ → Bool) (change : World → World) (answer : World → A)
      → ((w : World) → P w → P (change w))
      → Keeps P (call fails change answer)
  call-Keeps = call-Keeps_ticked c.ticks

  pub plain_call-Keeps : (fails : ℕ → Bool) → Keeps P (plain_call fails)
  plain_call-Keeps = plain_call-Keeps_ticked c.ticks

  pub set_run_state-Keeps : (fails : ℕ → Bool) (s : String) → Keeps P (set_run_state fails s)
  unfolding set_run_state
  set_run_state-Keeps fails s = call-Keeps fails _ _ (λ w. c.with_run_state w s)

  pub checkpoint-Keeps : (fails : ℕ → Bool) (k : String) → Keeps P (checkpoint fails k)
  unfolding checkpoint
  checkpoint-Keeps fails k = call-Keeps fails _ _ (λ w. c.with_checkpoints w (noted k w))

  pub start_run_step-Keeps : (fails : ℕ → Bool) (k : String) → Keeps P (start_run_step fails k)
  unfolding start_run_step
  start_run_step-Keeps fails k = call-Keeps fails _ _ (λ w. c.with_steps w (stepped k w))

  pub complete_run_step-Keeps :
      (fails : ℕ → Bool) (i : ℕ) (s : String) → Keeps P (complete_run_step fails i s)
  unfolding complete_run_step
  complete_run_step-Keeps fails i s =
      call-Keeps fails _ _ (λ w. c.with_steps w (finish_step i s w.steps))

  pub complete_mcp_call-Keeps :
      (fails : ℕ → Bool) (i : ℕ) (s : String) → Keeps P (complete_mcp_call fails i s)
  unfolding complete_mcp_call
  complete_mcp_call-Keeps fails i s = call-Keeps fails _ _ (λ w. c.with_mcp_states w i s)

  pub complete_run-Keeps : (fails : ℕ → Bool) → Keeps P (complete_run fails)
  unfolding complete_run
  complete_run-Keeps fails = call-Keeps fails _ _ (λ w. c.with_run_state w "completed")

  pub start_model_call-Keeps :
      (fails : ℕ → Bool)
      → ((w : World) → P w → P (one_more_call w))
      → Keeps P (start_model_call fails)
  unfolding start_model_call
  start_model_call-Keeps fails k = call-Keeps fails _ _ k
