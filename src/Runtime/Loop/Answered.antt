-- ===== src/Runtime/Loop/Answered.antt =====
-- What the loop between model and tools returns.
use duraclaw.Runtime.Calls.{Call}
use duraclaw.Runtime.Limits.{
  Gives, Gives-return, Gives-fail, Gives-if, Gives-bind, Gives-bind_given,
}
use duraclaw.Runtime.Loop.{
  Message, Response, Model, State, Next, finished, again, allowed_names, passes, after_tools,
  run_tools, suppress, chosen_calls, without_calls, with_calls, after_model, iterate, follow,
  run_iterations, agent_loop, tool_calls_for_execution, max_iterations_for_run,
  should_require_tool_use,
}
use duraclaw.Runtime.Loop.Chosen.{empty_or_not, passes_iff}
use duraclaw.Runtime.Store.{World, M, ok}
use duraclaw.Shared.{
  ℕ, zero, suc, ◌+◌, ◌<◌, ◌≡◌, refl, subst, ap, ◌∙◌, inl, inr, ◌⊎◌, arith, Bool, true, false, not,
  ◌||◌, List, [], ◌∷◌, String, Option, none, some, contains, length, keep, take, In, In-keep, leb,
  ◌==◌, Bool-cases,
}

-- The answer asks for no tool that is offered: an answer is there, and no call in it is allowed.
abbrev pub AsksNothing : List String → Option Response → Type 0
AsksNothing defs none = ⊥
AsksNothing defs (some r) =
    (c : Call) → In c r.tool_calls → contains (allowed_names defs) c.name ≡ false

-- A loop that executes no call of an answer has none that it may.
none_chosen :
    (calls : List Call) (interleave : Bool) (allowed : List String)
    → (tool_calls_for_execution calls interleave allowed).0 ≡ []
    → keep (passes allowed) calls ≡ []
unfolding tool_calls_for_execution
none_chosen calls interleave allowed h = elim (Bool-cases (length chosen == 0)) [
  | inl e ↦ empty_or_not chosen e
  | inr n ↦ elim (Bool-cases (not interleave || leb (length calls) 1)) [
    | inl t ↦ rw (n, t) at h
    | inr f ↦ untaken chosen (rw (n, f) at h)
  ]
]
  where
    chosen : List Call
    chosen = keep (passes allowed) calls

    untaken : (xs : List Call) → take 1 xs ≡ [] → xs ≡ []
    untaken [] e = refl
    untaken (x ∷ xs) e = cc

module _ (o : Model) (defs : List String) where
  -- A state of the loop with so many iterations left.
  abbrev Sound : ℕ → State → Type 0
  Sound left s = ((s.defs ≡ defs) ⊎ (s.defs ≡ [])) × (left ≡ 0 → AsksNothing defs s.response)

  abbrev SoundNext : ℕ → Next → Type 0
  SoundNext left (finished r) = AsksNothing defs (some r)
  SoundNext left (again s) = Sound left s

  without_calls-Sound :
      (left : ℕ) (s : State) (must : Bool) (r : Response)
      → Sound (suc left) s
      → r.tool_calls ≡ []
      → Gives (SoundNext left) (without_calls o s must r)
  unfolding without_calls
  without_calls-Sound left s must r h e =
      Gives-if _ _ _ (Gives-return _ (h.0, λ z. quiet)) (Gives-return _ quiet)
    where
      quiet : AsksNothing defs (some r)
      quiet c m = absurd (subst (In c) e m)

  suppress-Sound :
      (left : ℕ) (s : State) (r : Response) (n : ℕ)
      → Sound (suc left) s
      → AsksNothing defs (some r)
      → Gives (SoundNext left) (suppress o s r n)
  unfolding suppress
  suppress-Sound left s r n h quiet =
      Gives-if _ _ _ (Gives-bind _ _ λ u. Gives-return _ (inr refl, λ z. quiet))
        (Gives-bind _ _ λ u. Gives-return _ quiet)

  after_tools-Sound :
      (left limit iteration : ℕ) (s : State)
      → ((s.defs ≡ defs) ⊎ (s.defs ≡ []))
      → iteration + left ≡ limit
      → Gives (SoundNext left) (after_tools o limit iteration s)
  after_tools-Sound left limit iteration s h e = elim (Bool-cases (iteration == limit)) [
    | inl t ↦ rw t (Gives-fail _)
    | inr f ↦ rw f (Gives-return _ (h, λ z. absurd (ground (arith))))
  ]

  run_tools-Sound :
      (left limit iteration : ℕ) (s : State) (r : Response) (calls : List Call)
      → Sound (suc left) s
      → iteration + left ≡ limit
      → Gives (SoundNext left) (run_tools o limit iteration s r calls)
  unfolding run_tools
  run_tools-Sound left limit iteration s r calls h e = Gives-bind _ _ λ id.
      Gives-bind _ _ λ results.
        Gives-bind _ _ λ u. Gives-bind _ _ λ u. after_tools-Sound left limit iteration _ h.0 e

  -- Where nothing is chosen, nothing that is offered is asked for.
  unchosen :
      (s : State) (r : Response)
      → ((s.defs ≡ defs) ⊎ (s.defs ≡ []))
      → (tool_calls_for_execution r.tool_calls o.interleave (allowed_names s.defs)).0 ≡ []
      → AsksNothing defs (some r)
  unfolding allowed_names
  unchosen s r which h c m = elim which [
    | inl e ↦ elim (Bool-cases (contains (allowed_names defs) c.name)) [
      | inl t ↦ absurd (
          held (
            (passes_iff (allowed_names s.defs) c).1
              (inl (ap (λ d. contains (allowed_names d) c.name) e ∙ t))))
      | inr f ↦ f
    ]
    | inr e ↦ absurd (held ((passes_iff (allowed_names s.defs) c).1 (inr (ap allowed_names e))))
  ]
    where
      held : passes (allowed_names s.defs) c ≡ true → ⊥
      held p =
          subst (In c) (none_chosen r.tool_calls o.interleave (allowed_names s.defs) h)
            (In-keep c (passes (allowed_names s.defs)) r.tool_calls m p)

  with_calls-Sound :
      (left limit iteration : ℕ) (s : State) (r : Response)
      → Sound (suc left) s
      → iteration + left ≡ limit
      → Gives (SoundNext left) (with_calls o limit iteration s r)
  unfolding with_calls
  with_calls-Sound left limit iteration s r h e = go _ refl
    where
      go :
          (chosen : List Call × ℕ)
          → tool_calls_for_execution r.tool_calls o.interleave (allowed_names s.defs) ≡ chosen
          → Gives (SoundNext left) (chosen_calls o limit iteration s r chosen)
      go ([], n) q = suppress-Sound left s r n h (unchosen s r h.0 (ap (λ p. p.0) q))
      go (c ∷ cs, n) q = run_tools-Sound left limit iteration s r (c ∷ cs) h e

  after_model-Sound :
      (left limit iteration : ℕ) (s : State) (must : Bool) (r : Response)
      → Sound (suc left) s
      → iteration + left ≡ limit
      → Gives (SoundNext left) (after_model o limit iteration s must r)
  unfolding after_model
  after_model-Sound left limit iteration s must r h e =
      elim (Bool-cases (length r.tool_calls == 0)) [
        | inl t ↦ rw t (without_calls-Sound left s must r h (empty_or_not r.tool_calls t))
        | inr f ↦ rw f (with_calls-Sound left limit iteration s r h e)
      ]

  iterate-Sound :
      (force : Bool) (left limit iteration : ℕ) (s : State)
      → Sound (suc left) s
      → iteration + left ≡ limit
      → Gives (SoundNext left) (iterate o force limit iteration s)
  unfolding iterate
  iterate-Sound force left limit iteration s h e = Gives-bind _ _ λ id. Gives-bind _ _ λ u.
      Gives-bind _ _ λ r. Gives-bind _ _ λ u. Gives-bind _ _ λ u. Gives-bind _ _ λ u.
        after_model-Sound left limit iteration s
          (should_require_tool_use force s.executed iteration s.defs) r h e

  run_iterations-Sound :
      (force : Bool) (limit left iteration : ℕ) (s : State)
      → Sound left s
      → iteration + left ≡ limit + 1
      → Gives (AsksNothing defs) (run_iterations o force limit left iteration s)
  unfolding run_iterations
  run_iterations-Sound force limit zero iteration s h e = Gives-return _ (h.1 refl)
  run_iterations-Sound force limit (suc left) iteration s h e =
      Gives-bind_given (iterate-Sound force left limit iteration s h (omega arith)) λ next r.
        follows next r
          (λ t q. run_iterations-Sound force limit left (iteration + 1) t q (omega arith))
    where
      follows :
          (next : Next) {rest : State → M (Option Response)}
          → SoundNext left next
          → ((t : State) → Sound left t → Gives (AsksNothing defs) (rest t))
          → Gives (AsksNothing defs) (follow o rest next)
      follows (finished r) q k = Gives-return _ q
      follows (again t) q k = k t q

max_iterations_pos : (worker configured : ℕ) → 0 < max_iterations_for_run worker configured
unfolding max_iterations_for_run
max_iterations_pos worker configured = ground arith

-- A loop that ends without an error returns an answer of the model, and no call in that answer is of a
-- tool that the run offers.
pub agent_loop-AsksNothing :
    (o : Model) (messages : List Message) (defs : List String) (force : Bool) (w : World)
    (r : Option Response)
    → (agent_loop o messages defs force w).0 ≡ ok r
    → AsksNothing defs r
unfolding agent_loop
agent_loop-AsksNothing o messages defs force =
    let limit = max_iterations_for_run o.worker_iterations o.configured_iterations in
    let pos = max_iterations_pos o.worker_iterations o.configured_iterations in
    let start : limit ≡ 0 → ⊥ = λ z. omega (arith, pos) in
    let count : 1 + limit ≡ limit + 1 = omega arith in
    (Gives-bind _ _ λ u. Gives-bind _ _ λ u.
      run_iterations-Sound o defs force limit limit 1 _ (inl refl, λ z. absurd (start z)) count).at
