-- ===== src/Runtime/Limits/Known.antt =====
-- What is known of completed calls after one call more (the loop of `executeToolCalls`).
use duraclaw.Runtime.Calls.{
  Call, Binding, Outside, Executed, Completed, prior_of, is_known, is_internal, call_key,
  execute_bound, execute_internal, after_run, execute_fresh, or_replay, execute_registered,
  unbound_call, by_binding, execute_call, output_of,
}
use duraclaw.Runtime.Limits.{
  Gives, Gives-return, Gives-fail, Gives-if, Gives-with_world, Gives-bind,
}
use duraclaw.Runtime.Limits.Calls.{is_free, known, Separate}
use duraclaw.Runtime.Store.{Output, ◌>>=◌, return}
use duraclaw.Shared.{
  ◌≡◌, refl, ap, ◌∙◌, inl, inr, arith, Bool, true, false, not, ◌&&◌, ◌||◌, ◌∷◌, String, Option,
  none, some, str_eq, if◌then◌else◌, Bool-cases, str-Compared, same, differ, subst,
}
use duraclaw.Tools.{ToolResult, retryable, execute}

module _ (o : Outside) where
  -- What is known after a call: what was, and the call if it may not be run again.
  abbrev pub Follows : Completed → Call → Completed → Type 0
  Follows m c n =
      (k : String) → known o k n ≡ (known o k m || (not (is_free o c) && str_eq (call_key o c) k))

  abbrev FollowsCall : Completed → Call → Executed o → Type 0
  FollowsCall m c r = Follows m c r.1

  Follows-free : (m : Completed) (c : Call) → is_free o c ≡ true → Follows m c m
  Follows-free m c e k = rw e (or_false (known o k m))
    where
      or_false : (b : Bool) → b ≡ (b || false)
      or_false true = refl
      or_false false = refl

  Follows-known :
      (m : Completed) (c : Call)
      → is_free o c ≡ false
      → known o (call_key o c) m ≡ true
      → Follows m c m
  Follows-known m c e h k = elim (str-Compared (call_key o c) k) [
    | same p t ↦ rw (e, t) (subst (λ x. known o x m ≡ (known o x m || true)) p (ground (arith)))
    | differ n f ↦ rw (e, f) (ground (arith))
  ]

  Follows-new :
      (m : Completed) (c : Call) (out : Output)
      → is_free o c ≡ false
      → Follows m c ((call_key o c, out) ∷ m)
  Follows-new m c out e k = elim (Bool-cases (str_eq (call_key o c) k)) [
    | inl t ↦ rw (e, t) (ground (arith))
    | inr f ↦ rw (e, f) (ground (arith))
  ]

  after_run-Follows :
      (m : Completed) (c : Call) (r : ToolResult)
      → (is_free o c ≡ (retryable o.registry c.name))
      → Gives (FollowsCall m c) (after_run o m c r)
  after_run-Follows m c r q =
      Gives-if _ _ _ (Gives-fail _)
        (Gives-bind _ _ λ u. Gives-return _ (next (retryable o.registry c.name) q))
    where
      next :
          (b : Bool)
          → is_free o c ≡ b
          → Follows m c (if b then m else (call_key o c, output_of o r) ∷ m)
      next true e = Follows-free m c e
      next false e = Follows-new m c _ e

  execute_fresh-Follows :
      (m : Completed) (c : Call)
      → is_free o c ≡ retryable o.registry c.name
      → Gives (FollowsCall m c) (execute_fresh o m c)
  unfolding execute_fresh
  execute_fresh-Follows m c q = Gives-bind _ _ λ id. Gives-with_world _ λ w. Gives-bind _ _ λ u.
      Gives-bind _ _
        λ u. after_run-Follows m c (execute o.registry c.name c.arguments (o.ran c w)) q

  or_replay-Follows :
      (m : Completed) (c : Call) (r : Option Output)
      → is_free o c ≡ retryable o.registry c.name
      → is_free o c ≡ false
      → prior_of (call_key o c) m ≡ r
      → Gives (FollowsCall m c) (or_replay o m c r)
  or_replay-Follows m c none q e h = execute_fresh-Follows m c q
  or_replay-Follows m c (some out) q e h = Gives-return _ (Follows-known m c e (ap is_known h))

  execute_registered-Follows :
      (m : Completed) (c : Call)
      → is_free o c ≡ retryable o.registry c.name
      → Gives (FollowsCall m c) (execute_registered o m c)
  unfolding execute_registered
  execute_registered-Follows m c q = Gives-bind _ _ λ u. go (retryable o.registry c.name) q
    where
      go :
          (b : Bool)
          → is_free o c ≡ b
          → Gives
              (FollowsCall m c)
              (if b then execute_fresh o m c else or_replay o m c (prior_of (call_key o c) m))
      go true e = execute_fresh-Follows m c q
      go false e = or_replay-Follows m c _ q e refl

  unbound-Follows : (m : Completed) (c : Call) → Gives (FollowsCall m c) (unbound_call o m c)
  unbound-Follows m c = Gives-bind _ _ λ u. go (is_internal c.name) refl
    where
      go :
          (b : Bool)
          → is_internal c.name ≡ b
          → Gives (FollowsCall m c) (
              if b then execute_internal o c >>= (λ t. return (t, m)) else execute_registered o m c)
      go true e = Gives-bind _ _ λ t. Gives-return _ (Follows-free m c (rw e refl))
      go false e = execute_registered-Follows m c (rw e refl)

  execute_bound-Follows :
      (m : Completed) (c : Call) (b : Binding)
      → is_free o c ≡ true
      → Gives (FollowsCall m c) (execute_bound o m c b)
  unfolding execute_bound
  execute_bound-Follows m c b e =
      Gives-bind _ _
        λ u. Gives-bind _ _ λ r. Gives-bind _ _ λ u. Gives-return _ (Follows-free m c e)

  by_binding-Follows :
      (m : Completed) (c : Call) (r : Option Binding)
      → ((b : Binding) → r ≡ some b → retryable o.registry c.name ≡ true)
      → Gives (FollowsCall m c) (by_binding o m c r)
  by_binding-Follows m c none s = unbound-Follows m c
  by_binding-Follows m c (some b) s =
      execute_bound-Follows m c b
        (ap (λ r. is_internal c.name || r) (s b refl) ∙ or_true (is_internal c.name))
    where
      or_true : (b : Bool) → (b || true) ≡ true
      or_true true = refl
      or_true false = refl

  pub execute_call-Follows :
      (m : Completed) (c : Call) → Separate o → Gives (FollowsCall m c) (execute_call o m c)
  unfolding execute_call
  execute_call-Follows m c s = by_binding-Follows m c _ (s c.name)
