-- ===== src/Runtime/Run/Told.antt =====
-- What a run says (`RunOnce`, `process`, `finalizeAssistantResponse`, `completeDelegationChildRun`).
use duraclaw.Runtime.Finish.{
  Run, Service, Lookup, broken, missing, found, fails, is_agent_delegation_child_run,
  emit_final_outbound, tell_parent, by_lookup, end_delegation, deliver, refuse,
}
use duraclaw.Runtime.Keeps.{Keeps, Closed, wait-Keeps, plain_call-Keeps, complete_run-Keeps}
use duraclaw.Runtime.Run.{is_broadcast_generation_run}
use duraclaw.Runtime.Store.{
  World, Notice, message, outbound, parent_message, parent_outbound, M, ◌>>=◌, ◌>>◌, return, post,
  call, plain_call, Result, ok, err,
}
use duraclaw.Runtime.Limits.{Gives}
use duraclaw.Runtime.Yields.{
  Yields, Ends, Yields-return, Yields-fail, Yields-with_world, Yields-bind, Yields-keep,
  Yields-weaken, Yields-if_given,
}
use duraclaw.Shared.{
  ℕ, ◌<◌, ◌≤◌, ◌≡◌, refl, some, inl, inr, ◌⊎◌, ◌∙◌, ap, sym, subst, append_nil, append_assoc, Bool,
  true, false, List, [], ◌∷◌, ◌++◌, String, Bool-cases, if◌then◌else◌,
}

abbrev pub Any : World → Type 0
Any w = Unit {0}

-- The store's log is `s`.
abbrev pub Log : List Notice → World → Type 0
Log s w = w.sent ≡ s

pub Log-Closed : (s : List Notice) → Closed (Log s)
Log-Closed s = record {
  ticks = λ w p. p;
  with_steps = λ w ss p. p;
  with_checkpoints = λ w cs p. p;
  with_run_state = λ w t p. p;
  with_mcp_states = λ w i t p. p;
}

-- What is handed on when there is an outbound service.
abbrev pub handed : Service → Notice → List Notice
handed o n = if o.has_outbound then n ∷ [] else []

-- One answer that a run says, as a refusal or not: one message of the assistant, handed on where there is
-- an outbound service, and nothing else; where the run was delegated, the same for its parent or not.
pub data Spoken (o : Service) (r : Run) (a : String) (x : Bool) : List Notice → Type 0 where
  to_user : Spoken o r a x (message a x ∷ handed o (outbound a))
  to_parent_too :
      is_agent_delegation_child_run r ≡ true
      → Spoken o r a x
          ((message a x ∷ handed o (outbound a)) ++ parent_message a ∷ handed o (parent_outbound a))

abbrev pub Spoke : Service → Run → String → Bool → List Notice → World → Type 0
Spoke o r a x s w = (ns : List Notice) × (w.sent ≡ s ++ ns) × Spoken o r a x ns

-- A run speaks to refuse, when it may not be refined again, or when no message waits for it; it never
-- does where it generates a broadcast.
pub data Speaks (o : Service) (r : Run) : Bool → Type 0 where
  refusal : is_broadcast_generation_run o r ≡ false → Speaks o r true
  last_word :
      is_broadcast_generation_run o r ≡ false
      → o.max_refine_depth ≤ r.refinement_depth
      → Speaks o r false
  nothing_waits :
      is_broadcast_generation_run o r ≡ false
      → (v : World) → o.deferred v ≡ some 0
      → Speaks o r false

-- A run keeps its answer back where it generates a broadcast, and where it may be refined and messages
-- wait for it.
pub data KeepsBack (o : Service) (r : Run) : Type 0 where
  broadcasts : is_broadcast_generation_run o r ≡ true → KeepsBack o r
  refined :
      is_broadcast_generation_run o r ≡ false
      → r.refinement_depth < o.max_refine_depth
      → (v : World) (n : ℕ) → 0 < n
      → o.deferred v ≡ some n
      → KeepsBack o r

-- What a run says when it ends.
pub data Told (o : Service) (r : Run) : List Notice → Type 0 where
  told : (a : String) (x : Bool) (ns : List Notice) → Speaks o r x → Spoken o r a x ns → Told o r ns
  silent : KeepsBack o r → Told o r []

abbrev pub Tells : Service → Run → List Notice → World → Type 0
Tells o r s w = (ns : List Notice) × (w.sent ≡ s ++ ns) × Told o r ns

-- What keeps the log does not matter.
infixr 5 ◌quietly◌
abbrev pub ◌quietly◌ :
    {A C : Type 0} {s : List Notice} {m : M A} {f : A → M C} {Q : C → World → Type 0}
    → Keeps (Log s) m
    → ((a : A) → Yields (Log s) Q Any (f a))
    → Yields (Log s) Q Any (m >>= f)
k quietly l = Yields-bind _ _ (Yields-keep (λ w p. tt) k) l

-- The value may be read off.
pub given_quietly :
    {A C : Type 0} {s : List Notice} {m : M A} {f : A → M C} {R : A → Type 0}
    {Q : C → World → Type 0}
    → Keeps (Log s) m
    → Gives R m
    → ((a : A) → R a → Yields (Log s) Q Any (f a))
    → Yields (Log s) Q Any (m >>= f)
given_quietly {A} {s = s} {m = m} {f} {R} k g l =
    Yields-bind {Q = λ a w. R a × Log s w} _ _
      (record { at = λ w p. go (m w).0 (m w).1 (k.at w p) (g.at w) })
      λ a. record { at = λ w q. (l a q.0).at w q.1 }
  where
    go :
        (x : Result A) (v : World)
        → Log s v
        → ((a : A) → x ≡ ok a → R a)
        → Ends (λ a w. R a × Log s w) Any x v
    go (ok a) v p h = (h a refl, p)
    go (err e) v p h = tt

-- `m` puts just these notices into the log.
abbrev Says : List Notice → M (Unit {0}) → Type 0
Says ns m = (s : List Notice) → Yields (Log s) (λ u. Log (s ++ ns)) Any m

Says-return : Says [] (return tt)
Says-return s = Yields-return _ (λ w p. p ∙ sym (append_nil s))

Says-then :
    {ns ks : List Notice} {m n : M (Unit {0})} → Says ns m → Says ks n → Says (ns ++ ks) (m >> n)
Says-then {ns} {ks} {m} {n} k l s =
    Yields-bind _ _ (k s) λ u.
      subst (λ x. Yields (Log (s ++ ns)) (λ u. Log x) Any n) (append_assoc s ns ks) (l (s ++ ns))

module _ (o : Service) (r : Run) where
  Says-post : (n : Notice) → Says (n ∷ []) (post (fails o r) n)
  unfolding post call
  Says-post n s = record {
    at = λ w p. elim (Bool-cases (fails o r w.clock)) [
      | inl t ↦ rw t tt
      | inr f ↦ rw f (ap (λ l. l ++ n ∷ []) p)
    ];
  }

  Says-if :
      (b : Bool) (n : Notice) (m : M (Unit {0}))
      → Says (n ∷ []) m
      → Says (if b then n ∷ [] else []) (if b then m else return tt)
  Says-if true n m k = k
  Says-if false n m k = Says-return

  Says-emit : (a : String) → Says (handed o (outbound a)) (emit_final_outbound o r a)
  unfolding emit_final_outbound
  Says-emit a =
      Says-if o.has_outbound (outbound a) _
        λ s. reads s quietly λ u. reads s quietly λ u. reads s quietly λ u. Says-post (outbound a) s
    where
      reads : (s : List Notice) → Keeps (Log s) (plain_call (fails o r))
      reads s = plain_call-Keeps (Log-Closed s) (fails o r)

  abbrev to_parent : String → List Notice
  to_parent a = parent_message a ∷ handed o (parent_outbound a)

  Says-tell_parent : (a : String) → Says (to_parent a) (tell_parent o r a)
  unfolding tell_parent
  Says-tell_parent a s = plain_call-Keeps (Log-Closed s) (fails o r) quietly λ u.
      Says-then (Says-post (parent_message a))
        (Says-if o.has_outbound (parent_outbound a) _ (Says-post (parent_outbound a))) s

  -- The parent is told, or there is none.
  abbrev Passed : String → List Notice → World → Type 0
  Passed a s w =
      (w.sent ≡ s) ⊎ ((is_agent_delegation_child_run r ≡ true) × (w.sent ≡ s ++ to_parent a))

  end_delegation-Passed :
      (a : String) (s : List Notice) → Yields (Log s) (λ u. Passed a s) Any (end_delegation o r a)
  unfolding end_delegation
  end_delegation-Passed a s =
      Yields-if_given (is_agent_delegation_child_run r) _ _
        (λ t. Yields-with_world _ (λ w. looked_up t _)) (λ f. Yields-return _ (λ w p. inl p))
    where
      looked_up :
          is_agent_delegation_child_run r ≡ true
          → (l : Lookup) → Yields (Log s) (λ u. Passed a s) Any (by_lookup o r a l)
      looked_up t broken = wait-Keeps (Log-Closed s) quietly λ u. Yields-fail _ (λ w p. tt)
      looked_up t missing = wait-Keeps (Log-Closed s) quietly λ u. Yields-return _ (λ w p. inl p)
      looked_up t found = wait-Keeps (Log-Closed s) quietly λ u.
          Yields-weaken (λ b w q. inr (t, q)) (Says-tell_parent a s)

  pub deliver-Spoke :
      (a : String) (x : Bool) (s : List Notice)
      → Yields (Log s) (λ u. Spoke o r a x s) Any (deliver o r a x)
  unfolding deliver
  deliver-Spoke a x s = Yields-bind _ _ (Says-post (message a x) s) λ u.
      Yields-bind _ _ (Says-emit a (s ++ message a x ∷ [])) λ u.
        complete_run-Keeps (Log-Closed _) (fails o r) quietly λ u.
        Yields-weaken (λ b w q. spoken w q) (end_delegation-Passed a _)
    where
      own : List Notice
      own = message a x ∷ handed o (outbound a)

      spoken :
          (w : World)
          → Passed a ((s ++ message a x ∷ []) ++ handed o (outbound a)) w
          → Spoke o r a x s w
      spoken w (inl e) =
          (own, e ∙ append_assoc s (message a x ∷ []) (handed o (outbound a)), to_user)
      spoken w (inr (t, e)) = (
        own ++ to_parent a,
        e
            ∙ ap (λ l. l ++ to_parent a) (append_assoc s (message a x ∷ []) (handed o (outbound a)))
            ∙ append_assoc s own (to_parent a),
        to_parent_too t,
      )

  -- The messages of the user are taken out of later contexts first.
  pub refuse-Spoke :
      (a : String) (s : List Notice) → Yields (Log s) (λ u. Spoke o r a true s) Any (refuse o r a)
  unfolding refuse
  refuse-Spoke a s = plain_call-Keeps (Log-Closed s) (fails o r) quietly λ u. deliver-Spoke a true s

  pub Spoke-Tells :
      {m : M (Unit {0})} (a : String) (x : Bool) (s : List Notice)
      → Speaks o r x
      → Yields (Log s) (λ u. Spoke o r a x s) Any m
      → Yields (Log s) (λ u. Tells o r s) Any m
  Spoke-Tells a x s h k = Yields-weaken (λ u w (ns, e, p). (ns, e, told a x ns h p)) k

  pub silent-Tells :
      {m : M (Unit {0})} (s : List Notice)
      → KeepsBack o r
      → Keeps (Log s) m
      → Yields (Log s) (λ u. Tells o r s) Any m
  silent-Tells s h k =
      Yields-weaken (λ u w p. ([], p ∙ sym (append_nil s), silent h)) (Yields-keep (λ w p. tt) k)
