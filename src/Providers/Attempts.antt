-- ===== src/Providers/Attempts.antt =====
-- What `ExecuteFallback` has to say for itself.
use duraclaw.Providers.{
  Candidate, refused, gave, Attempt, Outcome, no_candidates, chosen, cancelled, all_failed, Calls,
  logged, transient_provider_error,
}
use duraclaw.Shared.{ℕ, ◌+◌, ◌≡◌, ◌⊎◌, true, false, List, [], ◌∷◌, ◌++◌, String, length}

module _ (o : Calls) where
  -- The log is of the calls in their order: each entry is of the call with its place as its number.
  pub data Logged : List Attempt → Type 0 where
    nothing : Logged []
    more :
        (tried : List Attempt) (c : Candidate) (e : String) (n : ℕ)
        → Logged tried
        → o.run c (length tried) ≡ refused e
        → Logged (logged o tried c e n)

  -- Each candidate that was passed over has two attempts where its first error is transient, and else one.
  pub data Passed : List Candidate → List Attempt → Type 0 where
    none_yet : Passed [] []
    once :
        (cs : List Candidate) (tried : List Attempt) (c : Candidate) (e : String)
        → transient_provider_error o.to_lower e ≡ false
        → Passed cs tried
        → Passed (cs ++ c ∷ []) (logged o tried c e 1)
    twice :
        (cs : List Candidate) (tried : List Attempt) (c : Candidate) (e f : String)
        → transient_provider_error o.to_lower e ≡ true
        → Passed cs tried
        → Passed (cs ++ c ∷ []) (logged o (logged o tried c e 1) c f 2)

  -- The last attempts before the answer: of the candidates before, and one at the candidate itself where
  -- its first error was transient.
  abbrev pub Before : List Candidate → Candidate → List Attempt → Type 0
  Before cs c tried =
      Passed cs tried
      ⊎ ((first : List Attempt) × (e : String) × (tried ≡ logged o first c e 1)
          × (transient_provider_error o.to_lower e ≡ true)
          × Passed cs first)

  -- The context was done after the call that follows the log, or before the wait after the last call of
  -- the log had ended.
  abbrev pub Cancelled : List Attempt → Type 0
  Cancelled tried =
      (o.done (length tried) ≡ true) ⊎ ((n : ℕ) × (length tried ≡ n + 1) × (o.slept n ≡ false))

  abbrev pub Explained : List Candidate → Outcome → Type 0
  Explained cs no_candidates = cs ≡ []
  Explained cs (chosen c r tried) =
      Logged tried
      × (o.run c (length tried) ≡ gave r)
      × ((past : List Candidate) × (left : List Candidate) × (cs ≡ past ++ c ∷ left)
          × Before past c tried)
  Explained cs (cancelled tried) = Logged tried × Cancelled tried
  Explained cs (all_failed tried) = Logged tried × Passed cs tried
