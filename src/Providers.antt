-- ===== src/Providers.antt =====
-- The choice of models (internal/providers/types.go): `ParseModelRef`, `NormalizeProvider`, `ModelKey`,
-- `ResolveCandidates`, `ExecuteFallback`, `transientProviderError`. The models themselves are outside.
pub mod Candidates
pub mod Attempts
mod Tests
use Prim.Native.Char.{code}
use Prim.Native.String.{◌++◌ as join}
use duraclaw.Runtime.Aliases.{trim}
use duraclaw.Runtime.Calls.{Response}
use duraclaw.Shared.{
  ℕ, zero, suc, ◌+◌, Bool, true, false, not, ◌||◌, List, [], ◌∷◌, ◌++◌, String, Option, none, some,
  str_eq, ◌==◌, if◌then◌else◌, contains, length, has_substring,
}

-- `ModelRef`, and `FallbackCandidate` without an identity of its own.
pub record Candidate : Type 0 where
  pub provider : String
  pub model : String

pub record ModelConfig : Type 0 where
  pub primary : String
  pub fallbacks : List String

-- What stands before the first slash, and behind it; nothing, where there is no slash.
unfoldable pub split_slash : String → Option (String × String)
split_slash String.[] = none
split_slash (String.◌∷◌ c s) =
    let rest = split_slash s in if code c == b'/' then some ("", s) else grown rest
  where
    grown : Option (String × String) → Option (String × String)
    grown none = none
    grown (some (a, b)) = some (String.◌∷◌ c a, b)

module _ (to_lower : String → String) where
  -- The switch of `NormalizeProvider`.
  unfoldable pub canonical : String → String
  canonical p =
      if str_eq p "gpt"
      then "openai"
      else if str_eq p "claude"
      then "anthropic"
      else if str_eq p "google"
      then "gemini"
      else if contains ("openai_compatible" ∷ "openai-compatible" ∷ "local" ∷ "local-llm" ∷ []) p
      then "openai-compatible"
      else if contains ("togetherai" ∷ "together-ai" ∷ []) p
      then "together"
      else if contains ("deepseek-ai" ∷ "deepseekai" ∷ []) p
      then "deepseek"
      else p

  -- `NormalizeProvider`.
  unfoldable pub normalize_provider : String → String
  unfolding canonical trim
  normalize_provider provider = canonical (to_lower (trim provider))

  abbrev pub whole_ref : String → String → Option Candidate
  whole_ref default_provider raw =
      some (record { provider = normalize_provider default_provider; model = raw })

  abbrev pub ref_of : String → String → Option (String × String) → Option Candidate
  ref_of default_provider raw none = whole_ref default_provider raw
  ref_of default_provider raw (some (p, m)) =
      if str_eq p ""
      then whole_ref default_provider raw
      else if str_eq (trim m) ""
      then none
      else some (record { provider = normalize_provider p; model = trim m })

  -- `ParseModelRef`.
  unfoldable pub parse_model_ref : String → String → Option Candidate
  unfolding split_slash normalize_provider trim
  parse_model_ref raw default_provider =
      if str_eq (trim raw) ""
      then none
      else ref_of default_provider (trim raw) (split_slash (trim raw))

  -- `ModelKey`.
  unfoldable pub model_key : Candidate → String
  unfolding normalize_provider trim
  model_key c = join (normalize_provider c.provider) (join "/" (to_lower (trim c.model)))

  -- The function `add` of `ResolveCandidates`, with what follows.
  abbrev pub add_ref :
      (List String → List Candidate) → List String → Option Candidate → List Candidate
  add_ref rest seen none = rest seen
  add_ref rest seen (some c) =
      if contains seen (model_key c) then rest seen else c ∷ rest (model_key c ∷ seen)

  -- The loop of `ResolveCandidates`, with the keys that are seen.
  unfoldable pub add_each : String → List String → List String → List Candidate
  unfolding parse_model_ref model_key
  add_each default_provider [] seen = []
  add_each default_provider (raw ∷ refs) seen =
      add_ref (add_each default_provider refs) seen (parse_model_ref raw default_provider)

  -- `ResolveCandidates`.
  unfoldable pub resolve_candidates : ModelConfig → String → List Candidate
  unfolding add_each
  resolve_candidates cfg default_provider =
      add_each default_provider (cfg.primary ∷ cfg.fallbacks) []

  abbrev pub transient_texts : List String
  transient_texts =
      "status 408" ∷ "status 409" ∷ "status 429" ∷ "status 500" ∷ "status 502" ∷ "status 503"
      ∷ "status 504" ∷ "timeout" ∷ "temporary" ∷ "connection reset" ∷ "connection refused"
      ∷ "unexpected eof" ∷ "server disconnected" ∷ []

  unfoldable pub has_one : List String → String → Bool
  unfolding has_substring
  has_one [] text = false
  has_one (t ∷ ts) text = has_substring text t || has_one ts text

  -- `transientProviderError`, of the text of an error.
  unfoldable pub transient_provider_error : String → Bool
  unfolding has_one
  transient_provider_error text = has_one transient_texts (to_lower text)

-- What a call of a model gives, the text of an error or a response.
pub data Reply : Type 0 where
  refused : String → Reply
  gave : Response → Reply

-- `FallbackAttempt`, without its duration.
pub record Attempt : Type 0 where
  pub candidate : Candidate
  pub error : String
  pub attempt : ℕ

-- How `ExecuteFallback` ends, each with the attempts that failed.
pub data Outcome : Type 0 where
  no_candidates : Outcome
  chosen : Candidate → Response → List Attempt → Outcome
  cancelled : List Attempt → Outcome
  all_failed : List Attempt → Outcome

-- What is outside of `ExecuteFallback`. `run` says what the call with a number gives, `done` whether the
-- context is done after it, and `slept` whether the wait after it ends before the context is done.
pub record Calls : Type 0 where
  pub to_lower : String → String
  pub run : Candidate → ℕ → Reply
  pub done : ℕ → Bool
  pub slept : ℕ → Bool

module _ (o : Calls) where
  abbrev pub logged : List Attempt → Candidate → String → ℕ → List Attempt
  logged tried c e n = tried ++ record { candidate = c; error = e; attempt = n } ∷ []

  -- The second attempt at a candidate.
  abbrev pub second_reply : (List Attempt → Outcome) → Candidate → List Attempt → Reply → Outcome
  second_reply rest c tried (gave r) = chosen c r tried
  second_reply rest c tried (refused e) =
      if o.done (length tried) then cancelled tried else rest (logged tried c e 2)

  -- The first attempt at a candidate, and what follows.
  abbrev pub first_reply : (List Attempt → Outcome) → Candidate → List Attempt → Reply → Outcome
  first_reply rest c tried (gave r) = chosen c r tried
  first_reply rest c tried (refused e) =
      let log = logged tried c e 1 in
      if o.done (length tried)
      then cancelled tried
      else if not (transient_provider_error o.to_lower e)
      then rest log
      else if o.slept (length tried)
      then second_reply rest c log (o.run c (length log))
      else cancelled log

  -- The loop over the candidates; a call has the number of the attempts that failed before it.
  unfoldable pub try_each : List Candidate → List Attempt → Outcome
  unfolding transient_provider_error
  try_each [] tried = all_failed tried
  try_each (c ∷ cs) tried = first_reply (try_each cs) c tried (o.run c (length tried))

  -- `ExecuteFallback`.
  unfoldable pub execute_fallback : List Candidate → Outcome
  unfolding try_each
  execute_fallback [] = no_candidates
  execute_fallback (c ∷ cs) = try_each (c ∷ cs) []
