-- ===== src/Providers/Tests.antt =====
-- Three references of which two are of one model, and calls that fail before one succeeds.
use duraclaw.Json.{is_space}
use duraclaw.Providers.{
  Candidate, ModelConfig, refused, gave, chosen, Calls, split_slash, canonical, normalize_provider,
  parse_model_ref, model_key, add_each, resolve_candidates, has_one, transient_provider_error,
  try_each, execute_fallback,
}
use duraclaw.Providers.Candidates.{first_of_each, read_refs, resolve_candidates-first_of_each}
use duraclaw.Runtime.Aliases.{trim, trim_left, trim_right, cons_trimmed}
use duraclaw.Runtime.Calls.{Response}
use duraclaw.Shared.{◌≡◌, refl, true, false, [], ◌∷◌, ltb, if◌then◌else◌, has_prefix, has_substring}

abbrev config : ModelConfig
config = record { primary = "gpt/large"; fallbacks = " openai/large" ∷ "claude/small" ∷ "/" ∷ [] }

abbrev large : Candidate
large = record { provider = "openai"; model = "large" }

abbrev small : Candidate
small = record { provider = "anthropic"; model = "small" }

resolved :
    resolve_candidates (λ s. s) config "local"
    ≡ large ∷ small ∷ record { provider = "openai-compatible"; model = "/" } ∷ []
unfolding resolve_candidates add_each model_key parse_model_ref normalize_provider canonical
    split_slash trim trim_left trim_right cons_trimmed is_space
resolved = refl

resolve_candidates-first_of_each_example :
    resolve_candidates (λ s. s) config "local"
    ≡ first_of_each
        (model_key (λ s. s))
        (read_refs (λ s. s) "local" (config.primary ∷ config.fallbacks))
resolve_candidates-first_of_each_example = resolve_candidates-first_of_each (λ s. s) config "local"

abbrev response : Response
response = record { content = "hello"; tool_calls = []; finish_reason = "stop" }

-- The first two calls fail.
abbrev calls : Calls
calls = record {
  to_lower = λ s. s;
  run = λ c n. if ltb n 2 then refused "status 429" else gave response;
  done = λ n. false;
  slept = λ n. true;
}

second_answers :
    execute_fallback calls (large ∷ small ∷ [])
    ≡ chosen small response (
        record { candidate = large; error = "status 429"; attempt = 1 }
        ∷ record { candidate = large; error = "status 429"; attempt = 2 }
        ∷ [])
unfolding execute_fallback try_each transient_provider_error has_one has_substring has_prefix
second_answers = refl
