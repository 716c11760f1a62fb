-- ===== src/Runtime/Aliases/Tests.antt =====
-- Two tools, of which one has a name that a provider does not take, and one an alias.
use duraclaw.Json.{is_space}
use duraclaw.Runtime.Aliases.{
  AliasSet, cons_trimmed, trim_left, trim_right, trim, provider_name, original_name,
}
use duraclaw.Runtime.Aliases.Applied.{
  Naming, drop_left, drop_right, plain_part, all_safe, provider_safe_tool_name,
  provider_tool_name_part, provider_safe_default_tool_alias, chosen_name, apply_each,
  applied_tool_aliases, apply_tool_aliases,
}
use duraclaw.Runtime.Aliases.Restored.{applied_tool_aliases-original_name}
use duraclaw.Shared.{◌≡◌, refl, inl, inr, List, [], ◌∷◌, String, none, some}

abbrev naming : Naming
naming = record { to_lower = λ s. s; hex_hash = λ s. "00c0ffee" }

abbrev configured : AliasSet
configured = record {
  original_to_alias = ("send", " post ") ∷ [];
  alias_to_original = ("post", "send") ∷ [];
}

abbrev tools : List String
tools = "weather.get" ∷ "send" ∷ "ask" ∷ []

abbrev applied : AliasSet
applied = record {
  original_to_alias = ("send", "post") ∷ ("weather.get", "weather_get") ∷ [];
  alias_to_original = ("post", "send") ∷ ("weather_get", "weather.get") ∷ [];
}

named_tools :
    (applied_tool_aliases naming tools configured ≡ some applied)
    × (apply_tool_aliases naming tools configured ≡ some ("weather_get" ∷ "post" ∷ "ask" ∷ []))
unfolding apply_tool_aliases applied_tool_aliases apply_each chosen_name provider_name
    provider_safe_tool_name provider_safe_default_tool_alias provider_tool_name_part all_safe
    plain_part drop_left drop_right trim trim_left trim_right cons_trimmed is_space
named_tools = (refl, refl)

-- Two names that come to the same are refused.
clash : apply_tool_aliases naming ("a.b" ∷ "a_b" ∷ []) configured ≡ none
unfolding apply_tool_aliases applied_tool_aliases apply_each chosen_name provider_name
    provider_safe_tool_name provider_safe_default_tool_alias provider_tool_name_part all_safe
    plain_part drop_left drop_right trim trim_left trim_right cons_trimmed is_space
clash = refl

applied_tool_aliases-original_name_example :
    original_name applied (provider_name applied "send") ≡ "send"
unfolding trim trim_left trim_right cons_trimmed is_space
applied_tool_aliases-original_name_example =
    applied_tool_aliases-original_name naming configured tools applied
      (λ s. (refl, (refl, (refl, (refl, (refl, (refl, (refl, (refl, tt)))))))))
      ((refl, refl), ((refl, refl), ((refl, refl), tt))) named_tools.0 "send" (inr (inl refl))
