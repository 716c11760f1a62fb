-- ===== src/Runtime/Aliases/Applied.antt =====
-- The names that the definitions of a run get (internal/runtime/worker.go): `appliedToolAliasesForDefinitions`,
-- `applyToolAliases`, `providerSafeToolName`, `providerSafeDefaultToolAlias`, `providerToolNamePart`.
use Prim.Native.Char.{Char, char, code}
use Prim.Native.String.{◌++◌ as join, len}
use duraclaw.Runtime.Aliases.{TextMap, AliasSet, trim, provider_name}
use duraclaw.Shared.{
  ℕ, zero, suc, ◌-◌, Bool, true, false, not, ◌&&◌, ◌||◌, List, [], ◌∷◌, map, String, Option, none,
  some, str_eq, leb, ◌==◌, if◌then◌else◌,
}

-- `strings.Trim` and `strings.TrimRight` of underscores.
abbrev pub is_underscore : Char → Bool
is_underscore c = code c == b'_'

unfoldable pub drop_left : String → String
drop_left String.[] = String.[]
drop_left (String.◌∷◌ c s) =
    let rest = drop_left s in if is_underscore c then rest else String.◌∷◌ c s

abbrev pub keep_right : Char → String → String
keep_right c String.[] = if is_underscore c then String.[] else String.◌∷◌ c String.[]
keep_right c (String.◌∷◌ d s) = String.◌∷◌ c (String.◌∷◌ d s)

unfoldable pub drop_right : String → String
drop_right String.[] = String.[]
drop_right (String.◌∷◌ c s) = keep_right c (drop_right s)

abbrev pub is_plain : Char → Bool
is_plain c = (leb b'a' (code c) && leb (code c) b'z') || (leb b'0' (code c) && leb (code c) b'9')

-- The loop of `providerToolNamePart`, with whether an underscore was written last.
unfoldable pub plain_part : Bool → String → String
plain_part last String.[] = String.[]
plain_part last (String.◌∷◌ c s) =
    let kept = plain_part false s in
    let replaced = plain_part true s in
    if is_plain c
    then String.◌∷◌ c kept
    else if last
    then replaced
    else String.◌∷◌ (char b'_' tt) replaced

abbrev pub or_tool : String → String
or_tool s = if str_eq s "" then "tool" else s

abbrev pub take_text : ℕ → String → String
take_text zero s = String.[]
take_text (suc n) String.[] = String.[]
take_text (suc n) (String.◌∷◌ c s) = String.◌∷◌ c (take_text n s)

-- What the naming of tools takes from elsewhere: `strings.ToLower`, and the hash of a text in hexadecimal.
pub record Naming : Type 0 where
  pub to_lower : String → String
  pub hex_hash : String → String

-- Whether every character of a name may stand in one that a provider takes.
unfoldable pub all_safe : String → Bool
all_safe String.[] = true
all_safe (String.◌∷◌ c s) =
    let rest = all_safe s in
    if is_plain c || (leb b'A' (code c) && leb (code c) b'Z') || is_underscore c || code c == b'-'
    then rest
    else false

-- `providerSafeToolName`.
unfoldable pub provider_safe_tool_name : String → Bool
unfolding trim all_safe
provider_safe_tool_name name =
    not (str_eq (trim name) "") && leb (len (trim name)) 128 && all_safe (trim name)

-- `seen` and `applied`.
pub record Applied : Type 0 where
  pub seen : TextMap
  pub aliases : AliasSet

abbrev pub find_text : String → TextMap → Option String
find_text k [] = none
find_text k ((j, v) ∷ m) = if str_eq j k then some v else find_text k m

abbrev pub conflicts : String → Option String → Bool
conflicts original none = false
conflicts original (some prior) = not (str_eq prior original)

-- The maps after one more definition and its name.
abbrev pub note_alias : String → String → AliasSet → AliasSet
note_alias p original a = if str_eq p original then a else record {
  original_to_alias = (original, p) ∷ a.original_to_alias;
  alias_to_original = (p, original) ∷ a.alias_to_original;
}

abbrev pub no_aliases : AliasSet
no_aliases = record { original_to_alias = []; alias_to_original = [] }

abbrev pub aliases_of : Option Applied → Option AliasSet
aliases_of none = none
aliases_of (some a) = some a.aliases

abbrev pub renamed : List String → Option AliasSet → Option (List String)
renamed defs none = none
renamed defs (some a) = some (map (provider_name a) defs)

module _ (n : Naming) where
  -- `providerToolNamePart`.
  unfoldable pub provider_tool_name_part : String → String
  unfolding trim drop_left drop_right plain_part
  provider_tool_name_part value =
      or_tool (drop_left (drop_right (plain_part false (n.to_lower (trim value)))))

  abbrev pub suffix : String → String
  suffix name = join "__" (n.hex_hash name)

  -- `providerSafeDefaultToolAlias`.
  unfoldable pub provider_safe_default_tool_alias : String → String
  unfolding provider_tool_name_part drop_right
  provider_safe_default_tool_alias name =
      let alias = provider_tool_name_part name in
      if leb (len alias) 96
      then alias
      else join (drop_right (take_text (96 - len (suffix name)) alias)) (suffix name)

  -- The name that a definition gets.
  unfoldable pub chosen_name : AliasSet → String → String
  unfolding provider_name provider_safe_tool_name provider_safe_default_tool_alias
  chosen_name configured original =
      if str_eq (provider_name configured original) original
        && not (provider_safe_tool_name (provider_name configured original))
      then provider_safe_default_tool_alias original
      else provider_name configured original

  -- The loop of `appliedToolAliasesForDefinitions`: a name that stands for two definitions is an error.
  unfoldable pub apply_each : AliasSet → Applied → List String → Option Applied
  unfolding chosen_name
  apply_each configured a [] = some a
  apply_each configured a (d ∷ ds) =
      let p = chosen_name configured d in
      let rest =
        apply_each configured
          (record { seen = (p, d) ∷ a.seen; aliases = note_alias p d a.aliases }) ds in
      if conflicts d (find_text p a.seen) then none else rest

  -- `appliedToolAliasesForDefinitions`.
  unfoldable pub applied_tool_aliases : List String → AliasSet → Option AliasSet
  unfolding apply_each
  applied_tool_aliases defs configured =
      aliases_of (apply_each configured (record { seen = []; aliases = no_aliases }) defs)

  -- `applyToolAliases`.
  unfoldable pub apply_tool_aliases : List String → AliasSet → Option (List String)
  unfolding applied_tool_aliases provider_name
  apply_tool_aliases defs configured = renamed defs (applied_tool_aliases defs configured)
