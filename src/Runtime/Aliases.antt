-- ===== src/Runtime/Aliases.antt =====
-- The names under which tools are offered to a model (internal/runtime/worker.go): `ProviderName`,
-- `OriginalName`, `appliedToolAliasesForDefinitions`, `applyToolAliases`. A map is a list whose first entry of a key
-- counts. The name that is made for a tool whose own is not safe is a parameter.
pub mod Applied
pub mod Trimmed
pub mod Named
pub mod Sound
pub mod Restored
mod Tests
use Prim.Native.Char.{Char, code}
use duraclaw.Json.{is_space}
use duraclaw.Shared.{List, [], ◌∷◌, String, str_eq, if◌then◌else◌}

abbrev pub TextMap : Type 0
TextMap = List (String × String)

-- `m[key]`: the empty text where the key is missing.
abbrev pub get_text : String → TextMap → String
get_text k [] = ""
get_text k ((j, v) ∷ m) = if str_eq j k then v else get_text k m

unfoldable pub trim_left : String → String
unfolding is_space
trim_left String.[] = String.[]
trim_left (String.◌∷◌ c s) =
    let rest = trim_left s in if is_space (code c) then rest else String.◌∷◌ c s

unfoldable pub cons_trimmed : Char → String → String
unfolding is_space
cons_trimmed c String.[] = if is_space (code c) then String.[] else String.◌∷◌ c String.[]
cons_trimmed c (String.◌∷◌ d s) = String.◌∷◌ c (String.◌∷◌ d s)

unfoldable pub trim_right : String → String
unfolding cons_trimmed
trim_right String.[] = String.[]
trim_right (String.◌∷◌ c s) = cons_trimmed c (trim_right s)

-- `strings.TrimSpace`.
unfoldable pub trim : String → String
unfolding trim_left trim_right
trim s = trim_left (trim_right s)

-- `toolAliasSet`.
pub record AliasSet : Type 0 where
  pub original_to_alias : TextMap
  pub alias_to_original : TextMap

abbrev pub or_name : String → String → String
or_name name found = if str_eq found "" then name else found

-- `ProviderName`, `OriginalName`.
unfoldable pub provider_name : AliasSet → String → String
unfolding trim
provider_name a name = or_name name (trim (get_text name a.original_to_alias))

unfoldable pub original_name : AliasSet → String → String
unfolding trim
original_name a name = or_name name (trim (get_text name a.alias_to_original))
