-- ===== src/Workflow/Conditions.antt =====
-- Conditions on the output of a node (internal/workflow/executor.go): `valueAt`, `edgeMatches`,
-- `conditionMatches`, `intValue`, `maxAttempts`. The tags of the
-- decoded structures are compared as they are spelled.
use Prim.Native.Char.{code}
use duraclaw.Json.{
  ℤ, pos, negsuc, Json, null, number, object, Fields, end, field, Raw, empty, malformed, decoded,
  get_field, field_or_null, string_or_empty, as_object, sprint,
}
use duraclaw.Shared.{
  ℕ, Bool, true, false, not, ◌&&◌, List, [], ◌∷◌, String, Option, none, some, str_eq, ◌==◌, ltb,
  if◌then◌else◌,
}

-- `strings.Split(key, ".")`: the first part, and the parts behind the dots.
abbrev prepend : String → List String → List String
prepend c [] = c ∷ []
prepend c (p ∷ ps) = p ∷ ps

split_dots : String → List String
split_dots String.[] = String.[] ∷ []
split_dots (String.◌∷◌ c s) = elim (split_dots s) [
  | [] ↦ []
  | p ∷ ps ↦ if code c == b'.' then String.[] ∷ p ∷ ps else String.◌∷◌ c p ∷ ps
]

walk_path : Json → List String → Json
walk_path cur [] = cur
walk_path cur (part ∷ parts) = elim (as_object cur) [
  | none ↦ null
  | some fs ↦ walk_path (field_or_null part fs) parts
]

-- `valueAt`.
unfoldable pub value_at : Fields → String → Json
unfolding split_dots walk_path
value_at values key = if str_eq key "" then null else elim (get_field key values) [
  | some v ↦ v
  | none ↦ walk_path (object values) (split_dots key)
]

-- A member of type `map[string]any` of a decoded structure: nil where it is missing or null, and a
-- failure to decode where it is anything else.
member_map : String → Fields → Option Fields
member_map k fs = elim (get_field k fs) [
  | none ↦ some end
  | some v ↦ elim v [ null ↦ some end | object gs ↦ some gs | _ ↦ none ]
]

abbrev is_end : Fields → Bool
is_end end = true
is_end (field k v fs) = false

-- Whether `key` names a value that prints as the one under `value`.
same_value : Fields → Fields → Bool
same_value m output =
    str_eq (sprint (value_at output (string_or_empty (field_or_null "key" m))))
      (sprint (field_or_null "value" m))

abbrev has_key : Fields → Bool
has_key m = not (str_eq (string_or_empty (field_or_null "key" m)) "")

edge_test : Fields → Fields → Fields → Bool
edge_test equals not_equals output =
    if not (is_end equals)
    then has_key equals && same_value equals output
    else if not (is_end not_equals)
    then has_key not_equals && not (same_value not_equals output)
    else true

edge_matches_object : Fields → Fields → Bool
edge_matches_object fs output = elim (member_map "equals" fs) [
  | none ↦ false
  | some equals ↦ elim (member_map "not_equals" fs) [
    | none ↦ false
    | some not_equals ↦ edge_test equals not_equals output
  ]
]

-- `edgeMatches`, of the condition of an edge.
unfoldable pub edge_matches : Raw → Fields → Bool
unfolding member_map same_value edge_test edge_matches_object value_at
edge_matches empty output = true
edge_matches malformed output = false
edge_matches (decoded j) output = elim j [
  | null ↦ true
  | object fs ↦ edge_matches_object fs output
  | _ ↦ false
]

-- `conditionMatches`.
unfoldable pub condition_matches : Fields → Fields → Bool
unfolding same_value value_at
condition_matches config output = elim (as_object (field_or_null "equals" config)) [
  | some m ↦ has_key m && same_value m output
  | none ↦ elim (as_object (field_or_null "not_equals" config)) [
    | some m ↦ has_key m && not (same_value m output)
    | none ↦ false
  ]
]

-- `intValue`, of a decoded number.
unfoldable pub int_value : Json → ℤ
int_value (number n t) = n
int_value _ = pos 0

abbrev pub positive_or : ℤ → ℕ → ℕ
positive_or (pos n) d = if ltb 0 n then n else d
positive_or (negsuc n) d = d

abbrev pub fields_of : Raw → Fields
fields_of (decoded (object fs)) = fs
fields_of _ = end

-- `maxAttempts`, of the retry policy of a node.
unfoldable pub max_attempts : Raw → ℕ
unfolding int_value
max_attempts policy =
    positive_or (int_value (field_or_null "max_attempts" (fields_of policy)))
      (positive_or (int_value (field_or_null "attempts" (fields_of policy))) 1)
