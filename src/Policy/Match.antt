-- ===== src/Policy/Match.antt =====
-- Conditions of policy rules (internal/policy/policy.go): `valueAt`, `ruleMatches`,
-- `conditionMapMatches`. A nested condition is marshalled and decoded again in the code, which gives
-- the map back.
use duraclaw.Json.{
  Json, null, text, array, object, Items, nil, cons, Fields, end, field, empty, malformed, decoded,
  field_or_null, as_object, as_array, to_list, string_or_empty, sprint,
}
use duraclaw.Policy.{TextTools, Context, Rule}
use duraclaw.Shared.{
  Bool, true, false, not, ◌&&◌, List, [], ◌∷◌, String, Option, none, some, str_eq, has_prefix,
  has_substring, has_suffix, if◌then◌else◌,
}

-- `valueAt`.
unfoldable pub value_at : Context → String → Json
value_at pc key =
    if str_eq key "customer_id"
    then text pc.customer_id
    else if str_eq key "user_id"
    then text pc.user_id
    else if str_eq key "agent_instance_id"
    then text pc.agent_instance_id
    else if str_eq key "session_id"
    then text pc.session_id
    else if str_eq key "run_id"
    then text pc.run_id
    else if str_eq key "tool_name"
    then text pc.tool_name
    else if str_eq key "workflow_id"
    then text pc.workflow_id
    else if str_eq key "artifact_id"
    then text pc.artifact_id
    else if str_eq key "processor"
    then text pc.processor
    else if str_eq key "content"
    then text pc.content
    else field_or_null key pc.additional_fields

-- `key, _ := raw["key"].(string)` and the value there, printed.
abbrev printed_at : Context → Fields → String
printed_at pc raw = sprint (value_at pc (string_or_empty (field_or_null "key" raw)))

abbrev printed : String → Fields → String
printed k raw = sprint (field_or_null k raw)

one_printed : String → List Json → Bool
one_printed value [] = false
one_printed value (c ∷ cs) = if str_eq value (sprint c) then true else one_printed value cs

abbrev is_match : Option Bool → Bool
is_match none = false
is_match (some b) = b

-- The tests of one value, each with the map under its key.
test_in : Context → Fields → Bool
unfolding one_printed value_at
test_in pc raw = elim (as_array (field_or_null "values" raw)) [
  | none ↦ false
  | some xs ↦ one_printed (printed_at pc raw) (to_list xs)
]

test_matches : TextTools → Context → Fields → Bool
unfolding value_at
test_matches tools pc raw =
    let pattern = string_or_empty (field_or_null "pattern" raw) in
    if str_eq pattern "" then false else is_match (tools.matches pattern (printed_at pc raw))

test_contains : TextTools → Context → Fields → Bool
unfolding value_at has_substring
test_contains tools pc raw =
    let needle = tools.to_lower (printed "value" raw) in
    not (str_eq needle "") && has_substring (tools.to_lower (printed_at pc raw)) needle

-- `condition[key].(map[string]any)`.
abbrev map_under : String → Fields → Option Fields
map_under k condition = as_object (field_or_null k condition)

-- The first seven cases of `ruleMatches`, none where no key of theirs holds a map.
abbrev first_of : Option Bool → Option Bool → Option Bool
first_of none o = o
first_of (some b) o = some b

abbrev tested : (Fields → Bool) → Option Fields → Option Bool
tested test none = none
tested test (some raw) = some (test raw)

unfoldable pub value_tests : TextTools → Context → Fields → Option Bool
unfolding test_in test_matches test_contains value_at has_prefix has_suffix
value_tests tools pc c =
    first_of
      (tested (λ raw. str_eq (printed_at pc raw) (printed "value" raw)) (map_under "equals" c))
      (first_of
        (tested (λ raw. not (str_eq (printed_at pc raw) (printed "value" raw)))
          (map_under "not_equals" c))
        (first_of (tested (test_contains tools pc) (map_under "contains" c)) (
          first_of
            (tested (λ raw. has_prefix (printed_at pc raw) (printed "value" raw))
              (map_under "prefix" c))
            (first_of
              (tested (λ raw. has_suffix (printed_at pc raw) (printed "value" raw))
                (map_under "suffix" c))
              (first_of (tested (test_in pc) (map_under "in" c))
                (tested (test_matches tools pc) (map_under "matches" c)))))))

-- A verdict of the first that gives one, true if none does.
abbrev pub or_true : Option Bool → Bool
or_true none = true
or_true (some b) = b

-- The cases in their order.
abbrev pub in_order : Option Bool → Option Bool → Option Bool → Option Bool → Bool
in_order value all any not_ = or_true (first_of value (first_of all (first_of any not_)))

unfoldable mutual
  unfolding value_tests

  -- `conditionMapMatches`, which calls `ruleMatches`.
  pub condition_map_matches : TextTools → Context → Json → Bool
  condition_map_matches tools pc (object c) =
      in_order (value_tests tools pc c) (under_all tools pc c) (under_any tools pc c)
        (under_not tools pc c)
  condition_map_matches tools pc _ = false

  -- The loops over the lists.
  pub all_match : TextTools → Context → Items → Bool
  all_match tools pc nil = true
  all_match tools pc (cons x xs) = condition_map_matches tools pc x && all_match tools pc xs

  pub any_match : TextTools → Context → Items → Bool
  any_match tools pc nil = false
  any_match tools pc (cons x xs) =
      if condition_map_matches tools pc x then true else any_match tools pc xs

  -- `condition["all"].([]any)`, `condition["any"].([]any)`, `condition["not"]`, with their verdicts.
  pub under_all : TextTools → Context → Fields → Option Bool
  under_all tools pc end = none
  under_all tools pc (field k (array xs) fs) =
      if str_eq k "all" then some (all_match tools pc xs) else under_all tools pc fs
  under_all tools pc (field k v fs) = if str_eq k "all" then none else under_all tools pc fs

  pub under_any : TextTools → Context → Fields → Option Bool
  under_any tools pc end = none
  under_any tools pc (field k (array xs) fs) =
      if str_eq k "any" then some (any_match tools pc xs) else under_any tools pc fs
  under_any tools pc (field k v fs) = if str_eq k "any" then none else under_any tools pc fs

  pub under_not : TextTools → Context → Fields → Option Bool
  under_not tools pc end = none
  under_not tools pc (field k v fs) =
      if str_eq k "not"
      then some (not (condition_map_matches tools pc v))
      else under_not tools pc fs

-- `ruleMatches` on a decoded condition.
unfoldable pub object_matches : TextTools → Context → Fields → Bool
unfolding condition_map_matches value_tests
object_matches tools pc c =
    in_order (value_tests tools pc c) (under_all tools pc c) (under_any tools pc c)
      (under_not tools pc c)

-- `ruleMatches`: no condition holds, one that does not decode to a map fails; `null` decodes to the
-- empty map.
unfoldable pub rule_matches : TextTools → Context → Rule → Bool
unfolding object_matches
rule_matches tools pc rule = elim rule.condition [
  | empty ↦ true
  | malformed ↦ false
  | decoded j ↦ elim j [ object c ↦ object_matches tools pc c | null ↦ true | _ ↦ false ]
]
