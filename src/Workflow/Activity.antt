-- ===== src/Workflow/Activity.antt =====
-- What running one node does (internal/workflow/executor.go, `executeNode`): the node types that only
-- read the configuration and the previous outputs are written out; the others call models, tools,
-- MCP servers and the other tables, and are a parameter.
use duraclaw.Json.{
  ℤ, pos, negsuc, Json, null, number, text, array, object, Items, nil, Fields, end, field, Raw,
  empty, malformed, decoded, field_or_null, string_or_empty, as_object, set_field, decimal,
  is_blank, items_length, items_take,
}
use duraclaw.Shared.{
  ℕ, Bool, true, false, List, [], ◌∷◌, String, Option, none, some, str_eq, ltb, if◌then◌else◌,
}
use duraclaw.Workflow.Conditions.{value_at, condition_matches, int_value}
use duraclaw.Workflow.Graph.{Node}

-- What `executeNode` returns: an output with the status succeeded or awaiting_user, the two that its
-- cases return, or an error.
pub data Outcome : Type 0 where
  done : Fields → Outcome
  waits : Fields → Outcome
  broke : Outcome

-- The node types that leave the engine; the number is that of the node's run, so that two runs of
-- one node may go two ways.
abbrev pub External : Type 0
External = ℕ → Node → Fields → Fields → Outcome

-- `configMap`.
unfoldable pub config_map : Raw → Option Fields
config_map empty = some end
config_map malformed = none
config_map (decoded j) = elim j [ object fs ↦ some fs | null ↦ some end | _ ↦ none ]

-- `stringValue`.
abbrev pub string_value : Json → String → String
string_value (text s) fallback = if is_blank s then fallback else s
string_value _ fallback = fallback

-- `executeTransform`.
-- `for k, v := range fs { out[k] = v }`.
unfoldable pub set_all : Fields → Fields → Fields
set_all end out = out
set_all (field k v fs) out = set_all fs (set_field k v out)

map_all : Fields → Fields → Fields → Fields
map_all previous end out = out
map_all previous (field k v fs) out =
    map_all previous fs (elim v [ text key ↦ set_field k (value_at previous key) out | _ ↦ out ])

unfoldable pub execute_transform : Fields → Fields → Fields
unfolding set_all map_all value_at
execute_transform config previous =
    let constants : Fields = elim (as_object (field_or_null "set" config)) [
      | some fs ↦ set_all fs end
      | none ↦ end
    ] in
    elim (as_object (field_or_null "map" config)) [
      | some fs ↦ map_all previous fs constants
      | none ↦ constants
    ]

-- `executeLoop`.
loop_limit : ℤ → ℕ
loop_limit (pos n) = if ltb 0 n then if ltb 100 n then 100 else n else 100
loop_limit (negsuc n) = 100

loop_items : Json → Items
loop_items (array xs) = xs
loop_items _ = nil

unfoldable pub execute_loop : Fields → Fields → Fields
unfolding loop_limit loop_items value_at int_value
execute_loop config previous =
    let items =
      loop_items (value_at previous (string_value (field_or_null "items_key" config) "items")) in
    let limit = loop_limit (int_value (field_or_null "max_items" config)) in
    let count = if ltb limit (items_length items) then limit else items_length items in
    field "iterations" (number (pos count) (decimal count))
      (field "items" (array (items_take count items)) end)

abbrev plain_types : List String
plain_types = "start" ∷ "checkpoint" ∷ "message" ∷ "end" ∷ "split" ∷ "merge" ∷ []

abbrev is_one_of : List String → String → Bool
is_one_of [] t = false
is_one_of (k ∷ ks) t = if str_eq k t then true else is_one_of ks t

plain_output : Node → Fields → Fields
plain_output n config =
    let tail : Fields = elim (str_eq (string_or_empty (field_or_null "text" config)) "") [
      | true ↦ end
      | false ↦ field "text" (text (string_or_empty (field_or_null "text" config))) end
    ] in
    field "node_key" (text n.node_key) (field "node_type" (text n.node_type) tail)

question_of : Fields → String
question_of config =
    let q = string_or_empty (field_or_null "question" config) in
    if str_eq q "" then "Additional input is required." else q

-- The switch of `executeNode`, once the configuration is decoded.
by_type : External → ℕ → Node → Fields → Fields → Outcome
unfolding plain_output question_of value_at condition_matches execute_transform execute_loop
by_type external id n config previous =
    if is_one_of plain_types n.node_type
    then done (plain_output n config)
    else if str_eq n.node_type "ask_user"
    then waits (field "question" (text (question_of config)) end)
    else if is_one_of ("switch" ∷ "branch" ∷ []) n.node_type
    then done (field "route" (value_at previous (string_or_empty (field_or_null "key" config))) end)
    else if str_eq n.node_type "condition"
    then done
        (field "route" (text (if condition_matches config previous then "true" else "false")) end)
    else if str_eq n.node_type "transform"
    then done (execute_transform config previous)
    else if str_eq n.node_type "loop"
    then done (execute_loop config previous)
    else external id n config previous

-- `executeNode`.
unfoldable pub execute_node : External → ℕ → Node → Fields → Outcome
unfolding config_map by_type
execute_node external id n previous = elim (config_map n.config) [
  | none ↦ broke
  | some config ↦ by_type external id n config previous
]
