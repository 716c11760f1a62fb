-- ===== src/Tools.antt =====
-- The registry of tools and the check of their arguments (internal/tools/types.go): `Register`,
-- `List`, `Filtered`, `Execute`, `Retryable`, `ValidateArgs`, `checkType`. The map of tools is a list
-- with one entry to a name. The arguments are decoded JSON, so a number is a `float64`; whether it is
-- whole is read off the text that prints it. The map of arguments is checked in the order of its
-- entries, where Go's order is arbitrary: another order can find another error first.
pub mod Accepted
mod Tests
use Prim.Native.Char.{code}
use duraclaw.Json.{
  Json, null, boolean, number, text, array, object, Items, nil, cons, Fields, end, field, get_field,
  field_or_null, string_or_empty,
}
use duraclaw.Shared.{
  ℕ, ◌+◌, ◌-◌, ◌*◌, Bool, true, false, not, ◌&&◌, List, [], ◌∷◌, String, Option, none, some, str_eq,
  str_le, ltb, leb, ◌==◌, if◌then◌else◌, contains, sort_by,
}

-- The errors of `ValidateArgs` and `checkType`, each with the property that it names.
pub data ArgError : Type 0 where
  missing : String → ArgError
  unexpected : String → ArgError
  mistyped : String → String → ArgError

pub data Check : Type 0 where
  valid : Check
  invalid : ArgError → Check

abbrev pub then_check : Check → Check → Check
then_check valid next = next
then_check (invalid e) next = invalid e

-- `stringSlice` of a decoded value.
unfoldable pub string_slice : Items → List String
string_slice nil = []
string_slice (cons (text s) xs) = s ∷ string_slice xs
string_slice (cons _ xs) = string_slice xs

unfoldable pub required_names : Json → List String
unfolding string_slice
required_names (array xs) = string_slice xs
required_names _ = []

-- The digits that stand behind the point, and the exponent, of a number that `%v` prints.
unfoldable pub exponent_of : ℕ → String → ℕ
exponent_of n String.[] = n
exponent_of n (String.◌∷◌ c s) = exponent_of (n * 10 + (code c - b'0')) s

unfoldable pub whole_from : ℕ → String → Bool
unfolding exponent_of
whole_from places String.[] = places == 0
whole_from places (String.◌∷◌ c s) =
    let next = whole_from (places + 1) s in if code c == b'e' then signed s else next
  where
    signed : String → Bool
    signed String.[] = false
    signed (String.◌∷◌ c s) = if code c == b'-' then false else leb places (exponent_of 0 s)

-- `n == math.Trunc(n)`, for the shortest text of a finite number.
unfoldable pub is_whole : String → Bool
unfolding whole_from exponent_of
is_whole String.[] = true
is_whole (String.◌∷◌ c s) =
    let next = is_whole s in
    if code c == b'.'
    then whole_from 0 s
    else if code c == b'e'
    then whole_from 0 (String.◌∷◌ c s)
    else next

is_text : Json → Bool
is_text (text s) = true
is_text _ = false

is_integer : Json → Bool
unfolding is_whole
is_integer (number n t) = is_whole t
is_integer _ = false

is_number : Json → Bool
is_number (number n t) = true
is_number _ = false

is_boolean : Json → Bool
is_boolean (boolean b) = true
is_boolean _ = false

is_array : Json → Bool
is_array (array xs) = true
is_array _ = false

is_object : Json → Bool
is_object (object fs) = true
is_object _ = false

-- The switch of `checkType`: every value has a type that is not known.
unfoldable pub has_type : String → Json → Bool
unfolding is_text is_integer is_number is_boolean is_array is_object
has_type typ v =
    if str_eq typ "string"
    then is_text v
    else if str_eq typ "integer"
    then is_integer v
    else if str_eq typ "number"
    then is_number v
    else if str_eq typ "boolean"
    then is_boolean v
    else if str_eq typ "array"
    then is_array v
    else if str_eq typ "object"
    then is_object v
    else true

-- `typ, _ := schema["type"].(string)`, and so for the other keys of a schema.
abbrev pub type_of : Fields → String
type_of schema = string_or_empty (field_or_null "type" schema)

abbrev pub fields_or_none : Json → Fields
fields_or_none (object fs) = fs
fields_or_none _ = end

abbrev pub properties : Fields → Fields
properties schema = fields_or_none (field_or_null "properties" schema)

abbrev true_or_false : Json → Bool
true_or_false (boolean b) = b
true_or_false _ = false

abbrev pub additional : Fields → Bool
additional schema = true_or_false (field_or_null "additionalProperties" schema)

abbrev pub is_end : Fields → Bool
is_end end = true
is_end (field k v fs) = false

abbrev pub has_field : String → Fields → Bool
has_field k end = false
has_field k (field j v fs) = if str_eq j k then true else has_field k fs

unfoldable pub check_required : List String → Fields → Check
check_required [] args = valid
check_required (k ∷ ks) args =
    if has_field k args then check_required ks args else invalid (missing k)

-- `ValidateArgs` around the check of the entries.
unfoldable pub within : Fields → Fields → Check → Check
unfolding check_required string_slice
within schema args entries =
    if is_end schema
    then valid
    else then_check (check_required (required_names (field_or_null "required" schema)) args)
        (if is_end (properties schema) then valid else entries)

-- One entry: a property that is not known is an error unless the schema admits it.
abbrev pub check_entry : Option Json → Bool → String → (Fields → Check) → Check
check_entry none more k check = if more then valid else invalid (unexpected k)
check_entry (some raw) more k check = check (fields_or_none raw)

abbrev pub plain_check : String → String → Json → Check
plain_check typ k v = if has_type typ v then valid else invalid (mistyped k typ)

unfoldable mutual
  unfolding has_type within

  -- `checkType`, of a schema, a key and a value.
  pub check_type : Fields → String → Json → Check
  check_type schema k (object fs) =
      let inner = within schema fs (check_entries (properties schema) (additional schema) fs) in
      if str_eq (type_of schema) "object" then inner else plain_check (type_of schema) k (object fs)
  check_type schema k null = plain_check (type_of schema) k null
  check_type schema k (boolean b) = plain_check (type_of schema) k (boolean b)
  check_type schema k (number n t) = plain_check (type_of schema) k (number n t)
  check_type schema k (text s) = plain_check (type_of schema) k (text s)
  check_type schema k (array xs) = plain_check (type_of schema) k (array xs)

  pub check_entries : Fields → Bool → Fields → Check
  check_entries props more end = valid
  check_entries props more (field k v fs) =
      then_check (check_entry (get_field k props) more k (λ prop. check_type prop k v))
        (check_entries props more fs)

-- `ValidateArgs`.
unfoldable pub validate_args : Fields → Fields → Check
unfolding within check_entries
validate_args schema args =
    within schema args (check_entries (properties schema) (additional schema) args)

-- What a tool says to the model: its own text, or that of an error of the registry.
pub data Said : Type 0 where
  plain : String → Said
  not_found : String → Said
  bad_arguments : String → ArgError → Said
  crashed_tool : String → Said
  no_result : String → Said

-- `tools.Result`; `cause` says whether `Err` is set.
pub record ToolResult : Type 0 where
  pub for_llm : Said
  pub artifacts : Json
  pub is_error : Bool
  pub cause : Bool

-- `ErrorResult`.
unfoldable pub error_result : Said → ToolResult
error_result msg = record { for_llm = msg; artifacts = null; is_error = true; cause = true }

-- What the code of a tool does: it panics, returns nil, or returns a result.
pub data Ran : Type 0 where
  panicked : Ran
  nothing : Ran
  gave : ToolResult → Ran

-- A tool; `retries` is what its `Retryable` returns, where it has that method.
pub record Tool : Type 0 where
  pub name : String
  pub parameters : Fields
  pub retries : Option Bool

abbrev pub Registry : Type 0
Registry = List Tool

abbrev pub find_tool : String → Registry → Option Tool
find_tool k [] = none
find_tool k (t ∷ ts) = if str_eq t.name k then some t else find_tool k ts

-- `Register`: the later tool of a name stands for the earlier.
unfoldable pub register : Tool → Registry → Registry
register tool [] = tool ∷ []
register tool (t ∷ ts) =
    let rest = t ∷ register tool ts in if str_eq t.name tool.name then tool ∷ ts else rest

abbrev pub names : Registry → List String
names [] = []
names (t ∷ ts) = t.name ∷ names ts

-- `List`.
unfoldable pub list_names : Registry → List String
unfolding sort_by
list_names ts = sort_by str_le (names ts)

abbrev pub admits : List String → List String → String → Bool
admits [] disabled k = not (contains disabled k)
admits (a ∷ more) disabled k = contains (a ∷ more) k && not (contains disabled k)

-- `Filtered`: no allowed name allows every name.
unfoldable pub filtered : List String → List String → Registry → Registry
filtered allowed disabled [] = []
filtered allowed disabled (t ∷ ts) =
    if admits allowed disabled t.name
    then t ∷ filtered allowed disabled ts
    else filtered allowed disabled ts

abbrev retries_of : Option Tool → Bool
retries_of none = true
retries_of (some t) = elim t.retries [ none ↦ true | some b ↦ b ]

-- `Retryable`.
unfoldable pub retryable : Registry → String → Bool
retryable ts k = retries_of (find_tool k ts)

abbrev pub result_of : String → Ran → ToolResult
result_of k panicked = error_result (crashed_tool k)
result_of k nothing = error_result (no_result k)
result_of k (gave r) = r

abbrev pub run_checked : Check → String → Ran → ToolResult
run_checked (invalid e) k ran = error_result (bad_arguments k e)
run_checked valid k ran = result_of k ran

abbrev pub run_found : Option Tool → String → Fields → Ran → ToolResult
run_found none k args ran = error_result (not_found k)
run_found (some t) k args ran = run_checked (validate_args t.parameters args) k ran

-- `Execute`, with what the code of the tool does where it is called.
unfoldable pub execute : Registry → String → Fields → Ran → ToolResult
unfolding validate_args error_result
execute ts k args ran = run_found (find_tool k ts) k args ran
