-- ===== src/Tools/Tests.antt =====
-- The registry on one tool.
use duraclaw.Json.{null, text, array, object, cons, nil, Fields, end, field}
use duraclaw.Shared.{◌≡◌, refl, ◌⊎◌, true, false}
use duraclaw.Tools.{
  valid, invalid, unexpected, check_required, string_slice, required_names, within, has_type,
  check_entries, validate_args, is_end, is_whole, whole_from, exponent_of,
}
use duraclaw.Tools.Accepted.{Accepts, validate_args-Accepts}

-- A schema with one required property, a text.
abbrev schema : Fields
schema =
    field "required" (array (cons (text "to") nil))
      (field "properties" (object (field "to" (object (field "type" (text "string") end)) end)) end)

abbrev args : Fields
args = field "to" (text "me") end

args_valid : validate_args schema args ≡ valid
unfolding validate_args within check_required required_names string_slice check_entries has_type
args_valid = refl

more_refused :
    validate_args schema (field "to" (text "me") (field "cc" null end)) ≡ invalid (unexpected "cc")
unfolding validate_args within check_required required_names string_slice check_entries has_type
more_refused = refl

whole : (is_whole "1.5e+06" ≡ true) × (is_whole "2.5" ≡ false) × (is_whole "1e-07" ≡ false)
unfolding is_whole whole_from exponent_of
whole = (refl, refl, refl)

validate_args-Accepts_example :
    (validate_args schema args ≡ valid → (is_end schema ≡ true) ⊎ Accepts schema args)
    × ((is_end schema ≡ true) ⊎ Accepts schema args → validate_args schema args ≡ valid)
validate_args-Accepts_example = validate_args-Accepts schema args
