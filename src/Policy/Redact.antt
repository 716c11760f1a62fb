-- ===== src/Policy/Redact.antt =====
-- Redaction (internal/policy/policy.go): `RedactMap`, `RedactValue`, `RedactString`, `sensitiveKey`,
-- `Context.Redacted`.
pub mod Laws
use duraclaw.Json.{
  Json, null, boolean, number, text, array, object, Items, nil, cons, Fields, end, field,
}
use duraclaw.Policy.{TextTools, Context}
use duraclaw.Shared.{Bool, true, false, List, [], ◌∷◌, String, has_substring, if◌then◌else◌}

abbrev needles : List String
needles =
    "password" ∷ "secret" ∷ "token" ∷ "api_key" ∷ "apikey" ∷ "authorization" ∷ "cookie"
    ∷ "credential" ∷ []

abbrev holds_one : String → List String → Bool
holds_one key [] = false
holds_one key (n ∷ ns) = if has_substring key n then true else holds_one key ns

-- `sensitiveKey`.
unfoldable pub sensitive_key : TextTools → String → Bool
unfolding has_substring
sensitive_key tools key = holds_one (tools.to_lower key) needles

-- `RedactString`.
unfoldable pub redact_string : TextTools → String → String
redact_string tools value =
    let secrets =
      tools.replace_all "(?i)(api[_-]?key|token|secret|password)\\s*[:=]\\s*([^\\s,;]+)"
        "$1=[REDACTED]" value in
    let emails =
      tools.replace_all "\\b[A-Za-z0-9._%+\\-]+@[A-Za-z0-9.\\-]+\\.[A-Za-z]{2,}\\b"
        "[REDACTED_EMAIL]" secrets in
    tools.replace_all "\\b(?:\\d[ -]*?){13,19}\\b" "[REDACTED_NUMBER]" emails

abbrev pub redacted_mark : Json
redacted_mark = text "[REDACTED]"

-- `RedactValue`, and `RedactMap` on the fields of a map.
unfoldable mutual
  unfolding sensitive_key redact_string

  pub redact_value : TextTools → Json → Json
  redact_value tools null = null
  redact_value tools (boolean b) = boolean b
  redact_value tools (number n t) = number n t
  redact_value tools (text s) = text (redact_string tools s)
  redact_value tools (array xs) = array (redact_items tools xs)
  redact_value tools (object fs) = object (redact_map tools fs)

  pub redact_items : TextTools → Items → Items
  redact_items tools nil = nil
  redact_items tools (cons x xs) = cons (redact_value tools x) (redact_items tools xs)

  pub redact_map : TextTools → Fields → Fields
  redact_map tools end = end
  redact_map tools (field k v fs) =
      let value = redact_value tools v in
      field k (if sensitive_key tools k then redacted_mark else value) (redact_map tools fs)

-- `Context.Redacted`.
unfoldable pub redacted : TextTools → Context → Context
unfolding redact_string redact_map
redacted tools pc = record pc {
  content = redact_string tools pc.content;
  additional_fields = redact_map tools pc.additional_fields;
}
