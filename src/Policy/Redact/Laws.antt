-- ===== src/Policy/Redact/Laws.antt =====
-- No sensitive key keeps its value, at any depth, and nothing else changes shape.
use duraclaw.Json.{
  Json, null, boolean, number, text, array, object, Items, nil, cons, Fields, end, field,
}
use duraclaw.Policy.{TextTools}
use duraclaw.Policy.Redact.{
  sensitive_key, redact_string, redacted_mark, redact_value, redact_items, redact_map,
}
use duraclaw.Shared.{◌≡◌, refl, ap, inl, inr, ◌⊎◌, true, false, List, [], ◌∷◌, String, Bool-cases}

-- Every text is one that `RedactString` gives, and every sensitive key has the mark, at any depth.
unfoldable mutual
  pub IsClean : TextTools → Json → Type 0
  IsClean tools (text s) = (t : String) × (s ≡ redact_string tools t)
  IsClean tools (array xs) = AreClean tools xs
  IsClean tools (object fs) = FieldsClean tools fs
  IsClean tools _ = Unit

  pub AreClean : TextTools → Items → Type 0
  AreClean tools nil = Unit
  AreClean tools (cons x xs) = IsClean tools x × AreClean tools xs

  pub FieldsClean : TextTools → Fields → Type 0
  FieldsClean tools end = Unit
  FieldsClean tools (field k v fs) =
      (((sensitive_key tools k ≡ true) × (v ≡ redacted_mark))
        ⊎ ((sensitive_key tools k ≡ false) × IsClean tools v))
      × FieldsClean tools fs

pub field_keys : Fields → List String
field_keys end = []
field_keys (field k v fs) = k ∷ field_keys fs

mutual
  unfolding redact_value IsClean

  redact_value-IsClean : (tools : TextTools) (v : Json) → IsClean tools (redact_value tools v)
  redact_value-IsClean tools null = tt
  redact_value-IsClean tools (boolean b) = tt
  redact_value-IsClean tools (number n t) = tt
  redact_value-IsClean tools (text s) = (s, refl)
  redact_value-IsClean tools (array xs) = redact_items-AreClean tools xs
  redact_value-IsClean tools (object fs) = redact_map-FieldsClean tools fs

  redact_items-AreClean : (tools : TextTools) (xs : Items) → AreClean tools (redact_items tools xs)
  redact_items-AreClean tools nil = tt
  redact_items-AreClean tools (cons x xs) =
      (redact_value-IsClean tools x, redact_items-AreClean tools xs)

  redact_map-FieldsClean :
      (tools : TextTools) (fs : Fields) → FieldsClean tools (redact_map tools fs)
  redact_map-FieldsClean tools end = tt
  redact_map-FieldsClean tools (field k v fs) =
      let clean = redact_value-IsClean tools v in
      let rest = redact_map-FieldsClean tools fs in
      elim (Bool-cases (sensitive_key tools k)) [
        | inl t ↦ rw t (inl (refl, refl), rest)
        | inr f ↦ rw f (inr (refl, clean), rest)
      ]

redact_map-keys :
    (tools : TextTools) (fs : Fields) → field_keys (redact_map tools fs) ≡ field_keys fs
unfolding redact_map field_keys
redact_map-keys tools end = refl
redact_map-keys tools (field k v fs) = ap (λ ks. k ∷ ks) (redact_map-keys tools fs)

-- `RedactMap` keeps the keys; in what it gives, at any depth, each sensitive key has the mark in place
-- of its value, and each text is one that `RedactString` gives.
pub redact_map_cleans :
    (tools : TextTools) (fs : Fields)
    → FieldsClean tools (redact_map tools fs) × (field_keys (redact_map tools fs) ≡ field_keys fs)
redact_map_cleans tools fs = (redact_map-FieldsClean tools fs, redact_map-keys tools fs)
