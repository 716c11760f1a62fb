-- ===== src/Tools/Accepted.antt =====
-- Which arguments `ValidateArgs` accepts.
use duraclaw.Json.{
  Json, null, boolean, number, text, array, object, Fields, end, field, get_field, field_or_null,
}
use duraclaw.Shared.{
  ◌≡◌, refl, sym, subst, ap, ◌∙◌, inl, inr, ◌⊎◌, arith, Bool, true, false, List, [], ◌∷◌, String,
  Option, none, some, str_eq, if◌then◌else◌, In, Bool-cases, str-Compared, same, differ, str_eq_iff,
}
use duraclaw.Tools.{
  ArgError, unexpected, Check, valid, invalid, then_check, has_type, required_names, type_of,
  fields_or_none, properties, additional, is_end, has_field, check_required, within, check_entry,
  check_type, check_entries, validate_args, plain_check,
}

-- An entry of the arguments.
abbrev pub HasEntry : String → Json → Fields → Type 0
HasEntry k v end = ⊥
HasEntry k v (field j w fs) = ((k ≡ j) × (v ≡ w)) ⊎ HasEntry k v fs

-- A value is good for a schema: an object's entries are checked where the type is that of objects, and
-- elsewhere the value has the type.
abbrev pub GoodValue : Fields → String → Json → Type 0
GoodValue schema k (object fs) =
    ((type_of schema ≡ "object") × (validate_args schema fs ≡ valid))
    ⊎ ((str_eq (type_of schema) "object" ≡ false) × (has_type (type_of schema) (object fs) ≡ true))
GoodValue schema k v = has_type (type_of schema) v ≡ true

-- An entry is good: it is a property whose schema its value fits, or one that is not known where more
-- properties are admitted.
abbrev pub GoodEntry : Fields → Bool → String → Json → Type 0
GoodEntry props more k v =
    ((raw : Json) × (get_field k props ≡ some raw) × GoodValue (fields_or_none raw) k v)
    ⊎ ((get_field k props ≡ none) × (more ≡ true))

-- The arguments have every required property, and where the schema has properties every entry is good.
abbrev pub Accepts : Fields → Fields → Type 0
Accepts schema args =
    ((k : String)
      → In k (required_names (field_or_null "required" schema))
      → has_field k args ≡ true)
    × (is_end (properties schema) ≡ false
        → (k : String) (v : Json) → HasEntry k v args
        → GoodEntry (properties schema) (additional schema) k v)

then_valid : (a b : Check) → (then_check a b ≡ valid) → (a ≡ valid) × (b ≡ valid)
then_valid valid b h = (refl, h)
then_valid (invalid e) b h = absurd (cc)

valid_then : (a b : Check) → a ≡ valid → b ≡ valid → then_check a b ≡ valid
valid_then valid b p q = q
valid_then (invalid e) b p q = absurd (cc)

required_valid :
    (ks : List String) (args : Fields)
    → check_required ks args ≡ valid
    → (k : String) → In k ks
    → has_field k args ≡ true
unfolding check_required
required_valid [] args h k m = absurd m
required_valid (j ∷ ks) args h k m = elim (Bool-cases (has_field j args)) [
  | inl t ↦ elim m [
    | inl e ↦ ap (λ x. has_field x args) e ∙ t
    | inr n ↦ required_valid ks args (rw t at h) k n
  ]
  | inr f ↦ absurd (refused (rw f at h))
]
  where
    refused : {e : ArgError} → invalid e ≡ valid → ⊥
    refused q = cc

valid_required :
    (ks : List String) (args : Fields)
    → ((k : String) → In k ks → has_field k args ≡ true)
    → check_required ks args ≡ valid
unfolding check_required
valid_required [] args h = refl
valid_required (j ∷ ks) args h = rw (h j (inl refl)) (valid_required ks args (λ k m. h k (inr m)))

plain_valid : (typ k : String) (v : Json) → plain_check typ k v ≡ valid → has_type typ v ≡ true
plain_valid typ k v h = ground arith

valid_plain : (typ k : String) (v : Json) → has_type typ v ≡ true → plain_check typ k v ≡ valid
valid_plain typ k v h = rw h

if_false : (b : Bool) (x y : Check) → b ≡ false → (if b then x else y) ≡ y
if_false b x y e = rw e refl

if_true : (b : Bool) (x y : Check) → b ≡ true → (if b then x else y) ≡ x
if_true b x y e = rw e refl

object_check :
    (schema : Fields) (k : String) (fs : Fields)
    → check_type schema k (object fs) ≡ (
        if str_eq (type_of schema) "object"
        then validate_args schema fs
        else plain_check (type_of schema) k (object fs))
unfolding check_type validate_args
object_check schema k fs = refl

object_good :
    (schema : Fields) (k : String) (fs : Fields)
    → check_type schema k (object fs) ≡ valid
    → GoodValue schema k (object fs)
object_good schema k fs h = elim (str-Compared (type_of schema) "object") [
  | same e t ↦ inl (
    e,
    sym (if_true (str_eq (type_of schema) "object") _ _ t) ∙ sym (object_check schema k fs) ∙ h,
  )
  | differ n f ↦ inr (
    f,
    plain_valid (type_of schema) k (object fs) (
        sym (if_false (str_eq (type_of schema) "object") _ _ f)
        ∙ sym (object_check schema k fs)
        ∙ h),
  )
]

good_object :
    (schema : Fields) (k : String) (fs : Fields)
    → GoodValue schema k (object fs)
    → check_type schema k (object fs) ≡ valid
good_object schema k fs (inl h) =
    object_check schema k fs
    ∙ if_true (str_eq (type_of schema) "object") _ _ ((str_eq_iff (type_of schema) "object").1 h.0)
    ∙ h.1
good_object schema k fs (inr h) =
    object_check schema k fs
    ∙ if_false (str_eq (type_of schema) "object") _ _ h.0
    ∙ valid_plain (type_of schema) k (object fs) h.1

-- What `checkType` accepts.
check_type-GoodValue :
    (schema : Fields) (k : String) (v : Json) → check_type schema k v ≡ valid → GoodValue schema k v
unfolding check_type
check_type-GoodValue schema k (object fs) h = object_good schema k fs h
check_type-GoodValue schema k null h = plain_valid (type_of schema) k null h
check_type-GoodValue schema k (boolean b) h = plain_valid (type_of schema) k (boolean b) h
check_type-GoodValue schema k (number n t) h = plain_valid (type_of schema) k (number n t) h
check_type-GoodValue schema k (text s) h = plain_valid (type_of schema) k (text s) h
check_type-GoodValue schema k (array xs) h = plain_valid (type_of schema) k (array xs) h

GoodValue-check_type :
    (schema : Fields) (k : String) (v : Json) → GoodValue schema k v → check_type schema k v ≡ valid
unfolding check_type
GoodValue-check_type schema k (object fs) h = good_object schema k fs h
GoodValue-check_type schema k null h = valid_plain (type_of schema) k null h
GoodValue-check_type schema k (boolean b) h = valid_plain (type_of schema) k (boolean b) h
GoodValue-check_type schema k (number n t) h = valid_plain (type_of schema) k (number n t) h
GoodValue-check_type schema k (text s) h = valid_plain (type_of schema) k (text s) h
GoodValue-check_type schema k (array xs) h = valid_plain (type_of schema) k (array xs) h

module _ (props : Fields) (more : Bool) where
  entry-GoodEntry :
      (k : String) (v : Json) (r : Option Json)
      → get_field k props ≡ r
      → check_entry r more k (λ prop. check_type prop k v) ≡ valid
      → GoodEntry props more k v
  entry-GoodEntry k v none e h = inr (e, admitted more h)
    where
      admitted : (b : Bool) → (if b then valid else invalid (unexpected k)) ≡ valid → b ≡ true
      admitted true q = refl
      admitted false q = absurd (cc)
  entry-GoodEntry k v (some raw) e h = inl (raw, e, check_type-GoodValue (fields_or_none raw) k v h)

  GoodEntry-entry :
      (k : String) (v : Json)
      → GoodEntry props more k v
      → check_entry (get_field k props) more k (λ prop. check_type prop k v) ≡ valid
  GoodEntry-entry k v (inl h) = rw (h.1) (GoodValue-check_type (fields_or_none h.0) k v h.2)
  GoodEntry-entry k v (inr h) = rw (h.0, h.1) refl

  entries-Good :
      (args : Fields)
      → check_entries props more args ≡ valid
      → (k : String) (v : Json) → HasEntry k v args
      → GoodEntry props more k v
  unfolding check_entries
  entries-Good end h k v m = absurd m
  entries-Good (field j w fs) h k v m =
      let both =
        then_valid (check_entry (get_field j props) more j (λ prop. check_type prop j w))
          (check_entries props more fs) h in
      elim m [
        | inl e ↦
            subst (λ x. GoodEntry props more x v) (sym e.0)
              (subst (λ x. GoodEntry props more j x) (sym e.1)
                (entry-GoodEntry j w (get_field j props) refl both.0))
        | inr n ↦ entries-Good fs both.1 k v n
      ]

  Good-entries :
      (args : Fields)
      → ((k : String) (v : Json) → HasEntry k v args → GoodEntry props more k v)
      → check_entries props more args ≡ valid
  unfolding check_entries
  Good-entries end h = refl
  Good-entries (field j w fs) h =
      valid_then (check_entry (get_field j props) more j (λ prop. check_type prop j w)) _
        (GoodEntry-entry j w (h j w (inl (refl, refl)))) (Good-entries fs (λ k v m. h k v (inr m)))

-- `ValidateArgs` accepts the arguments exactly when the schema is empty, or they have every required
-- property and, where it has properties, each entry is good: its value fits the schema of the property
-- of its name, or the name is not known and more properties are admitted.
pub validate_args-Accepts :
    (schema args : Fields)
    → (validate_args schema args ≡ valid → (is_end schema ≡ true) ⊎ Accepts schema args)
      × ((is_end schema ≡ true) ⊎ Accepts schema args → validate_args schema args ≡ valid)
unfolding validate_args within
validate_args-Accepts schema args = (λ h. sound (is_end schema) refl h, complete)
  where
    required : Check
    required = check_required (required_names (field_or_null "required" schema)) args

    entries : Check
    entries = check_entries (properties schema) (additional schema) args

    inside : Check
    inside = if is_end (properties schema) then valid else entries

    sound :
        (b : Bool)
        → is_end schema ≡ b
        → (if b then valid else then_check required inside) ≡ valid
        → (is_end schema ≡ true) ⊎ Accepts schema args
    sound true e h = inl e
    sound false e h =
        let both = then_valid required inside h in
        inr (
          required_valid (required_names (field_or_null "required" schema)) args both.0,
          λ f.
              entries-Good (properties schema) (additional schema) args
                (sym (if_false (is_end (properties schema)) _ _ f) ∙ both.1),
        )

    good_inside : Accepts schema args → inside ≡ valid
    good_inside a = elim (Bool-cases (is_end (properties schema))) [
      | inl t ↦ if_true (is_end (properties schema)) _ _ t
      | inr f ↦
          if_false (is_end (properties schema)) _ _ f
          ∙ Good-entries (properties schema) (additional schema) args (a.1 f)
    ]

    complete : (is_end schema ≡ true) ⊎ Accepts schema args → validate_args schema args ≡ valid
    complete (inl t) = if_true (is_end schema) _ _ t
    complete (inr a) = elim (Bool-cases (is_end schema)) [
      | inl t ↦ if_true (is_end schema) _ _ t
      | inr f ↦
          if_false (is_end schema) _ _ f
          ∙ valid_then required inside
              (valid_required (required_names (field_or_null "required" schema)) args a.0)
              (good_inside a)
    ]
