-- ===== src/Policy/Artifact.antt =====
-- `AllowArtifact` and `RejectRawArtifactMetadata` (internal/policy/policy.go). Sizes are those of
-- files, never negative; a limit of 0 is none.
pub mod Laws
use duraclaw.Json.{Json, null, boolean, number, text, array, object, Fields, end, field}
use duraclaw.Shared.{
  ℕ, ◌≤◌, ◌≡◌, ◌↔◌, refl, sym, inl, inr, ◌⊎◌, Bool, true, false, List, [], ◌∷◌, String, Option,
  none, some, ltb, str_eq, str_eq_iff, contains, contains→In, In, In→contains, Bool-cases, arith,
  if◌then◌else◌,
}

pub record ArtifactRule : Type 0 where
  pub max_size_bytes : ℕ
  pub media_types : List String

pub data Refusal : Type 0 where
  too_large wrong_media_type : Refusal

abbrev is_nil : List String → Bool
is_nil [] = true
is_nil (x ∷ xs) = false

-- none where the artifact is allowed.
unfoldable pub allow_artifact : ℕ → String → ArtifactRule → Option Refusal
allow_artifact size media_type rule =
    if (if ltb 0 rule.max_size_bytes then ltb rule.max_size_bytes size else false)
    then some too_large
    else if is_nil rule.media_types
    then none
    else if contains rule.media_types media_type
    then none
    else some wrong_media_type

abbrev pub raw_keys : List String
raw_keys = "raw" ∷ "raw_payload" ∷ "binary" ∷ "bytes" ∷ "base64" ∷ "data_uri" ∷ []

-- What is refused of a field: its key, or something in its value, or else something further on.
abbrev pub first_refused : Bool → String → Option String → Option String → Option String
first_refused true k nested rest = some k
first_refused false k (some j) rest = some j
first_refused false k none rest = rest

-- `RejectRawArtifactMetadata`: the field that is refused, none where all are accepted.
unfoldable mutual
  pub reject_raw : Fields → Option String
  reject_raw end = none
  reject_raw (field k v fs) =
      first_refused (contains raw_keys k) k (reject_nested v) (reject_raw fs)

  pub reject_nested : Json → Option String
  reject_nested (object fs) = reject_raw fs
  reject_nested _ = none

-- A field with a raw key, in the map or in a map under its fields at any depth.
pub data HasRaw : Fields → Type 0 where
  top : (k : String) (v : Json) (fs : Fields) → In k raw_keys → HasRaw (field k v fs)
  under : (k : String) (gs fs : Fields) → HasRaw gs → HasRaw (field k (object gs) fs)
  later : (k : String) (v : Json) (fs : Fields) → HasRaw fs → HasRaw (field k v fs)
