-- ===== src/Policy/Artifact/Laws.antt =====
-- What `RejectRawArtifactMetadata` refuses.
use duraclaw.Json.{Json, null, boolean, number, text, array, object, Fields, end, field}
use duraclaw.Policy.Artifact.{
  raw_keys, first_refused, reject_raw, reject_nested, HasRaw, top, under, later,
}
use duraclaw.Shared.{
  ◌≡◌, ◌≢◌, ◌↔◌, refl, sym, ◌∙◌, inl, inr, ◌⊎◌, Bool, true, false, String, Option, none, some,
  contains, contains→In, In→contains,
}

one_step :
    (k : String) (v : Json) (fs : Fields)
    → reject_raw (field k v fs)
      ≡ first_refused (contains raw_keys k) k (reject_nested v) (reject_raw fs)
unfolding reject_raw
one_step k v fs = refl

-- Something is refused as soon as one part is.
from_parts :
    (b : Bool) (k : String) (nested rest : Option String)
    → ((b ≡ true) ⊎ (nested ≢ none) ⊎ (rest ≢ none))
    → first_refused b k nested rest ≢ none
from_parts true k nested rest h e = cc
from_parts false k (some j) rest h e = cc
from_parts false k none rest (inl h) e = cc
from_parts false k none rest (inr (inl h)) e = absurd (h refl)
from_parts false k none rest (inr (inr h)) e = absurd (h e)

refused : {fs : Fields} → HasRaw fs → reject_raw fs ≢ none
unfolding reject_raw
refused (top k v fs m) = λ e.
    from_parts (contains raw_keys k) k (reject_nested v) (reject_raw fs)
      (inl (In→contains raw_keys k m)) (sym (one_step k v fs) ∙ e)
refused (under k gs fs h) = λ e.
    from_parts (contains raw_keys k) k (reject_raw gs) (reject_raw fs) (inr (inl (refused h)))
      (sym (one_step k (object gs) fs) ∙ e)
refused (later k v fs h) = λ e.
    from_parts (contains raw_keys k) k (reject_nested v) (reject_raw fs) (inr (inr (refused h)))
      (sym (one_step k v fs) ∙ e)

to_parts :
    (b : Bool) (k : String) (nested rest : Option String)
    → first_refused b k nested rest ≢ none
    → (b ≡ true) ⊎ (nested ≢ none) ⊎ (rest ≢ none)
to_parts true k nested rest h = inl refl
to_parts false k (some j) rest h = inr (inl (λ e. cc))
to_parts false k none rest h = inr (inr h)

abbrev NestedRaw : Json → Type 0
NestedRaw (object fs) = HasRaw fs
NestedRaw _ = ⊥

mutual
  unfolding reject_raw

  reason : (fs : Fields) → reject_raw fs ≢ none → HasRaw fs
  reason end h = absurd (h refl)
  reason (field k v fs) h =
      elim (to_parts (contains raw_keys k) k (reject_nested v) (reject_raw fs)
        (λ e. h (one_step k v fs ∙ e))) [
          | inl t ↦ top k v fs (contains→In raw_keys k t)
          | inr (inl n) ↦ nested_reason k fs v n
          | inr (inr r) ↦ later k v fs (reason fs r)
        ]

  nested_reason :
      (k : String) (fs : Fields) (v : Json) → reject_nested v ≢ none → HasRaw (field k v fs)
  nested_reason k fs (object gs) n = under k gs fs (reason gs n)
  nested_reason k fs null n = absurd (n refl)
  nested_reason k fs (boolean b) n = absurd (n refl)
  nested_reason k fs (number m t) n = absurd (n refl)
  nested_reason k fs (text s) n = absurd (n refl)
  nested_reason k fs (array xs) n = absurd (n refl)

-- Metadata is refused exactly when a raw key stands in it, or in a map under its keys at any depth of
-- maps; lists are not searched.
pub reject_raw_iff : (fs : Fields) → (reject_raw fs ≢ none) ↔ HasRaw fs
reject_raw_iff fs = (reason fs, refused)
