-- ===== src/Runtime/Aliases/Named.antt =====
-- The names that definitions get are names (`providerSafeDefaultToolAlias`, `providerToolNamePart`).
use Prim.Native.Char.{Char, char, code}
use Prim.Native.String.append
use Prim.Native.String.{◌++◌ as join, len}
use duraclaw.Json.{is_space}
use duraclaw.Runtime.Aliases.{AliasSet, get_text, or_name, trim, provider_name}
use duraclaw.Runtime.Aliases.Applied.{
  Naming, drop_left, drop_right, is_plain, is_underscore, keep_right, plain_part, or_tool,
  take_text, provider_tool_name_part, suffix, provider_safe_default_tool_alias,
  provider_safe_tool_name, chosen_name,
}
use duraclaw.Runtime.Aliases.Trimmed.{trim-trim, NoSpace, trim-NoSpace, join-NoSpace}
use duraclaw.Shared.{
  ℕ, zero, suc, ◌-◌, ◌≡◌, refl, sym, subst, inl, inr, arith, Bool, true, false, not, ◌&&◌, String,
  str_eq, leb, if◌then◌else◌, Bool-cases, same, differ, str-Compared,
}

-- A name of a definition: there is one, with no space at either end.
abbrev pub IsName : String → Type 0
IsName s = (trim s ≡ s) × (str_eq s "" ≡ false)

plain-NoSpace : (c : Char) → is_plain c ≡ true → is_space (code c) ≡ false
unfolding is_space
plain-NoSpace c h = ground arith

plain_part-NoSpace : (b : Bool) (s : String) → NoSpace (plain_part b s)
unfolding plain_part is_space
plain_part-NoSpace b String.[] = tt
plain_part-NoSpace b (String.◌∷◌ c s) = elim (Bool-cases (is_plain c)) [
  | inl t ↦ rw t (plain-NoSpace c t, plain_part-NoSpace false s)
  | inr f ↦ rw f (if_NoSpace b _ (plain_part-NoSpace true s))
]
  where
    if_NoSpace :
        (last : Bool) (t : String)
        → NoSpace t
        → NoSpace (if last then t else String.◌∷◌ (char b'_' tt) t)
    if_NoSpace true t h = h
    if_NoSpace false t h = (refl, h)

drop_left-NoSpace : (s : String) → NoSpace s → NoSpace (drop_left s)
unfolding drop_left
drop_left-NoSpace String.[] h = tt
drop_left-NoSpace (String.◌∷◌ c s) h = elim (Bool-cases (is_underscore c)) [
  | inl t ↦ rw t (drop_left-NoSpace s h.1)
  | inr f ↦ rw f h
]

keep_right-NoSpace :
    (c : Char) (s : String) → is_space (code c) ≡ false → NoSpace s → NoSpace (keep_right c s)
keep_right-NoSpace c String.[] h k = elim (Bool-cases (is_underscore c)) [
  | inl t ↦ rw t tt
  | inr f ↦ rw f (h, tt)
]
keep_right-NoSpace c (String.◌∷◌ d s) h k = (h, k)

drop_right-NoSpace : (s : String) → NoSpace s → NoSpace (drop_right s)
unfolding drop_right
drop_right-NoSpace String.[] h = tt
drop_right-NoSpace (String.◌∷◌ c s) h =
    keep_right-NoSpace c (drop_right s) h.0 (drop_right-NoSpace s h.1)

take_text-NoSpace : (n : ℕ) (s : String) → NoSpace s → NoSpace (take_text n s)
take_text-NoSpace zero s h = tt
take_text-NoSpace (suc n) String.[] h = tt
take_text-NoSpace (suc n) (String.◌∷◌ c s) h = (h.0, take_text-NoSpace n s h.1)

or_tool-IsName : (s : String) → NoSpace s → NoSpace (or_tool s) × (str_eq (or_tool s) "" ≡ false)
unfolding is_space
or_tool-IsName s h = elim (Bool-cases (str_eq s "")) [
  | inl t ↦ rw t ((refl, (refl, (refl, (refl, tt)))), refl)
  | inr f ↦ rw f (h, f)
]

-- A text that has a character is not empty.
not_empty : (c : Char) (s : String) → str_eq (String.◌∷◌ c s) "" ≡ false
not_empty c s = elim (str-Compared (String.◌∷◌ c s) "") [
  | same e t ↦ absurd (apart e)
  | differ ne f ↦ f
]
  where
    apart : String.◌∷◌ c s ≡ String.[] → ⊥
    apart e = cc

join_some : (s t : String) → str_eq t "" ≡ false → str_eq (join s t) "" ≡ false
join_some String.[] t h = subst (λ x. str_eq x "" ≡ false) (sym (append.nil t)) h
join_some (String.◌∷◌ c s) t h =
    subst (λ x. str_eq x "" ≡ false) (sym (append.cons c s t)) (not_empty c (join s t))

module _ (n : Naming) (hex : (s : String) → NoSpace (n.hex_hash s)) where
  part-IsName :
      (v : String)
      → NoSpace (provider_tool_name_part n v) × (str_eq (provider_tool_name_part n v) "" ≡ false)
  unfolding provider_tool_name_part
  part-IsName v =
      let plain = plain_part false (n.to_lower (trim v)) in
      let cut = drop_left (drop_right plain) in
      or_tool-IsName cut (
        drop_left-NoSpace (drop_right plain)
          (drop_right-NoSpace plain (plain_part-NoSpace false (n.to_lower (trim v)))))

  suffix-NoSpace : (v : String) → NoSpace (suffix n v)
  unfolding is_space
  suffix-NoSpace v = join-NoSpace "__" (n.hex_hash v) (refl, (refl, tt)) (hex v)

  suffix_some : (v : String) → str_eq (suffix n v) "" ≡ false
  suffix_some v =
      subst (λ x. str_eq x "" ≡ false) (sym (append.cons (char b'_' tt) "_" (n.hex_hash v)))
        (not_empty (char b'_' tt) (join "_" (n.hex_hash v)))

  named : (s : String) → NoSpace s → str_eq s "" ≡ false → IsName s
  named s h e = (trim-NoSpace s h, e)

  abbrev cut : String → String
  cut d = take_text (96 - len (suffix n d)) (provider_tool_name_part n d)

  default_alias-IsName : (d : String) → IsName (provider_safe_default_tool_alias n d)
  unfolding provider_safe_default_tool_alias
  default_alias-IsName d = elim (Bool-cases (leb (len (provider_tool_name_part n d)) 96)) [
    | inl t ↦ rw t (named _ (part-IsName d).0 (part-IsName d).1)
    | inr f ↦ rw f (
        named _
          (join-NoSpace (drop_right (cut d)) (suffix n d)
            (drop_right-NoSpace (cut d) (
              take_text-NoSpace (96 - len (suffix n d)) (provider_tool_name_part n d)
                (part-IsName d).0))
            (suffix-NoSpace d))
          (join_some (drop_right (cut d)) (suffix n d) (suffix_some d)))
  ]

  or_name-IsName : (d s : String) → IsName d → IsName (or_name d (trim s))
  or_name-IsName d s h = elim (Bool-cases (str_eq (trim s) "")) [
    | inl t ↦ rw t h
    | inr f ↦ rw f (trim-trim s, f)
  ]

  pub chosen-IsName : (a : AliasSet) (d : String) → IsName d → IsName (chosen_name n a d)
  unfolding chosen_name provider_name
  chosen-IsName a d h =
      either (str_eq (provider_name a d) d && not (provider_safe_tool_name (provider_name a d))) _ _
        (default_alias-IsName d) (or_name-IsName d (get_text d a.original_to_alias) h)
    where
      either : (b : Bool) (s t : String) → IsName s → IsName t → IsName (if b then s else t)
      either true s t k l = k
      either false s t k l = l
