-- ===== src/Shared/Texts.antt =====
-- Texts: equality, membership in a list of texts, the order of Go's `<` on strings, and
-- `sort.Strings`.
use Prim.Native.Char.{code}
use Prim.Native.String.{String, compare}
use text.Mathlib.Text.{is_le, ◌==◌}
use text.Mathlib.TextEquality.{eq_iff}
use text.Mathlib.TextPositions.{eq_refl}
use mathlib.Core.Path.{◌≡◌, sym}
use mathlib.Core.Logic.{◌≢◌, inl, inr}
use mathlib.Core.Bool.{Bool, true, false}
use mathlib.Core.List.{List, [], ◌∷◌}
use native.Mathlib.Omega.{arith}
use duraclaw.Shared.Lists.{In}
use duraclaw.Shared.Tests.{if◌then◌else◌, Bool-cases, ◌==◌ as ◌==ℕ◌}

abbrev pub str_eq : String → String → Bool
str_eq s t = s == t

pub str_eq_iff : (s t : String) → (str_eq s t ≡ true → s ≡ t) × (s ≡ t → str_eq s t ≡ true)
str_eq_iff s t = eq_iff s t

pub str_eq_self : (s : String) → str_eq s s ≡ true
str_eq_self s = eq_refl s

abbrev pub str_le : String → String → Bool
str_le s t = is_le (compare s t)

pub data Compared (s t : String) : Type 0 where
  same : s ≡ t → str_eq s t ≡ true → Compared s t
  differ : s ≢ t → str_eq s t ≡ false → Compared s t

pub str-Compared : (s t : String) → Compared s t
str-Compared s t = elim (Bool-cases (str_eq s t)) [
  | inl e ↦ same ((eq_iff s t).0 e) e
  | inr e ↦ differ (λ p. cc ((eq_iff s t).1 p)) e
]

-- Whether a text is in a list, as `m[key]` on a Go map used as a set.
abbrev pub contains : List String → String → Bool
contains [] k = false
contains (x ∷ xs) k = if str_eq x k then true else contains xs k

pub contains→In : (xs : List String) (k : String) → contains xs k ≡ true → In k xs
contains→In [] k h = cc
contains→In (x ∷ xs) k h = elim (str-Compared x k) [
  | same e t ↦ inl (sym e)
  | differ n f ↦ inr (contains→In xs k (ground arith))
]

pub In→contains : (xs : List String) (k : String) → In k xs → contains xs k ≡ true
In→contains [] k m = absurd m
In→contains (x ∷ xs) k (inl e) = rw ((eq_iff x k).1 (sym e))
In→contains (x ∷ xs) k (inr m) = ground (arith, In→contains xs k m)

-- `strings.HasPrefix`, `strings.Contains`, `strings.HasSuffix`.
unfoldable pub has_prefix : String → String → Bool
has_prefix s String.[] = true
has_prefix String.[] (String.◌∷◌ d p) = false
has_prefix (String.◌∷◌ c s) (String.◌∷◌ d p) =
    let rest = has_prefix s p in if code c ==ℕ code d then rest else false

unfoldable pub has_substring : String → String → Bool
unfolding has_prefix
has_substring String.[] p = has_prefix String.[] p
has_substring (String.◌∷◌ c s) p =
    let rest = has_substring s p in if has_prefix (String.◌∷◌ c s) p then true else rest

unfoldable pub has_suffix : String → String → Bool
has_suffix String.[] p = str_eq String.[] p
has_suffix (String.◌∷◌ c s) p =
    let rest = has_suffix s p in if str_eq (String.◌∷◌ c s) p then true else rest
