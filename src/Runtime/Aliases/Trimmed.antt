-- ===== src/Runtime/Aliases/Trimmed.antt =====
-- Texts that `strings.TrimSpace` leaves as they are, and those that have no space.
use Prim.Native.Char.{Char, code}
use Prim.Native.String.append
use Prim.Native.String.{◌++◌ as join}
use duraclaw.Json.{is_space}
use duraclaw.Runtime.Aliases.{trim_left, cons_trimmed, trim_right, trim}
use duraclaw.Shared.{◌≡◌, refl, ap, sym, subst, ◌∙◌, inl, inr, false, String, Bool-cases}

trim_left-trim_left : (s : String) → trim_left (trim_left s) ≡ trim_left s
unfolding trim_left
trim_left-trim_left String.[] = refl
trim_left-trim_left (String.◌∷◌ c s) = elim (Bool-cases (is_space (code c))) [
  | inl t ↦ rw t (trim_left-trim_left s)
  | inr f ↦ rw (f, f) refl
]

trim_right-cons_trimmed :
    (c : Char) (s : String) → trim_right s ≡ s → trim_right (cons_trimmed c s) ≡ cons_trimmed c s
unfolding trim_right cons_trimmed
trim_right-cons_trimmed c String.[] h = elim (Bool-cases (is_space (code c))) [
  | inl t ↦ rw t refl
  | inr f ↦ rw (f, f) refl
]
trim_right-cons_trimmed c (String.◌∷◌ d s) h = ap (cons_trimmed c) h

trim_right-trim_right : (s : String) → trim_right (trim_right s) ≡ trim_right s
unfolding trim_right
trim_right-trim_right String.[] = refl
trim_right-trim_right (String.◌∷◌ c s) =
    trim_right-cons_trimmed c (trim_right s) (trim_right-trim_right s)

-- What is left of a text that has no spaces at its end has none there.
tail_trimmed : (c : Char) (t s : String) → cons_trimmed c t ≡ String.◌∷◌ c s → t ≡ s
unfolding cons_trimmed
tail_trimmed c String.[] s h = elim (Bool-cases (is_space (code c))) [
  | inl t ↦ absurd (ends (rw t at h))
  | inr f ↦ tails (rw f at h)
]
  where
    ends : String.[] ≡ String.◌∷◌ c s → ⊥
    ends e = cc

    tails : String.◌∷◌ c String.[] ≡ String.◌∷◌ c s → String.[] ≡ s
    tails e = cc
tail_trimmed c (String.◌∷◌ d t) s h = cc

trim_left_trimmed : (s : String) → trim_right s ≡ s → trim_right (trim_left s) ≡ trim_left s
unfolding trim_left trim_right
trim_left_trimmed String.[] h = refl
trim_left_trimmed (String.◌∷◌ c s) h = elim (Bool-cases (is_space (code c))) [
  | inl t ↦ rw t (trim_left_trimmed s (tail_trimmed c (trim_right s) s h))
  | inr f ↦ rw f h
]

pub trim-trim : (s : String) → trim (trim s) ≡ trim s
unfolding trim
trim-trim s =
    ap trim_left (trim_left_trimmed (trim_right s) (trim_right-trim_right s))
    ∙ trim_left-trim_left (trim_right s)

-- No character of the text is a space.
abbrev pub NoSpace : String → Type 0
NoSpace String.[] = Unit
NoSpace (String.◌∷◌ c s) = (is_space (code c) ≡ false) × NoSpace s

trim_right-NoSpace : (s : String) → NoSpace s → trim_right s ≡ s
unfolding trim_right cons_trimmed
trim_right-NoSpace String.[] h = refl
trim_right-NoSpace (String.◌∷◌ c s) h = rw (trim_right-NoSpace s h.1) (kept s)
  where
    kept : (t : String) → cons_trimmed c t ≡ String.◌∷◌ c t
    kept String.[] = rw (h.0) refl
    kept (String.◌∷◌ d t) = refl

pub trim-NoSpace : (s : String) → NoSpace s → trim s ≡ s
unfolding trim trim_left
trim-NoSpace s h = rw (trim_right-NoSpace s h) (left s h)
  where
    left : (t : String) → NoSpace t → trim_left t ≡ t
    left String.[] k = refl
    left (String.◌∷◌ c t) k = rw (k.0) refl

pub join-NoSpace : (s t : String) → NoSpace s → NoSpace t → NoSpace (join s t)
join-NoSpace String.[] t h k = subst NoSpace (sym (append.nil t)) k
join-NoSpace (String.◌∷◌ c s) t h k =
    subst NoSpace (sym (append.cons c s t)) (h.0, join-NoSpace s t h.1 k)
