-- ===== src/Runtime/Aliases/Sound.antt =====
-- The maps of names (`appliedToolAliasesForDefinitions`) while they are built.
use duraclaw.Runtime.Aliases.{
  get_text, or_name, trim_left, trim_right, trim, provider_name, original_name,
}
use duraclaw.Runtime.Aliases.Applied.{Applied, find_text, conflicts, note_alias}
use duraclaw.Runtime.Aliases.Named.{IsName}
use duraclaw.Shared.{
  ◌≡◌, ◌≢◌, refl, sym, ap, subst, ◌∙◌, inl, inr, ◌⊎◌, true, false, ◌∷◌, String, Option, none, some,
  str_eq, if◌then◌else◌, same, differ, str-Compared,
}

-- What the maps hold for a name and for a definition: nothing, where the two are the same.
abbrev origin : String → Option String → String
origin p none = ""
origin p (some d) = if str_eq p d then "" else d

no_conflict : (d : String) (x : Option String) → conflicts d x ≡ false → (x ≡ none) ⊎ (x ≡ some d)
no_conflict d none h = inl refl
no_conflict d (some e) h = elim (str-Compared e d) [
  | same q t ↦ inr (ap some q)
  | differ ne f ↦ absurd (clash (rw f at h))
]
  where
    clash : true ≡ false → ⊥
    clash e = cc

module _ (pn : String → String) where
  abbrev aliased : String → String
  aliased d = if str_eq (pn d) d then "" else pn d

  abbrev pub next : Applied → String → Applied
  next a d = record { seen = (pn d, d) ∷ a.seen; aliases = note_alias (pn d) d a.aliases }

  pub record Sound (a : Applied) : Type 0 where
    pub back : (p : String) → get_text p a.aliases.alias_to_original ≡ origin p (find_text p a.seen)
    pub forth_any :
        (d : String)
        → (get_text d a.aliases.original_to_alias ≡ "")
          ⊎ (get_text d a.aliases.original_to_alias ≡ aliased d)
    pub forth :
        (d : String)
        → find_text (pn d) a.seen ≡ some d
        → get_text d a.aliases.original_to_alias ≡ aliased d

  -- A definition that has its name keeps it.
  pub still_found :
      (a : Applied) (d k : String)
      → conflicts d (find_text (pn d) a.seen) ≡ false
      → find_text (pn k) a.seen ≡ some k
      → find_text (pn k) (next a d).seen ≡ some k
  still_found a d k h e = elim (str-Compared (pn d) (pn k)) [
    | same q t ↦ rw t (elim (no_conflict d (find_text (pn d) a.seen) h) [ inl n ↦ cc | inr s ↦ cc ])
    | differ ne f ↦ rw f e
  ]

  -- A definition that is found after one more was found before, or is that one.
  found_before :
      (a : Applied) (d k : String)
      → d ≢ k
      → find_text (pn k) (next a d).seen ≡ some k
      → find_text (pn k) a.seen ≡ some k
  found_before a d k ne e = elim (str-Compared (pn d) (pn k)) [
    | same q t ↦ absurd (ne (one (rw t at e)))
    | differ nf f ↦ rw f at e
  ]
    where
      one : some d ≡ some k → d ≡ k
      one e = cc

  module _ (a : Applied) (d : String) (h : conflicts d (find_text (pn d) a.seen) ≡ false)
      (s : Sound a) where
    own_name : str_eq (pn d) d ≡ true → get_text (pn d) a.aliases.alias_to_original ≡ ""
    own_name t = elim (no_conflict d (find_text (pn d) a.seen) h) [
      | inl n ↦ s.back (pn d) ∙ ap (origin (pn d)) n
      | inr e ↦ s.back (pn d) ∙ ap (origin (pn d)) e ∙ rw t refl
    ]

    kept_name : str_eq (pn d) d ≡ true → get_text d a.aliases.original_to_alias ≡ aliased d
    kept_name t = elim (s.forth_any d) [ inl e ↦ e ∙ sym (rw t refl) | inr e ↦ e ]

    other_name : str_eq (pn d) d ≡ false → pn d ≡ aliased d
    other_name t = rw t refl

    -- The definition keeps its own name.
    plain-Sound : pn d ≡ d → str_eq (pn d) d ≡ true → Sound (next a d)
    plain-Sound q t = record {
      back = λ p. elim (str-Compared (pn d) p) [
        | same e u ↦
            rw (t, u)
              (subst (λ x. get_text x a.aliases.alias_to_original ≡ origin x (some d)) e
                (own_name t ∙ sym (rw t refl)))
        | differ ne f ↦ rw (t, f) (s.back p)
      ];
      forth_any = λ k. rw t (s.forth_any k);
      forth = λ k e. elim (str-Compared d k) [
        | same u v ↦
            rw t (subst (λ x. get_text x a.aliases.original_to_alias ≡ aliased x) u (kept_name t))
        | differ ne f ↦ rw t (s.forth k (found_before a d k ne e))
      ];
    }

    -- The definition gets another name.
    renamed-Sound : pn d ≢ d → str_eq (pn d) d ≡ false → Sound (next a d)
    renamed-Sound nq t = record {
      back = λ p. elim (str-Compared (pn d) p) [
        | same e u ↦ rw (t, u) (subst (λ x. d ≡ origin x (some d)) e (rw t refl))
        | differ ne f ↦ rw (t, f) (s.back p)
      ];
      forth_any = λ k. elim (str-Compared d k) [
        | same e u ↦ rw (t, u) (inr (subst (λ x. pn d ≡ aliased x) e (other_name t)))
        | differ ne f ↦ rw (t, f) (s.forth_any k)
      ];
      forth = λ k e. elim (str-Compared d k) [
        | same q u ↦ rw (t, u) (subst (λ x. pn d ≡ aliased x) q (other_name t))
        | differ ne f ↦ rw (t, f) (s.forth k (found_before a d k ne e))
      ];
    }

  pub next-Sound :
      (a : Applied) (d : String)
      → conflicts d (find_text (pn d) a.seen) ≡ false
      → Sound a
      → Sound (next a d)
  next-Sound a d h s = elim (str-Compared (pn d) d) [
    | same q t ↦ plain-Sound a d h s q t
    | differ ne f ↦ renamed-Sound a d h s ne f
  ]

  or_name-IsName_lem : (p s : String) → IsName s → or_name p (trim s) ≡ s
  or_name-IsName_lem p s h = ap (or_name p) (h.0) ∙ rw (h.1) refl

  or_name_empty : (p : String) → or_name p (trim "") ≡ p
  unfolding trim trim_left trim_right
  or_name_empty p = refl

  pub given_name :
      (a : Applied) (d : String)
      → Sound a
      → IsName (pn d)
      → find_text (pn d) a.seen ≡ some d
      → provider_name a.aliases d ≡ pn d
  unfolding provider_name
  given_name a d s hp e =
      ap (λ x. or_name d (trim x)) (s.forth d e) ∙ elim (str-Compared (pn d) d) [
        | same q t ↦ rw t (or_name_empty d) ∙ sym q
        | differ ne f ↦ rw f (or_name-IsName_lem d (pn d) hp)
      ]

  -- A definition that has been named gets its own name back.
  pub restored :
      (a : Applied) (d : String)
      → Sound a
      → IsName d
      → find_text (pn d) a.seen ≡ some d
      → original_name a.aliases (pn d) ≡ d
  unfolding original_name
  restored a d s hd e =
      ap (λ x. or_name (pn d) (trim x)) (s.back (pn d) ∙ ap (origin (pn d)) e)
      ∙ elim (str-Compared (pn d) d) [
        | same q t ↦ rw t (or_name_empty (pn d)) ∙ q
        | differ ne f ↦ rw f (or_name-IsName_lem (pn d) d hd)
      ]
