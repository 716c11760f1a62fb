-- ===== src/Runtime/Aliases/Restored.antt =====
-- The round trip of the names of tools: what `OriginalName` makes of what `ProviderName` gives.
use duraclaw.Runtime.Aliases.{AliasSet, provider_name, original_name}
use duraclaw.Runtime.Aliases.Applied.{
  Naming, Applied, chosen_name, find_text, conflicts, no_aliases, apply_each, aliases_of,
  applied_tool_aliases,
}
use duraclaw.Runtime.Aliases.Named.{IsName, chosen-IsName}
use duraclaw.Runtime.Aliases.Trimmed.{NoSpace}
use duraclaw.Shared.{
  ◌≡◌, refl, sym, ap, subst, ◌∙◌, inl, inr, ◌⊎◌, false, List, [], ◌∷◌, String, Option, none, some,
  In, All, All-In, Bool-cases, str_eq_self,
}
use duraclaw.Runtime.Aliases.Sound.{Sound, next, still_found, next-Sound, given_name, restored}

module _ (n : Naming) (configured : AliasSet) where
  -- What the loop leaves: sound maps, in which every definition is found under its name.
  abbrev Ends : Applied → List String → Option Applied → Type 0
  Ends a ds none = Unit {0}
  Ends a ds (some b) =
      Sound (chosen_name n configured) b
      × ((d : String)
          → (find_text (chosen_name n configured d) a.seen ≡ some d) ⊎ In d ds
          → find_text (chosen_name n configured d) b.seen ≡ some d)

  apply_each-Ends :
      (a : Applied) (ds : List String)
      → Sound (chosen_name n configured) a
      → Ends a ds (apply_each n configured a ds)
  unfolding apply_each
  apply_each-Ends a [] s = (s, λ d m. elim m [ inl e ↦ e | inr i ↦ absurd i ])
  apply_each-Ends a (d ∷ ds) s =
      elim (Bool-cases (conflicts d (find_text (chosen_name n configured d) a.seen))) [
        | inl t ↦ rw t tt
        | inr f ↦ rw f (
            later f (apply_each n configured (next (chosen_name n configured) a d) ds) (
              apply_each-Ends (next (chosen_name n configured) a d) ds
                (next-Sound (chosen_name n configured) a d f s)))
      ]
    where
      pn : String → String
      pn = chosen_name n configured

      later :
          conflicts d (find_text (pn d) a.seen) ≡ false
          → (r : Option Applied) → Ends (next pn a d) ds r
          → Ends a (d ∷ ds) r
      later f none h = tt
      later f (some b) h = (h.0, found)
        where
          found :
              (k : String)
              → (find_text (pn k) a.seen ≡ some k) ⊎ In k (d ∷ ds)
              → find_text (pn k) b.seen ≡ some k
          found k (inl e) = h.1 k (inl (still_found pn a d k f e))
          found k (inr (inl e)) = h.1 k (
              inl (
                subst (λ x. find_text (pn x) (next pn a d).seen ≡ some x) (sym e)
                  (rw (str_eq_self (pn d)) refl)))
          found k (inr (inr i)) = h.1 k (inr i)

-- A list of definitions whose names begin and end without a space, and are not empty, gets names for the
-- model, where that is no error, that tell the definitions apart: the name of each definition leads back
-- to it. The hash that a long name ends with has no space.
pub applied_tool_aliases-original_name :
    (n : Naming) (configured : AliasSet) (defs : List String) (a : AliasSet)
    → ((s : String) → NoSpace (n.hex_hash s))
    → All IsName defs
    → applied_tool_aliases n defs configured ≡ some a
    → (d : String) → In d defs
    → original_name a (provider_name a d) ≡ d
unfolding applied_tool_aliases
applied_tool_aliases-original_name n configured defs a hex names e d m =
    go (apply_each n configured start defs) (apply_each-Ends n configured start defs start-Sound) e
  where
    start : Applied
    start = record { seen = []; aliases = no_aliases }

    start-Sound : Sound (chosen_name n configured) start
    start-Sound = record { back = λ p. refl; forth_any = λ k. inl refl; forth = λ k q. absurd (cc) }

    go :
        (r : Option Applied)
        → Ends n configured start defs r
        → aliases_of r ≡ some a
        → original_name a (provider_name a d) ≡ d
    go none h q = absurd (cc)
    go (some b) h q =
        let name = All-In IsName d defs names m in
        let found = h.1 d (inr m) in
        let same_aliases : b.aliases ≡ a = cc in
        subst (λ x. original_name x (provider_name x d) ≡ d) same_aliases
          (ap (original_name b.aliases) (
              given_name (chosen_name n configured) b d h.0 (chosen-IsName n hex configured d name)
                found)
            ∙ restored (chosen_name n configured) b d h.0 name found)
