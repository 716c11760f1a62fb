-- ===== src/Providers/Candidates.antt =====
-- What `ResolveCandidates` gives, without the map of keys.
use duraclaw.Providers.{
  Candidate, ModelConfig, parse_model_ref, model_key, add_ref, add_each, resolve_candidates,
}
use duraclaw.Shared.{
  ◌≡◌, refl, same, differ, str-Compared, ◌&&◌, sym, ap, ◌∙◌, inl, inr, Bool, true, not, List, [],
  ◌∷◌, String, Option, none, some, str_eq, contains, keep, Bool-cases,
}

-- The first of each key stays.
unfoldable pub first_of_each : {A : Type 0} → (A → String) → List A → List A
first_of_each key [] = []
first_of_each key (x ∷ xs) = x ∷ keep (λ y. not (str_eq (key x) (key y))) (first_of_each key xs)

keep-keep :
    {A : Type 0} (p q r : A → Bool)
    → ((x : A) → r x ≡ (q x && p x))
    → (xs : List A) → keep p (keep q xs) ≡ keep r xs
keep-keep p q r h [] = refl
keep-keep p q r h (x ∷ xs) = elim (Bool-cases (q x)) [
  | inl t ↦ elim (Bool-cases (p x)) [
    | inl u ↦ rw (h x, t, u) (ap (λ l. x ∷ l) (keep-keep p q r h xs))
    | inr u ↦ rw (h x, t, u) (keep-keep p q r h xs)
  ]
  | inr f ↦ rw (h x, f) (keep-keep p q r h xs)
]

module _ (to_lower : String → String) (default_provider : String) where
  abbrev add_read : Option Candidate → List Candidate → List Candidate
  add_read none cs = cs
  add_read (some c) cs = c ∷ cs

  -- The references that can be read, in their order.
  unfoldable pub read_refs : List String → List Candidate
  unfolding parse_model_ref
  read_refs [] = []
  read_refs (raw ∷ refs) = add_read (parse_model_ref to_lower raw default_provider) (read_refs refs)

  abbrev key : Candidate → String
  key = model_key to_lower

  abbrev unseen : List String → Candidate → Bool
  unseen seen c = not (contains seen (key c))

  abbrev differs : Candidate → Candidate → Bool
  differs c x = not (str_eq (key c) (key x))

  -- A key that is seen says nothing more of the others.
  seen_more :
      (c : Candidate) (seen : List String)
      → contains seen (key c) ≡ true
      → (x : Candidate) → unseen seen x ≡ (differs c x && unseen seen x)
  seen_more c seen h x = elim (str-Compared (key c) (key x)) [
    | same e t ↦ rw (t, sym e, h) refl
    | differ ne f ↦ rw f refl
  ]

  seen_next :
      (c : Candidate) (seen : List String) (x : Candidate)
      → unseen (key c ∷ seen) x ≡ (differs c x && unseen seen x)
  seen_next c seen x = elim (Bool-cases (str_eq (key c) (key x))) [
    | inl t ↦ rw t refl
    | inr f ↦ rw f refl
  ]

  abbrev Agrees : (List String → List Candidate) → List Candidate → Type 0
  Agrees rest cs = (seen : List String) → rest seen ≡ keep (unseen seen) (first_of_each key cs)

  add_ref-Agrees :
      (rest : List String → List Candidate) (cs : List Candidate) (x : Option Candidate)
      → Agrees rest cs
      → Agrees (λ seen. add_ref to_lower rest seen x) (add_read x cs)
  unfolding first_of_each
  add_ref-Agrees rest cs none h seen = h seen
  add_ref-Agrees rest cs (some c) h seen = elim (Bool-cases (contains seen (key c))) [
    | inl t ↦ rw t (
        h seen
        ∙ sym (
            keep-keep (unseen seen) (differs c) (unseen seen) (seen_more c seen t)
              (first_of_each key cs)))
    | inr f ↦ rw f (
        ap (λ l. c ∷ l)
          (h (key c ∷ seen)
            ∙ sym (
                keep-keep (unseen seen) (differs c) (unseen (key c ∷ seen)) (seen_next c seen)
                  (first_of_each key cs))))
  ]

  add_each-Agrees :
      (refs : List String) → Agrees (add_each to_lower default_provider refs) (read_refs refs)
  unfolding add_each read_refs first_of_each
  add_each-Agrees [] seen = refl
  add_each-Agrees (raw ∷ refs) seen =
      add_ref-Agrees (add_each to_lower default_provider refs) (read_refs refs)
        (parse_model_ref to_lower raw default_provider) (add_each-Agrees refs) seen

keep_all : {A : Type 0} (xs : List A) → keep (λ x. true) xs ≡ xs
keep_all [] = refl
keep_all (x ∷ xs) = ap (λ l. x ∷ l) (keep_all xs)

-- The candidates are the references that can be read, in their order, the primary model first, and of
-- those that come to the same provider and model the first one only.
pub resolve_candidates-first_of_each :
    (to_lower : String → String) (cfg : ModelConfig) (default_provider : String)
    → resolve_candidates to_lower cfg default_provider
      ≡ first_of_each
          (model_key to_lower)
          (read_refs to_lower default_provider (cfg.primary ∷ cfg.fallbacks))
unfolding resolve_candidates
resolve_candidates-first_of_each to_lower cfg default_provider =
    add_each-Agrees to_lower default_provider (cfg.primary ∷ cfg.fallbacks) [] ∙ keep_all _
