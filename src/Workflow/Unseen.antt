-- ===== src/Workflow/Unseen.antt =====
-- How many keys of a list a search has not seen: the measure that bounds its depth.
use duraclaw.Shared.{
  ℕ, suc, ◌≤◌, ◌<◌, ◌≡◌, inl, inr, Bool, true, false, List, [], ◌∷◌, String, In, if◌then◌else◌,
  arith, ap, sym, ◌∙◌, length,
}

abbrev pub unseen : (String → Bool) → List String → ℕ
unseen p [] = 0
unseen p (u ∷ us) = if p u then unseen p us else suc (unseen p us)

module _ (p q : String → Bool) (more : (x : String) → p x ≡ true → q x ≡ true) where
  pub unseen_mono : (us : List String) → unseen q us ≤ unseen p us
  unseen_mono [] = omega arith
  unseen_mono (u ∷ us) = ground (arith, unseen_mono us, more u)

  pub unseen_drop :
      (us : List String) (k : String)
      → In k us
      → p k ≡ false
      → q k ≡ true
      → unseen q us < unseen p us
  unseen_drop [] k m f t = absurd m
  unseen_drop (u ∷ us) k (inl e) f t =
      ground (arith, unseen_mono us, ap p (sym e) ∙ f, ap q (sym e) ∙ t)
  unseen_drop (u ∷ us) k (inr m) f t = ground (arith, unseen_drop us k m f t, more u)

pub unseen-le-length : (p : String → Bool) (us : List String) → unseen p us ≤ length us
unseen-le-length p [] = omega arith
unseen-le-length p (u ∷ us) = ground (arith, unseen-le-length p us)
