-- ===== src/Shared/Lists.antt =====
-- Lists measured by native numbers, and predicates over lists by recursion.
use Prim.Native.Nat.{ℕ, zero, suc, ◌+◌}
use mathlib.Core.Path.{◌≡◌, refl, ap, sym, subst, ◌∙◌}
use mathlib.Core.Logic.{◌⊎◌, inl, inr}
use mathlib.Core.Bool.{Bool, true, false}
use mathlib.Core.List.{List, [], ◌∷◌, ◌++◌}
use native.Mathlib.Omega.{arith}
use duraclaw.Shared.Tests.{if◌then◌else◌, Bool-cases}

module _ {ℓ} {A : Type ℓ} where
  abbrev pub length : List A → ℕ
  length [] = 0
  length (x ∷ xs) = suc (length xs)

  pub length-append : (xs ys : List A) → length (xs ++ ys) ≡ length xs + length ys
  length-append [] ys = omega arith
  length-append (x ∷ xs) ys = omega (arith, length-append xs ys)

  abbrev pub take : ℕ → List A → List A
  take zero xs = []
  take (suc n) [] = []
  take (suc n) (x ∷ xs) = x ∷ take n xs

  abbrev pub drop : ℕ → List A → List A
  drop zero xs = xs
  drop (suc n) [] = []
  drop (suc n) (x ∷ xs) = drop n xs

  -- The elements that pass a Boolean test.
  abbrev pub keep : (A → Bool) → List A → List A
  keep p [] = []
  keep p (x ∷ xs) = if p x then x ∷ keep p xs else keep p xs

  abbrev pub any : (A → Bool) → List A → Bool
  any p [] = false
  any p (x ∷ xs) = if p x then true else any p xs

module _ {A : Type 0} where
  -- Membership, by recursion, so that the tactics read it.
  abbrev pub In : A → List A → Type 0
  In a [] = ⊥
  In a (x ∷ xs) = (a ≡ x) ⊎ In a xs

module _ {κ} {A : Type 0} where
  -- A predicate that holds of every element.
  abbrev pub All : (A → Type κ) → List A → Type κ
  All P [] = Unit
  All P (x ∷ xs) = P x × All P xs

  pub All-In : (P : A → Type κ) (a : A) (xs : List A) → All P xs → In a xs → P a
  All-In P a [] h m = absurd m
  All-In P a (x ∷ xs) h (inl e) = subst P (sym e) h.0
  All-In P a (x ∷ xs) h (inr m) = All-In P a xs h.1 m

  pub All-of_In : (P : A → Type κ) (xs : List A) → ((a : A) → In a xs → P a) → All P xs
  All-of_In P [] h = tt
  All-of_In P (x ∷ xs) h = (h x (inl refl), All-of_In P xs (λ a m. h a (inr m)))

module _ {ℓ} {A : Type ℓ} where
  keep_yes : (p : A → Bool) (x : A) (xs : List A) → p x ≡ true → keep p (x ∷ xs) ≡ x ∷ keep p xs
  keep_yes p x xs e = rw e

  keep_no : (p : A → Bool) (x : A) (xs : List A) → p x ≡ false → keep p (x ∷ xs) ≡ keep p xs
  keep_no p x xs e = rw e

module _ {A : Type 0} (a : A) where
  pub In-append_left : (xs ys : List A) → In a xs → In a (xs ++ ys)
  In-append_left [] ys m = absurd m
  In-append_left (x ∷ xs) ys (inl e) = inl e
  In-append_left (x ∷ xs) ys (inr m) = inr (In-append_left xs ys m)

  pub In-append_right : (xs ys : List A) → In a ys → In a (xs ++ ys)
  In-append_right [] ys m = m
  In-append_right (x ∷ xs) ys m = inr (In-append_right xs ys m)

  pub In-append : (xs ys : List A) → In a (xs ++ ys) → In a xs ⊎ In a ys
  In-append [] ys m = inr m
  In-append (x ∷ xs) ys (inl e) = inl (inl e)
  In-append (x ∷ xs) ys (inr m) = elim (In-append xs ys m) [ inl l ↦ inl (inr l) | inr r ↦ inr r ]

  pub In-keep : (p : A → Bool) (xs : List A) → In a xs → p a ≡ true → In a (keep p xs)
  In-keep p [] m h = m
  In-keep p (x ∷ xs) (inl e) h = subst (In a) (sym (keep_yes p x xs (ap p (sym e) ∙ h))) (inl e)
  In-keep p (x ∷ xs) (inr m) h = elim (Bool-cases (p x)) [
    | inl e ↦ subst (In a) (sym (keep_yes p x xs e)) (inr (In-keep p xs m h))
    | inr e ↦ subst (In a) (sym (keep_no p x xs e)) (In-keep p xs m h)
  ]

  kept_head :
      (p : A → Bool) (x : A) (xs : List A)
      → p x ≡ true
      → (In a (keep p xs) → In a xs × (p a ≡ true))
      → In a (x ∷ keep p xs)
      → In a (x ∷ xs) × (p a ≡ true)
  kept_head p x xs e ih (inl q) = (inl q, ap p q ∙ e)
  kept_head p x xs e ih (inr q) = (inr (ih q).0, (ih q).1)

  kept_tail :
      (p : A → Bool) (x : A) (xs : List A) → In a xs × (p a ≡ true) → In a (x ∷ xs) × (p a ≡ true)
  kept_tail p x xs r = (inr r.0, r.1)

  pub In-of_keep : (p : A → Bool) (xs : List A) → In a (keep p xs) → In a xs × (p a ≡ true)
  In-of_keep p [] m = absurd m
  In-of_keep p (x ∷ xs) m = elim (Bool-cases (p x)) [
    | inl e ↦ kept_head p x xs e (In-of_keep p xs) (subst (In a) (keep_yes p x xs e) m)
    | inr e ↦ kept_tail p x xs (In-of_keep p xs (subst (In a) (keep_no p x xs e) m))
  ]

-- `sort.Slice` and `sort.Strings`: insertion sort by a test for "not after".
module _ {ℓ} {A : Type ℓ} (le : A → A → Bool) where
  unfoldable pub insert_sorted : A → List A → List A
  insert_sorted a [] = a ∷ []
  insert_sorted a (x ∷ xs) = if le a x then a ∷ x ∷ xs else x ∷ insert_sorted a xs

  unfoldable pub sort_by : List A → List A
  unfolding insert_sorted
  sort_by [] = []
  sort_by (x ∷ xs) = insert_sorted x (sort_by xs)

module _ {A : Type 0} (le : A → A → Bool) (b : A) where
  In-insert_sorted : (a : A) (xs : List A) → (b ≡ a) ⊎ In b xs → In b (insert_sorted le a xs)
  unfolding insert_sorted
  In-insert_sorted a [] m = m
  In-insert_sorted a (x ∷ xs) (inl e) = ground (arith, In-insert_sorted a xs (inl e))
  In-insert_sorted a (x ∷ xs) (inr (inl e)) = ground (arith)
  In-insert_sorted a (x ∷ xs) (inr (inr m)) = ground (arith, In-insert_sorted a xs (inr m))

  pub In-of_insert_sorted : (a : A) (xs : List A) → In b (insert_sorted le a xs) → (b ≡ a) ⊎ In b xs
  unfolding insert_sorted
  In-of_insert_sorted a [] m = m
  In-of_insert_sorted a (x ∷ xs) m = ground (arith, In-of_insert_sorted a xs)

  pub In-sort_by : (xs : List A) → In b xs → In b (sort_by le xs)
  unfolding sort_by
  In-sort_by [] m = m
  In-sort_by (x ∷ xs) (inl e) = In-insert_sorted x (sort_by le xs) (inl e)
  In-sort_by (x ∷ xs) (inr m) = In-insert_sorted x (sort_by le xs) (inr (In-sort_by xs m))

  pub In-of_sort_by : (xs : List A) → In b (sort_by le xs) → In b xs
  unfolding sort_by
  In-of_sort_by [] m = m
  In-of_sort_by (x ∷ xs) m = elim (In-of_insert_sorted x (sort_by le xs) m) [
    | inl e ↦ inl e
    | inr r ↦ inr (In-of_sort_by xs r)
  ]

module _ {A : Type 0} where
  pub append_assoc : (xs ys zs : List A) → (xs ++ ys) ++ zs ≡ xs ++ (ys ++ zs)
  append_assoc [] ys zs = refl
  append_assoc (x ∷ xs) ys zs = ap (λ l. x ∷ l) (append_assoc xs ys zs)

  pub append_nil : (xs : List A) → xs ++ [] ≡ xs
  append_nil [] = refl
  append_nil (x ∷ xs) = ap (λ l. x ∷ l) (append_nil xs)
