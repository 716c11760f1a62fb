-- ===== src/Workflow/Reach/Laws.antt =====
-- The walk meets exactly the keys that the edges lead to, and ends.
use duraclaw.Shared.{
  ℕ, zero, suc, ◌<◌, ◌≡◌, ◌≢◌, ◌↔◌, refl, sym, subst, inl, inr, ◌⊎◌, false, List, [], ◌∷◌, String,
  Option, none, some, str_eq_self, contains, contains→In, In→contains, In, All, All-In, All-of_In,
  Bool-cases, length, arith,
}
use duraclaw.Workflow.Graph.{
  Graph, Arrow, Reaches, here, onward, Reaches-trans, successors, Arrow-of_successor,
  successor_of_Arrow,
}
use duraclaw.Workflow.Unseen.{unseen, unseen_mono, unseen_drop, unseen-le-length}
use duraclaw.Workflow.Reach.{walk_each, walk, reachable_from}

abbrev Subset : List String → List String → Type 0
Subset r s = (x : String) → In x r → In x s

-- What follows `x` is in `r`.
abbrev Followed : Graph → List String → String → Type 0
Followed g r x = (s : String) → Arrow g x s → In s r

record Walked (g : Graph) (r : List String) (k : String) (w : List String) : Type 0 where
  met : In k w
  kept : Subset r w
  closed : (x : String) → In x w → In x r ⊎ Followed g w x
  sound : (x : String) → In x w → In x r ⊎ Reaches g k x

record WalkedAll (g : Graph) (r ks w : List String) : Type 0 where
  met : All (λ k. In k w) ks
  kept : Subset r w
  closed : (x : String) → In x w → In x r ⊎ Followed g w x
  sound : (x : String) → In x w → In x r ⊎ ((k : String) × In k ks × Reaches g k x)

some-inj : {r w : List String} → some r ≡ some w → r ≡ w
some-inj e = cc

walk_each-cons :
    (step : List String → String → Option (List String)) (r : List String) (k : String)
    (ks w : List String)
    → walk_each step r (k ∷ ks) ≡ some w
    → (u : List String) × (step r k ≡ some u) × (walk_each step u ks ≡ some w)
unfolding walk_each
walk_each-cons step r k ks w = go (step r k) refl
  where
    go :
        (o : Option (List String))
        → step r k ≡ o
        → walk_each step r (k ∷ ks) ≡ some w
        → (u : List String) × (step r k ≡ some u) × (walk_each step u ks ≡ some w)
    go none q e = absurd (ground arith)
    go (some u) q e = (u, q, rw (q, walk_each) at e)

closed_through :
    (g : Graph) (r u w : List String)
    → Subset u w
    → ((x : String) → In x u → In x r ⊎ Followed g u x)
    → ((x : String) → In x w → In x u ⊎ Followed g w x)
    → (x : String) → In x w
    → In x r ⊎ Followed g w x
closed_through g r u w sub inner outer x m = elim (outer x m) [
  | inl i ↦ widen (inner x i)
  | inr f ↦ inr f
]
  where
    widen : In x r ⊎ Followed g u x → In x r ⊎ Followed g w x
    widen (inl i) = inl i
    widen (inr f) = inr (λ s a. sub s (f s a))

sound_through :
    (g : Graph) (r : List String) (k : String) (ks u w : List String)
    → ((x : String) → In x u → In x r ⊎ Reaches g k x)
    → ((x : String) → In x w → In x u ⊎ ((l : String) × In l ks × Reaches g l x))
    → (x : String) → In x w
    → In x r ⊎ ((l : String) × In l (k ∷ ks) × Reaches g l x)
sound_through g r k ks u w inner outer x m = elim (outer x m) [
  | inl i ↦ elim (inner x i) [ inl j ↦ inl j | inr p ↦ inr (k, inl refl, p) ]
  | inr (l, j, p) ↦ inr (l, inr j, p)
]

walk_each-Walked :
    (g : Graph) (step : List String → String → Option (List String))
    → ((r : List String) (k : String) (w : List String) → step r k ≡ some w → Walked g r k w)
    → (ks r w : List String) → walk_each step r ks ≡ some w
    → WalkedAll g r ks w
unfolding walk_each
walk_each-Walked g step one [] r w e =
    subst (WalkedAll g r []) (some-inj e)
      (record { met = tt; kept = λ x m. m; closed = λ x m. inl m; sound = λ x m. inl m })
walk_each-Walked g step one (k ∷ ks) r w e =
    let (u, q, l) = walk_each-cons step r k ks w e in
    let first = one r k u q in
    let rest = walk_each-Walked g step one ks u w l in
    record {
      met = (rest.kept k first.met, rest.met);
      kept = λ x m. rest.kept x (first.kept x m);
      closed = closed_through g r u w rest.kept first.closed rest.closed;
      sound = sound_through g r k ks u w first.sound rest.sound;
    }

Walked-of_children :
    (g : Graph) (r : List String) (k : String) (w : List String)
    → WalkedAll g (k ∷ r) (successors g k) w
    → Walked g r k w
Walked-of_children g r k w c = record {
  met = c.kept k (inl refl);
  kept = λ x m. c.kept x (inr m);
  closed = λ x m. closed_head x (c.closed x m);
  sound = λ x m. sound_head x (c.sound x m);
}
  where
    closed_head : (x : String) → In x (k ∷ r) ⊎ Followed g w x → In x r ⊎ Followed g w x
    closed_head x (inl (inl q)) = inr (λ s a.
        All-In (λ y. In y w) s (successors g k) c.met
          (successor_of_Arrow g k s (subst (λ y. Arrow g y s) q a)))
    closed_head x (inl (inr i)) = inl i
    closed_head x (inr f) = inr f

    sound_head :
        (x : String)
        → In x (k ∷ r) ⊎ ((l : String) × In l (successors g k) × Reaches g l x)
        → In x r ⊎ Reaches g k x
    sound_head x (inl (inl q)) = inr (subst (Reaches g k) (sym q) here)
    sound_head x (inl (inr i)) = inl i
    sound_head x (inr (l, i, p)) = inr (Reaches-trans (onward here (Arrow-of_successor g k l i)) p)

walk-Walked :
    (fuel : ℕ) (g : Graph) (r : List String) (k : String) (w : List String)
    → walk fuel g r k ≡ some w
    → Walked g r k w
unfolding walk
walk-Walked zero g r k w e = absurd (cc)
walk-Walked (suc fuel) g r k w e = elim (Bool-cases (contains r k)) [
  | inl c ↦ subst (Walked g r k) (some-inj (rw c at e)) (record {
    met = contains→In r k c;
    kept = λ x m. m;
    closed = λ x m. inl m;
    sound = λ x m. inl m;
  })
  | inr c ↦
      Walked-of_children g r k w (
        walk_each-Walked g (walk fuel g) (walk-Walked fuel g) (successors g k) (k ∷ r) w
          (rw c at e))
]

-- The set that `reachableFrom` returns, with any fuel that is enough for it to return one, holds
-- exactly the keys that the edges lead to from the start.
pub reachable_from_iff :
    (fuel : ℕ) (start : String) (g : Graph) (w : List String) (x : String)
    → reachable_from fuel start g ≡ some w
    → In x w ↔ Reaches g start x
unfolding reachable_from
reachable_from_iff fuel start g w x e = (λ m. into (c.sound x m), back)
  where
    c : Walked g [] start w
    c = walk-Walked fuel g [] start w e

    into : ⊥ ⊎ Reaches g start x → Reaches g start x
    into (inl i) = absurd i
    into (inr p) = p

    follow : (y : String) → ⊥ ⊎ Followed g w y → Followed g w y
    follow y (inl i) = absurd i
    follow y (inr f) = f

    back : {y : String} → Reaches g start y → In y w
    back here = c.met
    back (onward {l} p a) = follow l (c.closed l (back p)) _ a

-- Where every key that follows a key of `us` is in `us`, the fuel lasts.
module _ (us : List String) (g : Graph) where
  abbrev Returning : (List String → String → Option (List String)) → ℕ → Type 0
  Returning step fuel =
      (r : List String) (k : String) → In k us → unseen (contains r) us < fuel → step r k ≢ none

  walk_each_lasts :
      (fuel : ℕ) (step : List String → String → Option (List String))
      → ((r : List String) (k : String) (w : List String) → step r k ≡ some w → Subset r w)
      → Returning step fuel
      → (ks r : List String) → All (λ k. In k us) ks
      → unseen (contains r) us < fuel
      → walk_each step r ks ≢ none
  unfolding walk_each
  walk_each_lasts fuel step grows lasts [] r i h e = cc
  walk_each_lasts fuel step grows lasts (k ∷ ks) r i h e =
      go (walk_each_lasts fuel step grows lasts ks) (step r k) refl
    where
      go :
          ((u : List String)
            → All (λ k. In k us) ks
            → unseen (contains u) us < fuel
            → walk_each step u ks ≢ none)
          → (o : Option (List String)) → step r k ≡ o
          → ⊥
      go later none q = lasts r k i.0 h q
      go later (some u) q =
          later u i.1
            (omega (
              arith,
              unseen_mono (contains r) (contains u)
                  (λ x c. In→contains u x (grows r k u q x (contains→In r x c))) us,
            ))
            (rw (q, walk_each) at e)

  walk_lasts :
      ((k s : String) → In k us → In s (successors g k) → In s us)
      → (fuel : ℕ) → Returning (walk fuel g) fuel
  unfolding walk
  walk_lasts closed zero r k m h e = elim h [ ]
  walk_lasts closed (suc fuel) r k m h e = elim (Bool-cases (contains r k)) [
    | inl c ↦ ground arith
    | inr c ↦
        walk_each_lasts fuel (walk fuel g) (λ r k w q. (walk-Walked fuel g r k w q).kept)
          (walk_lasts closed fuel) (successors g k) (k ∷ r)
          (All-of_In _ (successors g k) (λ s. closed k s m)) (omega (arith, drops c)) (rw c at e)
  ]
    where
      drops : contains r k ≡ false → unseen (contains (k ∷ r)) us < unseen (contains r) us
      drops c =
          unseen_drop (contains r) (contains (k ∷ r)) (λ x s. ground arith) us k m c
            (ground (arith, str_eq_self k))

  -- Fuel beyond the number of keys is enough.
  pub reachable_from_lasts :
      ((k s : String) → In k us → In s (successors g k) → In s us)
      → (fuel : ℕ) (start : String) → In start us
      → length us < fuel
      → reachable_from fuel start g ≢ none
  unfolding reachable_from
  reachable_from_lasts closed fuel start m h =
      walk_lasts closed fuel [] start m (omega (arith, unseen-le-length (contains []) us))
