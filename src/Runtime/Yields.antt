-- ===== src/Runtime/Yields.antt =====
-- What an action leaves, with the value that it returns or with an error: a rule for each way to build
-- an action.
use duraclaw.Runtime.Keeps.{Keeps}
use duraclaw.Runtime.Store.{
  World, Failure, Result, ok, err, M, and_then, ◌>>=◌, return, fail, with_world,
}
use duraclaw.Shared.{◌≡◌, refl, Bool, true, false, if◌then◌else◌}

-- From `P`, `m` leaves `Q` with the value that it returns, and `E` with an error.
abbrev pub Ends : {A : Type 0} → (A → World → Type 0) → (World → Type 0) → Result A → World → Type 0
Ends Q E (ok a) w = Q a w
Ends Q E (err e) w = E w

pub record Yields {A : Type 0} (P : World → Type 0) (Q : A → World → Type 0) (E : World → Type 0)
    (m : M A) : Type 0 where
  pub at : (w : World) → P w → Ends Q E (m w).0 (m w).1

module _ {A : Type 0} {P E : World → Type 0} where
  pub Yields-keep : {m : M A} → ((w : World) → P w → E w) → Keeps P m → Yields P (λ a. P) E m
  Yields-keep {m} weak k = record { at = λ w p. go (m w).0 (m w).1 (k.at w p) }
    where
      go : (r : Result A) (v : World) → P v → Ends (λ a. P) E r v
      go (ok a) v p = p
      go (err e) v p = weak v p

  pub Yields-return :
      {Q : A → World → Type 0} (a : A) → ((w : World) → P w → Q a w) → Yields P Q E (return a)
  unfolding return
  Yields-return a k = record { at = k }

  pub Yields-fail :
      {Q : A → World → Type 0} (e : Failure) → ((w : World) → P w → E w) → Yields P Q E (fail e)
  unfolding fail
  Yields-fail e k = record { at = k }

  pub Yields-with_world :
      {Q : A → World → Type 0} (f : World → M A)
      → ((w : World) → Yields P Q E (f w))
      → Yields P Q E (with_world f)
  unfolding with_world
  Yields-with_world f k = record { at = λ w. (k w).at w }

  pub Yields-if :
      {Q : A → World → Type 0} (b : Bool) (m n : M A)
      → Yields P Q E m
      → Yields P Q E n
      → Yields P Q E (if b then m else n)
  Yields-if true m n km kn = km
  Yields-if false m n km kn = kn

  pub Yields-if_given :
      {Q : A → World → Type 0} (b : Bool) (m n : M A)
      → (b ≡ true → Yields P Q E m)
      → (b ≡ false → Yields P Q E n)
      → Yields P Q E (if b then m else n)
  Yields-if_given true m n km kn = km refl
  Yields-if_given false m n km kn = kn refl

  pub Keeps-of_Yields : {m : M A} → ((w : World) → E w → P w) → Yields P (λ a. P) E m → Keeps P m
  Keeps-of_Yields {m} weak k = record { at = λ w p. go (m w).0 (m w).1 (k.at w p) }
    where
      go : (r : Result A) (v : World) → Ends (λ a. P) E r v → P v
      go (ok a) v p = p
      go (err e) v p = weak v p

  pub Yields-weaken :
      {Q R : A → World → Type 0} {m : M A}
      → ((a : A) (w : World) → Q a w → R a w)
      → Yields P Q E m
      → Yields P R E m
  Yields-weaken {Q} {R} {m} weak k = record { at = λ w p. go (m w).0 (m w).1 (k.at w p) }
    where
      go : (r : Result A) (v : World) → Ends Q E r v → Ends R E r v
      go (ok a) v q = weak a v q
      go (err e) v q = q

module _ {A C : Type 0} {P E : World → Type 0} {Q : A → World → Type 0}
    {R : C → World → Type 0} where
  pub Yields-bind :
      (m : M A) (f : A → M C)
      → Yields P Q E m
      → ((a : A) → Yields (Q a) R E (f a))
      → Yields P R E (m >>= f)
  unfolding ◌>>=◌
  Yields-bind m f km kf = record { at = λ w p. go (m w).0 (m w).1 (km.at w p) }
    where
      go :
          (r : Result A) (v : World) → Ends Q E r v → Ends R E (and_then r f v).0 (and_then r f v).1
      go (ok a) v q = (kf a).at v q
      go (err e) v q = q
