-- ===== src/Workflow/Store/Calls.antt =====
-- The two ways that a call of the store goes, and binds taken apart.
use duraclaw.Shared.{
  ◌≤◌, ◌<◌, length, ◌≡◌, refl, sym, subst, ap, ◌∙◌, Bool, true, false, List, [], ◌∷◌, arith,
}
use duraclaw.Workflow.Store.{
  World, fault, Result, ok, err, M, and_then, ◌>>=◌, after_call, call, unchanged, read,
}

-- A call uses up at most one fault, and one that fails does use one up.
pub data CallCase (change : World → World) (w : World) : Type 0 where
  works :
      (bs : List Bool)
      → length bs ≤ length w.faults
      → call change w ≡ (ok tt, change (record w { faults = bs }))
      → CallCase change w
  fails :
      (bs : List Bool)
      → length bs < length w.faults
      → call change w ≡ (err fault, record w { faults = bs })
      → CallCase change w

after_call-CallCase :
    (change : World → World) (w : World) (bs : List Bool) → w.faults ≡ bs → CallCase change w
unfolding call
after_call-CallCase change w [] e =
    works [] (ground arith) (ap (λ x. after_call change (record w { faults = x }) x) e)
after_call-CallCase change w (true ∷ bs) e =
    fails bs (subst (λ x. length bs < length x) (sym e) (ground arith))
      (ap (λ x. after_call change (record w { faults = x }) x) e)
after_call-CallCase change w (false ∷ bs) e =
    works bs (subst (λ x. length bs ≤ length x) (sym e) (ground arith))
      (ap (λ x. after_call change (record w { faults = x }) x) e)

pub call-CallCase : (change : World → World) (w : World) → CallCase change w
call-CallCase change w = after_call-CallCase change w w.faults refl

-- A property of worlds that a call keeps, whether it works or not.
pub call_keeps :
    (P : World → Type 0) (change : World → World) (w : World)
    → ((bs : List Bool) → P (change (record w { faults = bs })))
    → ((bs : List Bool) → P (record w { faults = bs }))
    → P (call change w).1
call_keeps P change w good bad = elim (call-CallCase change w) [
  | works bs l e ↦ subst (λ r. P r.1) (sym e) (good bs)
  | fails bs l e ↦ subst (λ r. P r.1) (sym e) (bad bs)
]

-- What holds after the first action, and stays so under the second, holds after both.
pub bind_keeps :
    {A B : Type 0} (P : World → Type 0) (m : M A) (f : A → M B) (w : World)
    → P (m w).1
    → ((a : A) → m w ≡ (ok a, (m w).1) → P (f a (m w).1).1)
    → P ((m >>= f) w).1
bind_keeps {A} {B} P m f w p q = go (m w) refl
  where
    go : (r : Result A × World) → m w ≡ r → P (and_then r f).1
    go (ok a, v) e =
        subst (λ u. P (f a u).1) (ap (λ (r : Result A × World). r.1) e)
          (q a (e ∙ ap (λ u. (ok a, u)) (sym (ap (λ (r : Result A × World). r.1) e))))
    go (err x, v) e = subst P (ap (λ (r : Result A × World). r.1) e) p

-- A read gives what is there, or fails, and changes nothing but the faults to come.
pub read_keeps :
    {A B : Type 0} (P : World → Type 0) (f : World → A) (next : A → M B) (w : World)
    → ((bs : List Bool) → P (record w { faults = bs }))
    → ((bs : List Bool) → P (next (f (record w { faults = bs })) (record w { faults = bs })).1)
    → P ((read f >>= next) w).1
unfolding read
read_keeps P f next w bad good = elim (call-CallCase unchanged w) [
  | works bs l e ↦
      subst (λ r. P (and_then (and_then r (λ _ v. (ok (f v), v))) next).1) (sym e) (good bs)
  | fails bs l e ↦
      subst (λ r. P (and_then (and_then r (λ _ v. (ok (f v), v))) next).1) (sym e) (bad bs)
]

-- A chain of calls that works, taken apart.
pub bind_works :
    {A B : Type 0} (m : M A) (f : A → M B) (w v : World) {b : B}
    → (m >>= f) w ≡ (ok b, v)
    → (a : A) × (u : World) × (m w ≡ (ok a, u)) × (f a u ≡ (ok b, v))
bind_works {A} {B} m f w v {b} e = go (m w) refl e
  where
    go :
        (r : Result A × World)
        → m w ≡ r
        → and_then r f ≡ (ok b, v)
        → (a : A) × (u : World) × (m w ≡ (ok a, u)) × (f a u ≡ (ok b, v))
    go (ok a, u) q p = (a, u, q, p)
    go (err x, u) q p = absurd (cc)

pub call_works :
    (change : World → World) (w v : World) {u : Unit {0}}
    → call change w ≡ (ok u, v)
    → (bs : List Bool) × (v ≡ change (record w { faults = bs }))
call_works change w v e = elim (call-CallCase change w) [
  | works bs l q ↦ (bs, ap (λ (r : Result (Unit {0}) × World). r.1) (sym e ∙ q))
  | fails bs l q ↦ absurd (cc)
]
