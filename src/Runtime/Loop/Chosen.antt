-- ===== src/Runtime/Loop/Chosen.antt =====
-- Which tool calls of an answer are executed.
use duraclaw.Runtime.Calls.{Call}
use duraclaw.Runtime.Loop.{passes, tool_calls_for_execution}
use duraclaw.Shared.{
  ℕ, zero, suc, ◌+◌, ◌-◌, ◌≤◌, ◌<◌, ◌≡◌, refl, sym, ap, subst, ◌∙◌, inl, inr, ◌⊎◌, arith, Bool,
  true, false, not, ◌||◌, List, [], ◌∷◌, ◌++◌, All, All-of_In, String, contains, length, keep, take,
  In, In-keep, In-of_keep, leb, ◌==◌, Bool-cases,
}

length-keep : (p : Call → Bool) (calls : List Call) → length (keep p calls) ≤ length calls
length-keep p [] = omega arith
length-keep p (c ∷ calls) = elim (Bool-cases (p c)) [
  | inl t ↦ rw t (omega (arith, length-keep p calls))
  | inr f ↦ rw f (omega (arith, length-keep p calls))
]

-- The name of a call is allowed, or no name is.
abbrev pub IsAllowed : List String → Call → Type 0
IsAllowed allowed c = (contains allowed c.name ≡ true) ⊎ (allowed ≡ [])

-- A call may be executed: it is one of the answer's, and it is allowed.
abbrev pub MayExecute : List Call → List String → Call → Type 0
MayExecute calls allowed c = In c calls × IsAllowed allowed c

pub passes_iff :
    (allowed : List String) (c : Call)
    → (passes allowed c ≡ true → (contains allowed c.name ≡ true) ⊎ (allowed ≡ []))
      × ((contains allowed c.name ≡ true) ⊎ (allowed ≡ []) → passes allowed c ≡ true)
passes_iff [] c = (λ e. inr refl, λ e. refl)
passes_iff (a ∷ more) c = (λ e. inl e, λ e. elim e [ inl t ↦ t | inr q ↦ cc ])

pub empty_or_not : (xs : List Call) → (length xs == 0) ≡ true → xs ≡ []
empty_or_not [] e = refl
empty_or_not (x ∷ xs) e = absurd (ground (arith))

In-take : (c : Call) (n : ℕ) (xs : List Call) → In c (take n xs) → In c xs
In-take c zero xs m = absurd m
In-take c (suc n) [] m = m
In-take c (suc n) (x ∷ xs) (inl e) = inl e
In-take c (suc n) (x ∷ xs) (inr m) = inr (In-take c n xs m)

-- What is chosen of the calls of an answer, and how many are suppressed.
abbrev pub Chooses : List Call → Bool → List String → List Call × ℕ → Type 0
Chooses calls interleave allowed r =
    ((c : Call) → In c r.0 → MayExecute calls allowed c)
    × (((interleave ≡ false) ⊎ (length calls ≤ 1))
        → (c : Call) → MayExecute calls allowed c
        → In c r.0)
    × (interleave ≡ true
        → 1 < length calls
        → (before after : List Call) (c : Call) → calls ≡ before ++ c ∷ after
        → ((d : Call) → In d before → IsAllowed allowed d → ⊥)
        → IsAllowed allowed c
        → r.0 ≡ c ∷ [])
    × (length r.0 + r.1 ≡ length calls)

-- Every call that is executed may be; without interleaving, or for an answer with one call, every call
-- that may be executed is; with interleaving, of an answer with more calls the first that may be executed
-- is, and no other; and the suppressed calls are those that are left out.
pub tool_calls_for_execution-chosen :
    (calls : List Call) (interleave : Bool) (allowed : List String)
    → Chooses calls interleave allowed (tool_calls_for_execution calls interleave allowed)
unfolding tool_calls_for_execution
tool_calls_for_execution-chosen calls interleave allowed = elim (Bool-cases (length chosen == 0)) [
  | inl e ↦ rw e (
    (λ c m. absurd m),
    (λ q c h. absurd (
        subst (In c) (empty_or_not chosen e)
          (In-keep c (passes allowed) calls h.0 ((passes_iff allowed c).1 h.1)))),
    (λ i l before after c s none_before h. absurd (
        subst (λ xs. xs ≡ [] → ⊥) (sym (only before after c s none_before h)) (λ q. cc)
          (empty_or_not chosen e))),
    ground (arith),
  )
  | inr n ↦ elim (Bool-cases (not interleave || leb (length calls) 1)) [
    | inl t ↦
        rw (n, t)
          (
            from_chosen,
            (λ q c h. In-keep c (passes allowed) calls h.0 ((passes_iff allowed c).1 h.1)),
            (λ i l before after c s none_before h. absurd (together i l t)),
            omega (arith, length-keep (passes allowed) calls),
          )
    | inr f ↦
        rw (n, f)
          (
            (λ c m. from_chosen c (In-take c 1 chosen m)),
            (λ q c h. absurd (alone q f)),
            (λ i l before after c s none_before h.
                ap (take 1) (only before after c s none_before h)),
            counted chosen n (length-keep (passes allowed) calls),
          )
  ]
]
  where
    chosen : List Call
    chosen = keep (passes allowed) calls

    from_chosen : (c : Call) → In c chosen → MayExecute calls allowed c
    from_chosen c m =
        let r = In-of_keep c (passes allowed) calls m in (r.0, (passes_iff allowed c).0 r.1)

    alone :
        (interleave ≡ false) ⊎ (length calls ≤ 1)
        → (not interleave || leb (length calls) 1) ≡ false
        → ⊥
    alone (inl e) f = ground (arith)
    alone (inr l) f = ground (arith)

    together :
        interleave ≡ true → 1 < length calls → (not interleave || leb (length calls) 1) ≡ true → ⊥
    together i l t = ground (arith)

    first_kept :
        (before : List Call) (c : Call) (after : List Call)
        → All (λ d. passes allowed d ≡ false) before
        → (contains allowed c.name ≡ true) ⊎ (allowed ≡ [])
        → keep (passes allowed) (before ++ c ∷ after) ≡ c ∷ keep (passes allowed) after
    first_kept [] c after h m = rw ((passes_iff allowed c).1 m) refl
    first_kept (b ∷ before) c after h m = rw (h.0) (first_kept before c after h.1 m)

    refused : (d : Call) → (IsAllowed allowed d → ⊥) → passes allowed d ≡ false
    refused d h = elim (Bool-cases (passes allowed d)) [
      | inl t ↦ absurd (h ((passes_iff allowed d).0 t))
      | inr f ↦ f
    ]

    only :
        (before after : List Call) (c : Call)
        → calls ≡ before ++ c ∷ after
        → ((d : Call) → In d before → IsAllowed allowed d → ⊥)
        → IsAllowed allowed c
        → chosen ≡ c ∷ keep (passes allowed) after
    only before after c s h k =
        ap (keep (passes allowed)) s
        ∙ first_kept before c after
            (All-of_In (λ d. passes allowed d ≡ false) before (λ d m. refused d (h d m))) k

    counted :
        (xs : List Call)
        → (length xs == 0) ≡ false
        → length xs ≤ length calls
        → length (take 1 xs) + (((length calls - length xs) + length xs) - 1) ≡ length calls
    counted [] e l = absurd (ground (arith))
    counted (x ∷ xs) e l = omega arith
