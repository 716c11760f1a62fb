-- ===== src/Policy/Engine/Denials.antt =====
-- What `Enforce` makes of the decision of an evaluation.
use duraclaw.Policy.{TextTools, Context, Rule}
use duraclaw.Policy.Match.{rule_matches}
use duraclaw.Policy.Engine.{
  Decision, Log, strength, evaluate, Enforced, passed, denied, failed, judge, enforce,
}
use duraclaw.Shared.{
  ◌≤◌, ◌≡◌, ◌≢◌, ◌↔◌, refl, sym, subst, ◌∙◌, inl, inr, ◌⊎◌, arith, Bool, true, false, List, ◌∷◌,
  String, Option, none, some, str_eq, str_eq_iff, keep, All-In, In, In-keep, In-append_right,
  In-of_keep, Bool-cases,
}
use duraclaw.Policy.Engine.Chosen.{FirstOfStrongest, Decides, evaluate-Decides}

-- A rule that matches and denies.
abbrev pub Denying : TextTools → Context → List Rule → Type 0
Denying tools pc rules =
    (r : Rule) × In r rules × (rule_matches tools pc r ≡ true) × (r.action ≡ "deny")

denies_strongest : (a : String) → 4 ≤ strength a → a ≡ "deny"
denies_strongest a l = elim (Bool-cases (str_eq a "deny")) [
  | inl t ↦ (str_eq_iff a "deny").0 t
  | inr f ↦ absurd (ground arith)
]

true_no_false : true ≡ false → ⊥
true_no_false e = cc

allow_no_deny : ◌≡◌ {A = String} "allow" "deny" → ⊥
allow_no_deny e = true_no_false (sym ((str_eq_iff "allow" "deny").1 e))

Decides-denies :
    (tools : TextTools) (pc : Context) (rules : List Rule) (d : Decision)
    → Decides (keep (rule_matches tools pc) rules) d
    → (d.action ≡ "deny") ↔ Denying tools pc rules
Decides-denies tools pc rules d h = (there h.origin, back)
  where
    p : Rule → Bool
    p = rule_matches tools pc

    there :
        ((d.action ≡ "allow") × (d.reason ≡ "")) ⊎ FirstOfStrongest (keep p rules) d
        → d.action ≡ "deny"
        → Denying tools pc rules
    there (inl q) e = absurd (allow_no_deny (sym q.0 ∙ e))
    there (inr (before, r, after, s, a, b, l)) e =
        let m : In r (keep p rules) =
          subst (In r) (sym s) (In-append_right r before (r ∷ after) (inl refl)) in
        (r, (In-of_keep r p rules m).0, (In-of_keep r p rules m).1, sym a ∙ e)

    back : Denying tools pc rules → d.action ≡ "deny"
    back (r, m, t, e) = denies_strongest d.action (
        subst (λ a. strength a ≤ strength d.action) e
          (All-In (λ x. strength x.action ≤ strength d.action) r (keep p rules) h.strongest
            (In-keep r p rules m t)))

-- What the outcome of `Enforce` says of the rules.
abbrev pub Verdict : TextTools → Context → List Rule → Enforced → Type 0
Verdict tools pc rules (passed d) = ¬ Denying tools pc rules
Verdict tools pc rules (denied d t) = Denying tools pc rules
Verdict tools pc rules failed = Unit

-- `Enforce` at a mode that is not empty lets a call pass only if no rule that matches denies, and
-- denies it only if one does, whichever recordings fail.
pub enforce-Verdict :
    (tools : TextTools) (mode : String) (pc : Context) (rules : List Rule) (log : Log)
    → mode ≢ ""
    → Verdict tools pc rules (enforce tools mode pc (some rules) log).0
unfolding enforce
enforce-Verdict tools mode pc rules log n =
    go (evaluate tools mode pc (some rules) log)
      (λ d q. Decides-denies tools pc rules d (evaluate-Decides tools mode pc rules log d n q))
  where
    go :
        (w : Option Decision × Log)
        → ((d : Decision) → w.0 ≡ some d → (d.action ≡ "deny") ↔ Denying tools pc rules)
        → Verdict tools pc rules (judge mode w).0
    go (none, end) h = tt
    go (some d, end) h = elim (Bool-cases (str_eq d.action "deny")) [
      | inl t ↦ rw t ((h d refl).0 ((str_eq_iff d.action "deny").0 t))
      | inr f ↦
          rw f (λ y. true_no_false (sym ((str_eq_iff d.action "deny").1 ((h d refl).1 y)) ∙ f))
    ]
