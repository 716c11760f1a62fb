-- ===== src/Policy/Engine/Chosen.antt =====
-- The decision of an evaluation.
use duraclaw.Json.{is_blank}
use duraclaw.Policy.{TextTools, Context, Rule}
use duraclaw.Policy.Match.{rule_matches}
use duraclaw.Policy.Engine.{
  Decision, Log, strength, stronger_decision, allow, record_evaluation, reason_of, add_rule,
  then_rules, evaluate_rules, close, evaluate,
}
use duraclaw.Shared.{
  append_assoc, append_nil, ◌≤◌, ◌<◌, ◌≡◌, ◌≢◌, refl, sym, ap, subst, ◌∙◌, inl, inr, ◌⊎◌, arith,
  List, [], ◌∷◌, ◌++◌, String, Option, none, some, str_eq, str_eq_iff, ltb, keep, All, Bool-cases,
  if◌then◌else◌,
}

All-snoc :
    {A : Type 0} (P : A → Type 0) (xs : List A) (a : A) → All P xs → P a → All P (xs ++ a ∷ [])
All-snoc P [] a h p = (p, tt)
All-snoc P (x ∷ xs) a h p = (h.0, All-snoc P xs a h.1 p)

All-weaken :
    {A : Type 0} (P Q : A → Type 0) (xs : List A) → ((a : A) → P a → Q a) → All P xs → All Q xs
All-weaken P Q [] f h = tt
All-weaken P Q (x ∷ xs) f h = (f x h.0, All-weaken P Q xs f h.1)

-- The instructions of rules, the blank ones left out.
abbrev pub instructions_of : List Rule → List String
instructions_of [] = []
instructions_of (r ∷ rs) =
    if is_blank r.instruction_text
    then instructions_of rs
    else r.instruction_text ∷ instructions_of rs

instructions-snoc :
    (rs : List Rule) (r : Rule)
    → instructions_of (rs ++ r ∷ []) ≡ (
        if is_blank r.instruction_text
        then instructions_of rs
        else instructions_of rs ++ r.instruction_text ∷ [])
instructions-snoc [] r = elim (Bool-cases (is_blank r.instruction_text)) [
  | inl t ↦ rw t refl
  | inr f ↦ rw f refl
]
instructions-snoc (x ∷ rs) r = elim (Bool-cases (is_blank x.instruction_text)) [
  | inl t ↦ rw t (instructions-snoc rs r)
  | inr f ↦
      let rest = instructions-snoc rs r in
      elim (Bool-cases (is_blank r.instruction_text)) [
        | inl g ↦ rw (f, g) (ap (λ l. x.instruction_text ∷ l) (rw g at rest))
        | inr g ↦ rw (f, g) (ap (λ l. x.instruction_text ∷ l) (rw g at rest))
      ]
]

-- The first of the strongest of some rules.
abbrev pub FirstOfStrongest : List Rule → Decision → Type 0
FirstOfStrongest ms d =
    (before : List Rule) × (r : Rule) × (after : List Rule) × (ms ≡ before ++ r ∷ after)
    × (d.action ≡ r.action)
    × (d.reason ≡ reason_of r)
    × All (λ x. strength x.action < strength r.action) before

-- A decision that the rules `ms` lead to: no rule is stronger, and it is that of the first of the
-- strongest, or to allow without a reason where all are of the least strength.
pub record Decides (ms : List Rule) (d : Decision) : Type 0 where
  pub rules : d.matched_rules ≡ ms
  pub instructions : d.instructions ≡ instructions_of ms
  pub strongest : All (λ x. strength x.action ≤ strength d.action) ms
  pub origin : ((d.action ≡ "allow") × (d.reason ≡ "")) ⊎ FirstOfStrongest ms d

-- One more rule.
Decides-snoc :
    (ms : List Rule) (d : Decision) (r : Rule)
    → Decides ms d
    → Decides (ms ++ r ∷ []) (stronger_decision (add_rule d r) r.action (reason_of r))
Decides-snoc ms d r h = elim (Bool-cases (ltb (strength d.action) (strength r.action))) [
  | inl t ↦ rw t (record {
    rules = ap (λ l. l ++ r ∷ []) h.rules;
    instructions = texts;
    strongest =
        All-snoc (λ x. strength x.action ≤ strength r.action) ms r
          (All-weaken (λ x. strength x.action ≤ strength d.action)
            (λ x. strength x.action ≤ strength r.action) ms (λ x l. ground arith) h.strongest)
          (ground arith);
    origin = inr (
      ms,
      r,
      [],
      refl,
      refl,
      refl,
      All-weaken (λ x. strength x.action ≤ strength d.action)
          (λ x. strength x.action < strength r.action) ms (λ x l. ground arith) h.strongest,
    );
  })
  | inr f ↦ rw f (record {
    rules = ap (λ l. l ++ r ∷ []) h.rules;
    instructions = texts;
    strongest =
        All-snoc (λ x. strength x.action ≤ strength d.action) ms r h.strongest (ground arith);
    origin = kept h.origin;
  })
]
  where
    texts : (add_rule d r).instructions ≡ instructions_of (ms ++ r ∷ [])
    texts =
        ap (λ l. if is_blank r.instruction_text then l else l ++ r.instruction_text ∷ [])
          h.instructions
        ∙ sym (instructions-snoc ms r)

    kept :
        ((d.action ≡ "allow") × (d.reason ≡ "")) ⊎ FirstOfStrongest ms d
        → ((d.action ≡ "allow") × (d.reason ≡ "")) ⊎ FirstOfStrongest (ms ++ r ∷ []) (add_rule d r)
    kept (inl q) = inl q
    kept (inr (before, s, after, e, a, b, l)) = inr (
      before,
      s,
      after ++ r ∷ [],
      ap (λ x. x ++ r ∷ []) e ∙ append_assoc before (s ∷ after) (r ∷ []),
      a,
      b,
      l,
    )

pub evaluate_rules-Decides :
    (tools : TextTools) (mode : String) (pc : Context) (rules ms : List Rule) (d e : Decision)
    (log end : Log)
    → Decides ms d
    → evaluate_rules tools mode pc rules d log ≡ (some e, end)
    → Decides (ms ++ keep (rule_matches tools pc) rules) e
unfolding evaluate_rules
evaluate_rules-Decides tools mode pc [] ms d e log end h q =
    subst (λ l. Decides l e) (sym (append_nil ms)) (subst (Decides ms) {x = d} {y = e} (cc) h)
evaluate_rules-Decides tools mode pc (r ∷ rules) ms d e log end h q =
    elim (Bool-cases (rule_matches tools pc r)) [
      | inr f ↦ rw f (evaluate_rules-Decides tools mode pc rules ms d e log end h (rw f at q))
      | inl t ↦ rw t (
          go
            (λ after p.
              evaluate_rules-Decides tools mode pc rules (ms ++ r ∷ []) next e after end
                (Decides-snoc ms d r h) p)
            (record_evaluation tools mode pc r.policy_pack_id r.id r.action (reason_of r) log)
            (rw t at q))
    ]
  where
    next : Decision
    next = stronger_decision (add_rule d r) r.action (reason_of r)

    go :
        ((after : Log)
          → evaluate_rules tools mode pc rules next after ≡ (some e, end)
          → Decides ((ms ++ r ∷ []) ++ keep (rule_matches tools pc) rules) e)
        → (w : Option (Unit {0}) × Log)
        → then_rules w (λ after. evaluate_rules tools mode pc rules next after) ≡ (some e, end)
        → Decides (ms ++ r ∷ keep (rule_matches tools pc) rules) e
    go rest (none, after) p = absurd (cc)
    go rest (some u, after) p =
        subst (λ l. Decides l e) (append_assoc ms (r ∷ []) (keep (rule_matches tools pc) rules))
          (rest after p)

close_same :
    (tools : TextTools) (mode : String) (pc : Context) (w : Option Decision × Log) (e : Decision)
    (end : Log)
    → close tools mode pc w ≡ (some e, end)
    → w.0 ≡ some e
close_same tools mode pc (none, log) e end q = absurd (cc)
close_same tools mode pc (some d, log) e end q = go d.matched_rules refl
  where
    go : (l : List Rule) → d.matched_rules ≡ l → some d ≡ some e
    go [] m = ap (λ w. w.0) (rw (m, close) at q)
    go (r ∷ rs) m = ap (λ w. w.0) (rw (m, close) at q)

-- Whenever `Evaluate` gives a decision for a mode that is not empty, the matched rules are those that
-- match, in their order, the instructions are theirs, no matched rule is stronger than the decision,
-- and the decision is that of the first of the strongest, or to allow without a reason.
pub evaluate-Decides :
    (tools : TextTools) (mode : String) (pc : Context) (rules : List Rule) (log : Log)
    (d : Decision)
    → mode ≢ ""
    → (evaluate tools mode pc (some rules) log).0 ≡ some d
    → Decides (keep (rule_matches tools pc) rules) d
unfolding evaluate
evaluate-Decides tools mode pc rules log d n q = elim (Bool-cases (str_eq mode "")) [
  | inl t ↦ absurd (n ((str_eq_iff mode "").0 t))
  | inr f ↦ go (evaluate_rules tools mode pc rules allow log) refl (rw f at q)
]
  where
    go :
        (w : Option Decision × Log)
        → evaluate_rules tools mode pc rules allow log ≡ w
        → (close tools mode pc w).0 ≡ some d
        → Decides (keep (rule_matches tools pc) rules) d
    go (none, end) e p = absurd (cc)
    go (some x, end) e p =
        evaluate_rules-Decides tools mode pc rules [] allow d log end
          (record { rules = refl; instructions = refl; strongest = tt; origin = inl (refl, refl) })
          (e
            ∙ ap (λ o. (o, end))
                (close_same tools mode pc (some x, end) d (close tools mode pc (some x, end)).1
                  (ap (λ o. (o, (close tools mode pc (some x, end)).1)) p)))
