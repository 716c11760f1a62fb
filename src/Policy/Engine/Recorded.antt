-- ===== src/Policy/Engine/Recorded.antt =====
-- What an evaluation records.
use duraclaw.Policy.{TextTools, Context, Rule}
use duraclaw.Policy.Match.{rule_matches}
use duraclaw.Policy.Engine.{
  Decision, Evaluation, Log, allow, evaluation_of, insert, record_evaluation, reason_of, add_rule,
  stronger_decision, then_rules, evaluate_rules, close, evaluate,
}
use duraclaw.Policy.Engine.Chosen.{evaluate_rules-Decides}
use duraclaw.Shared.{
  ◌≡◌, ◌≢◌, refl, sym, ap, subst, ◌∙◌, inl, inr, ◌⊎◌, Bool, true, false, List, [], ◌∷◌, String,
  Option, none, some, str_eq, str_eq_iff, keep, Bool-cases,
}

module _ (tools : TextTools) (mode : String) (pc : Context) where
  abbrev pub evaluation_for : Rule → Evaluation
  evaluation_for r = evaluation_of tools mode pc r.policy_pack_id r.id r.action (reason_of r)

  -- The evaluations of rules, one for each, on top of those that are there.
  abbrev pub trail : List Rule → List Evaluation → List Evaluation
  trail [] before = before
  trail (r ∷ rs) before = trail rs (evaluation_for r ∷ before)

  abbrev pub unmatched : Evaluation
  unmatched = evaluation_of tools mode pc "" "" "allow" "no matching policy rule"

  insert_works :
      (ev : Evaluation) (bs : List Bool) (log : Log) (u : Unit {0})
      → (insert ev bs log).0 ≡ some u
      → (insert ev bs log).1.evaluations ≡ ev ∷ log.evaluations
  insert_works ev [] log u e = refl
  insert_works ev (true ∷ bs) log u e = absurd (cc)
  insert_works ev (false ∷ bs) log u e = refl

  evaluate_rules-trail :
      (rules : List Rule) (d e : Decision) (log after : Log)
      → evaluate_rules tools mode pc rules d log ≡ (some e, after)
      → after.evaluations ≡ trail (keep (rule_matches tools pc) rules) log.evaluations
  unfolding evaluate_rules record_evaluation
  evaluate_rules-trail [] d e log after q =
      ap (λ (w : Option Decision × Log). w.1.evaluations) (sym q)
  evaluate_rules-trail (r ∷ rules) d e log after q = elim (Bool-cases (rule_matches tools pc r)) [
    | inr f ↦ rw f (evaluate_rules-trail rules d e log after (rw f at q))
    | inl t ↦ rw t (
        go (λ v p. evaluate_rules-trail rules next e v after p)
          (insert (evaluation_for r) log.faults log) refl (rw t at q))
  ]
    where
      next : Decision
      next = stronger_decision (add_rule d r) r.action (reason_of r)

      go :
          ((v : Log)
            → evaluate_rules tools mode pc rules next v ≡ (some e, after)
            → after.evaluations ≡ trail (keep (rule_matches tools pc) rules) v.evaluations)
          → (w : Option (Unit {0}) × Log) → insert (evaluation_for r) log.faults log ≡ w
          → then_rules w (λ v. evaluate_rules tools mode pc rules next v) ≡ (some e, after)
          → after.evaluations
            ≡ trail (keep (rule_matches tools pc) rules) (evaluation_for r ∷ log.evaluations)
      go rest (none, v) i p = absurd (cc)
      go rest (some u, v) i p =
          rest v p
          ∙ ap (trail (keep (rule_matches tools pc) rules)) (
              sym (ap (λ (w : Option (Unit {0}) × Log). w.1.evaluations) i)
              ∙ insert_works (evaluation_for r) log.faults log u
                  (ap (λ (w : Option (Unit {0}) × Log). w.0) i))

-- What is on the log after an evaluation that gives a decision: one evaluation for each rule that
-- matches, or one that says that none does, unless that last recording failed.
abbrev pub Trailed :
    TextTools → String → Context → List Rule → List Evaluation → List Evaluation → Type 0
Trailed tools mode pc [] before after =
    (after ≡ unmatched tools mode pc ∷ before) ⊎ (after ≡ before)
Trailed tools mode pc (r ∷ rs) before after = after ≡ trail tools mode pc (r ∷ rs) before

unmatched_case :
    (tools : TextTools) (mode : String) (pc : Context) (bs : List Bool) (log : Log)
    → Trailed tools mode pc [] log.evaluations
        (insert (unmatched tools mode pc) bs log).1.evaluations
unmatched_case tools mode pc [] log = inl refl
unmatched_case tools mode pc (true ∷ bs) log = inr refl
unmatched_case tools mode pc (false ∷ bs) log = inl refl

close-Trailed :
    (tools : TextTools) (mode : String) (pc : Context) (ms : List Rule) (before : List Evaluation)
    (x d : Decision) (v after : Log)
    → x.matched_rules ≡ ms
    → v.evaluations ≡ trail tools mode pc ms before
    → close tools mode pc (some x, v) ≡ (some d, after)
    → Trailed tools mode pc ms before after.evaluations
unfolding record_evaluation
close-Trailed tools mode pc [] before x d v after m t q =
    subst (λ (w : Option Decision × Log). Trailed tools mode pc [] before w.1.evaluations)
      (rw (m, close) at q)
      (subst
        (λ b.
          Trailed tools mode pc [] b (insert (unmatched tools mode pc) v.faults v).1.evaluations)
        t (unmatched_case tools mode pc v.faults v))
close-Trailed tools mode pc (r ∷ rs) before x d v after m t q =
    ap (λ (w : Option Decision × Log). w.1.evaluations) (sym (rw (m, close) at q)) ∙ t

-- Whenever `Evaluate` gives a decision for a mode that is not empty, it has recorded one evaluation for
-- each rule that matches, in their order, with the rule's action and the redacted context; where none
-- matches, one that says so, or nothing if that recording failed.
pub evaluate-Trailed :
    (tools : TextTools) (mode : String) (pc : Context) (rules : List Rule) (log : Log)
    (d : Decision) (after : Log)
    → mode ≢ ""
    → evaluate tools mode pc (some rules) log ≡ (some d, after)
    → Trailed tools mode pc (keep (rule_matches tools pc) rules) log.evaluations after.evaluations
unfolding evaluate
evaluate-Trailed tools mode pc rules log d after n q = elim (Bool-cases (str_eq mode "")) [
  | inl t ↦ absurd (n ((str_eq_iff mode "").0 t))
  | inr f ↦ go (evaluate_rules tools mode pc rules allow log) refl (rw f at q)
]
  where
    go :
        (w : Option Decision × Log)
        → evaluate_rules tools mode pc rules allow log ≡ w
        → close tools mode pc w ≡ (some d, after)
        → Trailed tools mode pc
            (keep (rule_matches tools pc) rules)
            log.evaluations
            after.evaluations
    go (none, v) e p = absurd (cc)
    go (some x, v) e p =
        let made =
          evaluate_rules-Decides tools mode pc rules [] allow x log v
            (record {
              rules = refl;
              instructions = refl;
              strongest = tt;
              origin = inl (refl, refl);
            })
            e in
        close-Trailed tools mode pc (keep (rule_matches tools pc) rules) log.evaluations x d v after
          made.rules (evaluate_rules-trail tools mode pc rules allow x log v e) p
