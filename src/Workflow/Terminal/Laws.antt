-- ===== src/Workflow/Terminal/Laws.antt =====
-- A key that the search accepts leads to a terminal node; in a graph without cycles each key does.
use duraclaw.Shared.{
  ℕ, zero, suc, ◌<◌, ◌≡◌, refl, sym, subst, inl, inr, Bool, true, false, List, [], ◌∷◌, String,
  Option, none, some, str_eq_self, contains, contains→In, In, Bool-cases, arith,
}
use duraclaw.Workflow.Graph.{
  Graph, Arrow, Reaches, here, onward, Reaches-trans, Loops, loop, successors, Arrow-of_successor,
}
use duraclaw.Workflow.Unseen.{unseen, unseen_drop}
use duraclaw.Workflow.Terminal.{is_nil, is_terminal, some_child, can_reach_terminal}

-- A terminal node that `k` leads to.
pub record Ends (g : Graph) (k : String) : Type 0 where
  pub last : String
  pub way : Reaches g k last
  pub terminal : is_terminal g last ≡ true

some_child-true :
    (ends : String → Option Bool) (ks : List String)
    → some_child ends ks ≡ some true
    → (k : String) × In k ks × (ends k ≡ some true)
unfolding some_child
some_child-true ends [] e = absurd (cc)
some_child-true ends (k ∷ ks) e = go (some_child-true ends ks) (ends k) refl
  where
    go :
        (some_child ends ks ≡ some true → (k : String) × In k ks × (ends k ≡ some true))
        → (o : Option Bool) → ends k ≡ o
        → (l : String) × In l (k ∷ ks) × (ends l ≡ some true)
    go later none q = absurd (ground arith)
    go later (some true) q = (k, inl refl, q)
    go later (some false) q = let (l, i, r) = later (rw (q, some_child) at e) in (l, inr i, r)

-- `true` is given for a key that leads to a terminal node only.
pub can_reach_terminal-Ends :
    (fuel : ℕ) (k : String) (g : Graph) (seen : List String)
    → can_reach_terminal fuel k g seen ≡ some true
    → Ends g k
unfolding can_reach_terminal
can_reach_terminal-Ends zero k g seen e = absurd (cc)
can_reach_terminal-Ends (suc fuel) k g seen e = elim (Bool-cases (contains seen k)) [
  | inl c ↦ absurd (ground arith)
  | inr c ↦ elim (Bool-cases (is_terminal g k)) [
    | inl t ↦ record { last = k; way = here; terminal = t }
    | inr t ↦
        let (s, i, q) =
          some_child-true (λ s. can_reach_terminal fuel s g (k ∷ seen)) (successors g k)
            (rw (c, t) at e) in
        further s i (can_reach_terminal-Ends fuel s g (k ∷ seen) q)
  ]
]
  where
    further : (s : String) → In s (successors g k) → Ends g s → Ends g k
    further s i h = record {
      last = h.last;
      way = Reaches-trans (onward here (Arrow-of_successor g k s i)) h.way;
      terminal = h.terminal;
    }

-- Every key of `seen` leads to `k` by one edge or more.
abbrev Behind : Graph → List String → String → Type 0
Behind g seen k = (x : String) → In x seen → (l : String) × Arrow g x l × Reaches g l k

Behind-next :
    (g : Graph) (seen : List String) (k s : String)
    → Behind g seen k
    → Arrow g k s
    → Behind g (k ∷ seen) s
Behind-next g seen k s b a x (inl q) = (s, subst (λ y. Arrow g y s) (sym q) a, here)
Behind-next g seen k s b a x (inr m) = let (l, f, r) = b x m in (l, f, onward r a)

some_child_all :
    (ends : String → Option Bool) (ks : List String)
    → is_nil ks ≡ false
    → ((s : String) → In s ks → ends s ≡ some true)
    → some_child ends ks ≡ some true
unfolding some_child
some_child_all ends [] n all = absurd (cc)
some_child_all ends (k ∷ ks) n all = rw (all k (inl refl), some_child)

not_terminal : (g : Graph) (k : String) → is_terminal g k ≡ false → is_nil (successors g k) ≡ false
unfolding is_terminal
not_terminal g k t = ground arith

-- In a graph without cycles, with fuel beyond the number of keys, every key is accepted.
pub can_reach_terminal_acyclic :
    (us : List String) (g : Graph)
    → ((k s : String) → In k us → In s (successors g k) → In s us)
    → ((k : String) → In k us → ¬ Loops g k)
    → (fuel : ℕ) (k : String) (seen : List String) → In k us
    → Behind g seen k
    → unseen (contains seen) us < fuel
    → can_reach_terminal fuel k g seen ≡ some true
unfolding can_reach_terminal
can_reach_terminal_acyclic us g closed acyclic zero k seen m b h = elim h [ ]
can_reach_terminal_acyclic us g closed acyclic (suc fuel) k seen m b h =
    elim (Bool-cases (contains seen k)) [
      | inl c ↦ absurd (looped (b k (contains→In seen k c)))
      | inr c ↦ elim (Bool-cases (is_terminal g k)) [
        | inl t ↦ rw (c, t)
        | inr t ↦
            rw (c, t)
              (some_child_all _ (successors g k) (not_terminal g k t) λ s i.
                can_reach_terminal_acyclic us g closed acyclic fuel s (k ∷ seen) (closed k s m i)
                  (Behind-next g seen k s b (Arrow-of_successor g k s i)) (omega (arith, drops c)))
      ]
    ]
  where
    looped : (l : String) × Arrow g k l × Reaches g l k → ⊥
    looped (l, a, r) = acyclic k m (loop l a r)

    drops : contains seen k ≡ false → unseen (contains (k ∷ seen)) us < unseen (contains seen) us
    drops c =
        unseen_drop (contains seen) (contains (k ∷ seen)) (λ x s. ground arith) us k m c
          (ground (arith, str_eq_self k))
