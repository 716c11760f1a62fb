-- ===== src/Workflow/Rounds/Ready.antt =====
-- The nodes that a round runs are distinct, and are the nodes of queued states.
use duraclaw.Shared.{
  ℕ, zero, suc, ◌≡◌, refl, sym, ap, ◌∙◌, inl, inr, ◌⊎◌, arith, true, false, List, [], ◌∷◌, String,
  some, take, str_eq_iff, str_le, contains, contains→In, In→contains, Bool-cases, In, insert_sorted,
  sort_by, In-of_sort_by, In-of_insert_sorted,
}
use duraclaw.Workflow.Queue.{state_of, with_status, queued_nodes}
use duraclaw.Workflow.Queue.Frame.{state_nodes, Unique, Distinct, state_of_self}
use duraclaw.Workflow.Rounds.{ready_nodes}
use duraclaw.Workflow.Store.{Status, queued, same_status, NodeState}

In-of_take : (n : ℕ) (ks : List String) (k : String) → In k (take n ks) → In k ks
In-of_take zero ks k m = absurd m
In-of_take (suc n) [] k m = absurd m
In-of_take (suc n) (l ∷ ks) k (inl e) = inl e
In-of_take (suc n) (l ∷ ks) k (inr m) = inr (In-of_take n ks k m)

-- A list that another holds lacks what the other lacks.
lacks :
    (xs ys : List String) (k : String)
    → (In k xs → In k ys)
    → contains ys k ≡ false
    → contains xs k ≡ false
lacks xs ys k sub h = elim (Bool-cases (contains xs k)) [
  | inr f ↦ f
  | inl t ↦ absurd (ground (arith, In→contains ys k (sub (contains→In xs k t))))
]

Unique-take : (n : ℕ) (ks : List String) → Unique ks → Unique (take n ks)
Unique-take zero ks u = tt
Unique-take (suc n) [] u = tt
Unique-take (suc n) (k ∷ ks) u =
    (lacks (take n ks) ks k (In-of_take n ks k) u.0, Unique-take n ks u.1)

Unique-insert :
    (x : String) (xs : List String)
    → contains xs x ≡ false
    → Unique xs
    → Unique (insert_sorted str_le x xs)
unfolding insert_sorted
Unique-insert x [] h u = (h, tt)
Unique-insert x (y ∷ xs) h u = elim (Bool-cases (str_le x y)) [
  | inl t ↦ rw t (h, u)
  | inr f ↦ rw f (
    lacks (insert_sorted str_le x xs) (x ∷ xs) y (In-of_insert_sorted str_le y x xs)
        (ground (arith, str_eq_iff x y, str_eq_iff y x)),
    Unique-insert x xs (ground arith) u.1,
  )
]

Unique-sort_by : (xs : List String) → Unique xs → Unique (sort_by str_le xs)
unfolding sort_by
Unique-sort_by [] u = tt
Unique-sort_by (x ∷ xs) u =
    Unique-insert x (sort_by str_le xs)
      (lacks (sort_by str_le xs) xs x (λ m. In-of_sort_by str_le x xs m) u.0)
      (Unique-sort_by xs u.1)

-- A key with a status is that of a state with it.
pub In-with_status :
    (st : Status) (ss : List NodeState) (k : String)
    → In k (with_status st ss)
    → (s : NodeState) × In s ss × (same_status s.status st ≡ true) × (s.node ≡ k)
In-with_status st [] k m = absurd m
In-with_status st (s ∷ ss) k m =
    go (Bool-cases (same_status s.status st)) (λ m. In-with_status st ss k m)
  where
    go :
        (same_status s.status st ≡ true) ⊎ (same_status s.status st ≡ false)
        → (In k (with_status st ss)
            → (r : NodeState) × In r ss × (same_status r.status st ≡ true) × (r.node ≡ k))
        → (r : NodeState) × In r (s ∷ ss) × (same_status r.status st ≡ true) × (r.node ≡ k)
    go (inl t) rest = elim (rw t at m) [
      | inl e ↦ (s, inl refl, t, sym e)
      | inr i ↦ let (r, j, u, q) = rest i in (r, inr j, u, q)
    ]
    go (inr f) rest = let (r, j, u, q) = rest (rw f at m) in (r, inr j, u, q)

In-state_nodes :
    (st : Status) (ss : List NodeState) (k : String)
    → In k (with_status st ss)
    → In k (state_nodes ss)
In-state_nodes st [] k m = absurd m
In-state_nodes st (s ∷ ss) k m = elim (Bool-cases (same_status s.status st)) [
  | inl t ↦ elim (rw t at m) [ inl e ↦ inl e | inr i ↦ inr (In-state_nodes st ss k i) ]
  | inr f ↦ inr (In-state_nodes st ss k (rw f at m))
]

Unique-with_status : (st : Status) (ss : List NodeState) → Distinct ss → Unique (with_status st ss)
Unique-with_status st [] d = tt
Unique-with_status st (s ∷ ss) d = elim (Bool-cases (same_status s.status st)) [
  | inl t ↦ rw t (
    lacks (with_status st ss) (state_nodes ss) s.node (In-state_nodes st ss s.node) d.0,
    Unique-with_status st ss d.1,
  )
  | inr f ↦ rw f (Unique-with_status st ss d.1)
]

pub Unique-ready_nodes : (ss : List NodeState) → Distinct ss → Unique (ready_nodes ss)
unfolding ready_nodes queued_nodes
Unique-ready_nodes ss d =
    Unique-take 4 (sort_by str_le (with_status queued ss))
      (Unique-sort_by (with_status queued ss) (Unique-with_status queued ss d))

pub In-ready_nodes :
    (ss : List NodeState) (k : String)
    → In k (ready_nodes ss)
    → (s : NodeState) × In s ss × (same_status s.status queued ≡ true) × (s.node ≡ k)
unfolding ready_nodes queued_nodes
In-ready_nodes ss k m = In-with_status queued ss k (
    In-of_sort_by str_le k (with_status queued ss)
      (In-of_take 4 (sort_by str_le (with_status queued ss)) k m))

-- Two states of one node are one state.
pub state_unique :
    (ss : List NodeState) (s t : NodeState)
    → Distinct ss
    → In s ss
    → In t ss
    → s.node ≡ t.node
    → s ≡ t
state_unique ss s t d i j e =
    some_inj s t (sym (state_of_self ss s d i) ∙ ap (state_of ss) e ∙ state_of_self ss t d j)
  where
    some_inj : (s t : NodeState) → some s ≡ some t → s ≡ t
    some_inj s t e = cc
