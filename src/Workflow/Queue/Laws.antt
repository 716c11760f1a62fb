-- ===== src/Workflow/Queue/Laws.antt =====
-- When a node becomes ready, and what making nodes ready leaves alone.
use duraclaw.Shared.{
  ℕ, ◌+◌, ◌<◌, ◌≡◌, ◌↔◌, refl, inl, inr, ◌⊎◌, true, false, List, [], ◌∷◌, String, contains, In, All,
  Bool-cases, arith,
}
use duraclaw.Workflow.Graph.{Edge, Graph, incoming}
use duraclaw.Workflow.Store.{succeeded, NodeState, label}
use duraclaw.Workflow.Queue.{state_of, has_status, parents_loop, parents_satisfied}

-- An edge that `activationMap` holds.
abbrev pub Active : List String → Edge → Type 0
Active activations e = contains activations (label e.from_key e.to_key) ≡ true

-- The node an edge comes from has succeeded.
abbrev pub FromSucceeded : List NodeState → Edge → Type 0
FromSucceeded states e = has_status succeeded (state_of states e.from_key) ≡ true

module _ (states : List NodeState) (activations : List String) where
  parents_loop_sound :
      (n : ℕ) (es : List Edge)
      → parents_loop states activations n es ≡ true
      → All (λ e. Active activations e → FromSucceeded states e) es
        × ((0 < n) ⊎ ((e : Edge) × In e es × Active activations e))
  unfolding parents_loop
  parents_loop_sound n [] h = (tt, inl (ground arith))
  parents_loop_sound n (e ∷ es) h =
      elim (Bool-cases (contains activations (label e.from_key e.to_key))) [
        | inr c ↦
            let (a, b) = parents_loop_sound n es (rw c at h) in
            ((λ d. cc d, a), elim b [ inl l ↦ inl l | inr (f, i, d) ↦ inr (f, inr i, d) ])
        | inl c ↦ elim (Bool-cases (has_status succeeded (state_of states e.from_key))) [
          | inr t ↦ absurd (ground arith)
          | inl t ↦
              let (a, b) = parents_loop_sound (n + 1) es (rw (c, t) at h) in
              ((λ d. t, a), inr (e, inl refl, c))
        ]
      ]

  parents_loop_complete :
      (n : ℕ) (es : List Edge)
      → All (λ e. Active activations e → FromSucceeded states e) es
      → (0 < n) ⊎ ((e : Edge) × In e es × Active activations e)
      → parents_loop states activations n es ≡ true
  unfolding parents_loop
  parents_loop_complete n [] a (inl h) = ground arith
  parents_loop_complete n [] a (inr (e, i, d)) = absurd i
  parents_loop_complete n (e ∷ es) a h =
      elim (Bool-cases (contains activations (label e.from_key e.to_key))) [
        | inr c ↦ rw c (parents_loop_complete n es a.1 (later c h))
        | inl c ↦ rw (c, a.0 c) (parents_loop_complete (n + 1) es a.1 (inl (omega arith)))
      ]
    where
      later :
          contains activations (label e.from_key e.to_key) ≡ false
          → (0 < n) ⊎ ((f : Edge) × In f (e ∷ es) × Active activations f)
          → (0 < n) ⊎ ((f : Edge) × In f es × Active activations f)
      later c (inl l) = inl l
      later c (inr (f, inr i, d)) = inr (f, i, d)
      later c (inr (f, inl q, d)) = absurd (ground arith)

-- A node has its parents done exactly when some edge into it is active and every active edge into
-- it comes from a node that has succeeded.
pub parents_satisfied_iff :
    (g : Graph) (states : List NodeState) (activations : List String) (k : String)
    → (parents_satisfied g states activations k ≡ true) ↔ (
        All (λ e. Active activations e → FromSucceeded states e) (incoming g k)
        × ((e : Edge) × In e (incoming g k) × Active activations e))
unfolding parents_satisfied
parents_satisfied_iff g states activations k = (
  λ h. some_edge (parents_loop_sound states activations 0 (incoming g k) h),
  λ p. parents_loop_complete states activations 0 (incoming g k) p.0 (inr p.1),
)
  where
    some_edge :
        All (λ e. Active activations e → FromSucceeded states e) (incoming g k)
          × ((0 < 0) ⊎ ((e : Edge) × In e (incoming g k) × Active activations e))
        → All (λ e. Active activations e → FromSucceeded states e) (incoming g k)
          × ((e : Edge) × In e (incoming g k) × Active activations e)
    some_edge (a, inl l) = absurd (omega arith)
    some_edge (a, inr e) = (a, e)
