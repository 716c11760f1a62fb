-- ===== src/Workflow/Rounds/Attempts.antt =====
-- The loop keeps every node's attempts within its retry policy.
use duraclaw.Json.{object, set_field, Fields}
use duraclaw.Shared.{
  ◌≡◌, refl, sym, ap, subst, ◌∙◌, inl, inr, arith, true, List, [], ◌∷◌, String, Option, none, some,
  In→contains, In,
}
use duraclaw.Workflow.Activity.{set_all}
use duraclaw.Workflow.Execute.{Outside, execute_one, execute_batch, node_or_zero, state_or_zero}
use duraclaw.Workflow.Execute.Bounded.{limit, limit_positive, IsBounded, no_attempts, Rows}
use duraclaw.Workflow.Execute.Attempts.{execute_one-Rows}
use duraclaw.Workflow.Graph.{Node, Graph}
use duraclaw.Workflow.Queue.{activate_outgoing}
use duraclaw.Workflow.Queue.Closed.{activate_outgoing-Closed}
use duraclaw.Workflow.Queue.Frame.{
  state_nodes, Unique, Distinct, Pairs, Readied, made_ready, state_of_self,
  activate_outgoing-Readied,
}
use duraclaw.Workflow.Rounds.{ready_nodes, replay, succeeded_output}
use duraclaw.Workflow.Rounds.Ready.{In-ready_nodes, state_unique}
use duraclaw.Workflow.Rounds.Wake.{update_states-nodes}
use duraclaw.Workflow.Store.{pending, queued, same_status, NodeState, World}
use duraclaw.Workflow.Store.Calls.{bind_keeps}
use duraclaw.Workflow.Store.Closed.{Closed}

-- The states are those of `ks`.
abbrev pub Keyed : List String → World → Type 0
Keyed ks w = state_nodes w.states ≡ ks

pub Keyed-Closed : (ks : List String) → Closed (Keyed ks)
Keyed-Closed ks = record {
  fewer = λ w bs l p. p;
  node_state = λ k st out w p. update_states-nodes k st out w.states ∙ p;
  edge = λ from to w p. p;
  finish = λ id st w p. p;
  run_state = λ st w p. p;
  host_state = λ st w p. p;
}

In-of_Pairs :
    (R : NodeState → NodeState → Type 0) (ss ts : List NodeState) (t : NodeState)
    → Pairs R ss ts
    → In t ts
    → (s : NodeState) × In s ss × R s t
In-of_Pairs R [] [] t p m = absurd m
In-of_Pairs R [] (x ∷ ts) t p m = absurd p
In-of_Pairs R (s ∷ ss) [] t p m = absurd p
In-of_Pairs R (s ∷ ss) (x ∷ ts) t p (inl e) = (s, inl refl, subst (R s) (sym e) p.0)
In-of_Pairs R (s ∷ ss) (x ∷ ts) t p (inr m) =
    let (r, i, h) = In-of_Pairs R ss ts t p.1 m in (r, inr i, h)

-- What a pending state keeps when it is made ready, all rows keep when nodes are.
module _ (g : Graph) (ks : List String) (u : Unique ks) (Q : NodeState → Type 0)
    (ready : (s : NodeState) → Q s → same_status s.status pending ≡ true → Q (made_ready s)) where
  abbrev Good : World → Type 0
  Good w = Keyed ks w × Rows Q w

  readied :
      (states : List NodeState) (acts : List String) (s t : NodeState)
      → Q s
      → Readied g states acts s t
      → Q t
  readied states acts s t q (inl e) = subst Q (sym e) q
  readied states acts s t q (inr (e, p, h)) = subst Q (sym e) (ready s q p)

  pub activate_outgoing-Rows :
      (k : String) (output : Fields) (w : World) → Good w → Good (activate_outgoing g k output w).1
  activate_outgoing-Rows k output w p =
      let v = (activate_outgoing g k output w).1 in
      let r = activate_outgoing-Readied g k output w (subst Unique (sym p.0) u) in
      (
        activate_outgoing-Closed (Keyed ks) (Keyed-Closed ks) g k output w p.0,
        λ t m.
            let (s, i, h) =
              In-of_Pairs (Readied g w.states v.activations) w.states v.states t r m in
            readied w.states v.activations s t (p.1 s i) h,
      )

  pub replay-Rows :
      (states : List NodeState) (ns : List Node) (out : Fields) (w : World)
      → Good w
      → Good (replay g states ns out w).1
  unfolding replay
  replay-Rows states [] out w p = p
  replay-Rows states (n ∷ ns) out w p =
      go (λ out v q. replay-Rows states ns out v q) (succeeded_output states n.node_key) refl
    where
      go :
          ((out : Fields) (v : World) → Good v → Good (replay g states ns out v).1)
          → (r : Option Fields) → succeeded_output states n.node_key ≡ r
          → Good (replay g states (n ∷ ns) out w).1
      go rest none e = rw (e, replay) (rest out w p)
      go rest (some fs) e =
          let next = set_all fs (set_field n.node_key (object fs) out) in
          let q = activate_outgoing-Rows n.node_key fs w p in
          rw (e, replay)
            (bind_keeps Good (activate_outgoing g n.node_key fs) (λ _. replay g states ns next) w q
              (λ a r. rest next (activate_outgoing g n.node_key fs w).1 q))

-- A pending state within its policy stays so when it is made ready.
pub made_ready-IsBounded :
    (g : Graph) (s : NodeState)
    → IsBounded g s
    → same_status s.status pending ≡ true
    → IsBounded g (made_ready s)
unfolding made_ready
made_ready-IsBounded g s b p = (
  b.0,
  b.1,
  (λ q. ground (arith, no_attempts g s b p, limit_positive g s.node)),
  (λ q. absurd (ground arith)),
)

-- The states that a round has read, and the rows that it works on: those of the keys `ks` are still
-- queued with as many attempts, and those that were pending have no attempts yet.
abbrev pub Linked : List NodeState → List String → NodeState → Type 0
Linked states ks t =
    (k : String)
    → In k ks
    → t.node ≡ k
    → (same_status t.status queued ≡ true) × (t.attempts ≡ (state_or_zero states k).attempts)

abbrev pub Untouched : List NodeState → NodeState → Type 0
Untouched states t =
    (s : NodeState)
    → In s states
    → same_status s.status pending ≡ true
    → t.node ≡ s.node
    → t.attempts ≡ 0

abbrev pub Known : Graph → List NodeState → List String → NodeState → Type 0
Known g states ks t = IsBounded g t × Linked states ks t × Untouched states t

module _ (g : Graph) (states : List NodeState) where
  pub made_ready-Known :
      (ks : List String) (s : NodeState)
      → Known g states ks s
      → same_status s.status pending ≡ true
      → Known g states ks (made_ready s)
  unfolding made_ready
  made_ready-Known ks s (b, l, h) p = (
    made_ready-IsBounded g s b p,
    (λ k m e. absurd (ground (arith, (l k m e).0))),
    (λ r i q e. h r i q e),
  )

  Linked-at_first :
      Distinct states → (t : NodeState) → In t states → Linked states (ready_nodes states) t
  Linked-at_first d t i k m e =
      let (s, j, q, f) = In-ready_nodes states k m in
      let same = state_unique states s t d j i (f ∙ sym e) in
      (
        subst (λ x. same_status x.status queued ≡ true) same q,
        subst (λ x. t.attempts ≡ (state_or_zero states x).attempts) e
            (rw (state_of_self states t d i, state_or_zero) refl),
      )

  Untouched-at_first :
      Distinct states
      → ((s : NodeState) → In s states → IsBounded g s)
      → (t : NodeState) → In t states
      → Untouched states t
  Untouched-at_first d b t i s j p e =
      subst (λ x. x.attempts ≡ 0) (state_unique states s t d j i (sym e))
        (no_attempts g s (b s j) p)

  pub Known-at_first :
      Distinct states
      → ((s : NodeState) → In s states → IsBounded g s)
      → (t : NodeState) → In t states
      → Known g states (ready_nodes states) t
  Known-at_first d b t i = (b t i, Linked-at_first d t i, Untouched-at_first d b t i)

  -- The batch, one node after the other.
  pub execute_batch-Rows :
      (o : Outside) (previous : Fields) (ks : List String) (w : World)
      → Unique ks
      → ((k : String) → In k ks → (node_or_zero g k).node_key ≡ k)
      → Rows (λ t. IsBounded g t × Linked states ks t) w
      → Rows (IsBounded g) (execute_batch o g states previous ks w).1
  unfolding execute_batch
  execute_batch-Rows o previous [] w u known h = λ t m. (h t m).0
  execute_batch-Rows o previous (k ∷ ks) w u known h =
      let n = node_or_zero g k in
      let s = state_or_zero states k in
      let key : n.node_key ≡ k = known k (inl refl) in
      execute_batch-Rows o previous ks (execute_one o n s previous w).1 u.1 (λ j m. known j (inr m))
        (execute_one-Rows g n s (Linked states ks) (ap (limit g) key)
          (λ t e j m f. absurd (ground (arith, u.0, In→contains ks j m, key))) o previous w
          (λ t m. (
            ((h t m).0, (λ j i e. (h t m).1 j (inr i) e)),
            (λ e. (h t m).1 k (inl refl) (e ∙ key)),
          )))
