-- ===== src/Workflow/Execute/Attempts.antt =====
-- Running a node keeps the count of its attempts within its retry policy.
use duraclaw.Json.{Json, null, object, Fields}
use duraclaw.Shared.{
  ℕ, ◌+◌, ◌<◌, ◌≡◌, refl, sym, subst, inl, inr, arith, true, false, length, ltb, str_eq_iff,
  Bool-cases,
}
use duraclaw.Workflow.Activity.{Outcome, done, waits, broke, execute_node}
use duraclaw.Workflow.Conditions.{max_attempts}
use duraclaw.Workflow.Graph.{Node, Graph}
use duraclaw.Workflow.Store.{
  Status, pending, queued, running, succeeded, failed, awaiting_user, same_status, NodeState, World,
  ignore, set_node_state, start_node_run, complete_node_run,
}
use duraclaw.Workflow.Execute.{
  Outside, pre_workflow_node, post_workflow_node, give_up, succeed, finish_node, execute_one,
}
use duraclaw.Workflow.Execute.Closed.{or_return_keeps}
use duraclaw.Workflow.Execute.Bounded.{
  limit, IsBounded, below_limit, Rows, changed, set_then, set_Rows, complete_node_run-Rows,
  start_node_run-Rows,
}

-- One run of the node `n` of the graph. `L` is any property that its rows have whatever their status,
-- so that only the rows of other nodes can lose it.
module _ (g : Graph) (n : Node) (s : NodeState) (L : NodeState → Type 0)
    (same : limit g n.node_key ≡ max_attempts n.retry_policy)
    (free : (t : NodeState) → t.node ≡ n.node_key → L t) where
  abbrev After : NodeState → Type 0
  After t = IsBounded g t × L t

  abbrev During : NodeState → Type 0
  During t = After t × (t.node ≡ n.node_key → t.attempts ≡ s.attempts + 1)

  abbrev pub Before : NodeState → Type 0
  Before t =
      After t
      × (t.node ≡ n.node_key → (same_status t.status queued ≡ true) × (t.attempts ≡ s.attempts))

  -- A status that is neither queued, pending nor running asks for nothing.
  abbrev Plain : Status → Type 0
  Plain st =
      (same_status st queued ≡ false)
      × (same_status st pending ≡ false)
      × (same_status st running ≡ false)

  Plain-hit :
      (st : Status) (out : Json)
      → Plain st
      → (t : NodeState) → After t
      → t.node ≡ n.node_key
      → After (changed t st out)
  Plain-hit st out p t a e = (
    (
      a.0.0,
      ground (arith, p),
      (λ q. absurd (ground (arith, p))),
      (λ q. absurd (ground (arith, p))),
    ),
    free (changed t st out) e,
  )

  Plain-set :
      (st : Status) (out : Json) (w : World)
      → Plain st
      → Rows After w
      → Rows After (set_node_state n.node_key st out w).1
  Plain-set st out w p h =
      set_Rows After After n.node_key st out (Plain-hit st out p) (λ t a f. a) w h (λ t a. a)

  give_up-Rows : (id : ℕ) (w : World) → Rows During w → Rows After (give_up n s id w).1
  unfolding give_up
  give_up-Rows id w h =
      let h1 = complete_node_run-Rows During id failed w h in
      let v = (complete_node_run id failed w).1 in
      elim (Bool-cases (ltb (s.attempts + 1) (max_attempts n.retry_policy))) [
        | inl t ↦ rw t (
            set_Rows During After n.node_key queued null
              (λ x d e. (
                (
                  d.0.0.0,
                  ground arith,
                  (λ q.
                      subst (λ a. a < limit g x.node) (sym (d.1 e))
                        (subst (λ k. s.attempts + 1 < limit g k) (sym e) (rw same (ground arith)))),
                  (λ q. absurd (ground arith)),
                ),
                free (changed x queued null) e,
              ))
              (λ x d f. d.0) v h1 (λ x d. d.0))
        | inr f ↦ rw f (Plain-set failed null v (refl, refl, refl) (λ x m. (h1 x m).0))
      ]

  succeed-Rows :
      (o : Outside) (id : ℕ) (out : Fields) (st : Status) (w : World)
      → Plain st
      → Rows After w
      → Rows After (succeed o n id out st w).1
  unfolding succeed
  succeed-Rows o id out st w p h =
      let h1 = complete_node_run-Rows After id st w h in
      let v = (complete_node_run id st w).1 in
      let h2 = Plain-set st (object out) v p h1 in
      let u = (set_node_state n.node_key st (object out) v).1 in
      or_return_keeps (Rows After) (complete_node_run id st w) _ _ h1 λ a.
        or_return_keeps (Rows After) (set_node_state n.node_key st (object out) v) _ _ h2 λ b.
          elim (Bool-cases (o.allows post_workflow_node id n)) [
            | inl t ↦ rw t h2
            | inr f ↦ rw f (
                Plain-set failed (object out) (ignore (complete_node_run id failed) u)
                  (refl, refl, refl) (complete_node_run-Rows After id failed u h2))
          ]

  finish_node-Rows :
      (o : Outside) (id : ℕ) (r : Outcome) (w : World)
      → Rows During w
      → Rows After (finish_node o n s id r w).1
  unfolding finish_node
  finish_node-Rows o id broke w h = give_up-Rows id w h
  finish_node-Rows o id (done out) w h =
      succeed-Rows o id out succeeded w (refl, refl, refl) (λ t m. (h t m).0)
  finish_node-Rows o id (waits out) w h =
      succeed-Rows o id out awaiting_user w (refl, refl, refl) (λ t m. (h t m).0)

  -- From before the run of a queued node, whose row the round has read, to after it.
  pub execute_one-Rows :
      (o : Outside) (previous : Fields) (w : World)
      → Rows Before w
      → Rows After (execute_one o n s previous w).1
  unfolding execute_one
  execute_one-Rows o previous w h =
      elim (Bool-cases (o.allows pre_workflow_node (length w.node_runs) n)) [
        | inr f ↦ rw f (Plain-set failed null w (refl, refl, refl) (λ t m. (h t m).0))
        | inl t ↦ rw t (
            set_then Before During n.node_key running null
              (λ x b e. (
                (
                  (
                    b.0.0.0,
                    ground (arith, below_limit g x b.0.0 (b.1 e).0),
                    (λ q. absurd (ground arith)),
                    (λ q. absurd (ground arith)),
                  ),
                  free (changed x running null) e,
                ),
                (λ e. ground (arith, (b.1 e).1)),
              ))
              (λ x b f. (b.0, (λ e. absurd (ground (arith, (str_eq_iff x.node n.node_key).1 e)))))
              After w _ _ h (λ x b. b.0)
              (λ v d.
                or_return_keeps (Rows After) (start_node_run v) _ _
                  (λ x m. (start_node_run-Rows During v d x m).0)
                  λ id.
                    finish_node-Rows o id (execute_node o.external id n previous)
                      (start_node_run v).1 (start_node_run-Rows During v d)))
      ]
