-- ===== src/Workflow/Rounds/Closed.antt =====
-- What every write keeps is kept by a turn of the loop, the running of its nodes apart.
use duraclaw.Json.{object, Fields}
use duraclaw.Shared.{ℕ, List, [], ◌∷◌, Option, none, some, Bool-cases, inl, inr, ◌≡◌, refl}
use duraclaw.Workflow.Activity.{set_all}
use duraclaw.Json.{set_field}
use duraclaw.Workflow.Execute.{NodeResult}
use duraclaw.Workflow.Graph.{Node, Graph}
use duraclaw.Workflow.Queue.{activate_outgoing, mark_skipped}
use duraclaw.Workflow.Queue.Closed.{activate_outgoing-Closed, mark_skipped-Closed}
use duraclaw.Workflow.Rounds.{
  Turn, stop, again, store_error, or_stop, succeeded_output, replay, complete, awaits, settle,
}
use duraclaw.Workflow.Store.{
  succeeded, failed, awaiting_user, NodeState, World, StoreError, Result, ok, err, ignore,
  activation_map, set_workflow_run, set_host_run,
}
use duraclaw.Workflow.Store.Calls.{bind_keeps}
use duraclaw.Workflow.Store.Closed.{
  Closed, activation_map-Closed, set_workflow_run-Closed, set_host_run-Closed, add_event-Closed,
}

-- The loop goes on, if it does, with `n` nodes run.
abbrev pub GoesOn : ℕ → Turn → Type 0
GoesOn n (stop a) = Unit
GoesOn n (again m out) = m ≡ n

pub or_stop_keeps :
    {A : Type 0} (P : World → Type 0) (Q : Turn × World → Type 0) (m : Result A × World)
    (next : A → World → Turn × World)
    → P m.1
    → ((e : StoreError) (v : World) → P v → Q (stop (store_error e), v))
    → ((a : A) (v : World) → P v → Q (next a v))
    → Q (or_stop m next)
or_stop_keeps P Q (ok a, w) next p bad good = good a w p
or_stop_keeps P Q (err e, w) next p bad good = bad e w p

module _ (P : World → Type 0) (c : Closed P) where
  -- `P` after a turn, and the count if the loop goes on.
  abbrev pub Keeps : ℕ → Turn × World → Type 0
  Keeps n r = GoesOn n r.0 × P r.1

  pub replay-Closed :
      (g : Graph) (states : List NodeState) (ns : List Node) (out : Fields) (w : World)
      → P w
      → P (replay g states ns out w).1
  unfolding replay
  replay-Closed g states [] out w p = p
  replay-Closed g states (n ∷ ns) out w p =
      go (λ out v q. replay-Closed g states ns out v q) (succeeded_output states n.node_key) refl
    where
      go :
          ((out : Fields) (v : World) → P v → P (replay g states ns out v).1)
          → (r : Option Fields) → succeeded_output states n.node_key ≡ r
          → P (replay g states (n ∷ ns) out w).1
      go rest none e = rw (e, replay) (rest out w p)
      go rest (some fs) e =
          let next = set_all fs (set_field n.node_key (object fs) out) in
          let q = activate_outgoing-Closed P c g n.node_key fs w p in
          rw (e, replay)
            (bind_keeps P (activate_outgoing g n.node_key fs) (λ _. replay g states ns next) w q
              (λ a r. rest next (activate_outgoing g n.node_key fs w).1 q))

  pub complete-Closed :
      (g : Graph) (states : List NodeState) (n : ℕ) (out : Fields) (w : World)
      → P w
      → Keeps n (complete g states out w)
  unfolding complete
  complete-Closed g states n out w p =
      let v = (activation_map w).1 in
      let q = activation_map-Closed P c w p in
      or_stop_keeps P (Keeps n) (mark_skipped states v) _ (mark_skipped-Closed P c states v q)
        (λ e u r. (tt, r))
        λ a u r.
          or_stop_keeps P (Keeps n) (set_workflow_run succeeded u) _
            (set_workflow_run-Closed P c succeeded u r) (λ e x s. (tt, s)) (λ b x s. (tt, s))

  pub settle-Closed :
      (g : Graph) (n : ℕ) (out : Fields) (rs : List NodeResult) (w : World)
      → P w
      → Keeps n (settle g n out rs w)
  unfolding settle
  settle-Closed g n out [] w p = (refl, p)
  settle-Closed g n out (r ∷ rs) w p = elim (Bool-cases r.is_error) [
    | inl t ↦ elim (Bool-cases r.retry) [
      | inl u ↦ rw (t, u) (settle-Closed g n out rs w p)
      | inr u ↦
          let q = set_workflow_run-Closed P c failed w p in
          rw (t, u) (tt, set_host_run-Closed P c failed (ignore (set_workflow_run failed) w) q)
    ]
    | inr t ↦ elim (Bool-cases (awaits r.state)) [
      | inl u ↦
          let q = set_workflow_run-Closed P c awaiting_user w p in
          let s =
            set_host_run-Closed P c awaiting_user (ignore (set_workflow_run awaiting_user) w) q in
          rw (t, u)
            (
              tt,
              add_event-Closed P c
                  (ignore (set_host_run awaiting_user) (ignore (set_workflow_run awaiting_user) w))
                  s,
            )
      | inr u ↦
          rw (t, u)
            (or_stop_keeps P (Keeps n) (activate_outgoing g r.node r.output w) _
              (activate_outgoing-Closed P c g r.node r.output w p) (λ e v q. (tt, q))
              (λ a v q. settle-Closed g n out rs v q))
    ]
  ]
