-- ===== src/Workflow/Validate/Total.antt =====
-- Why a definition is refused, and that the searches end.
use duraclaw.Shared.{
  ◌≡◌, ◌≢◌, refl, sym, subst, inl, inr, true, false, not, List, [], ◌∷◌, String, Option, none, some,
  str_eq, str_eq_iff, contains, In, All, All-In, Bool-cases, arith,
}
use duraclaw.Workflow.Graph.{Node, Graph, node_keys, Reaches, Loops, successors, Arrow-of_successor}
use duraclaw.Workflow.Cycle.{Visit, out_of_fuel, cyclic, clear, has_cycle}
use duraclaw.Workflow.Cycle.Acyclic.{has_cycle-clear}
use duraclaw.Workflow.Cycle.Found.{has_cycle-cyclic}
use duraclaw.Workflow.Cycle.Fuel.{has_cycle_lasts}
use duraclaw.Workflow.Reach.{reachable_from}
use duraclaw.Workflow.Reach.Laws.{reachable_from_iff, reachable_from_lasts}
use duraclaw.Workflow.Unseen.{unseen-le-length}
use duraclaw.Workflow.Terminal.{can_reach_terminal}
use duraclaw.Workflow.Terminal.Laws.{can_reach_terminal_acyclic}
use duraclaw.Workflow.Validate.{
  GraphError, no_nodes, no_start, cyclic_graph, unreachable, ok, err, ◌>>=◌, ◌>>◌, scan_nodes,
  or_root, require, check_edges, no_cycle, or_spent, check_nodes, is_empty, fuel_for,
  validate_graph,
}
use duraclaw.Workflow.Validate.Start.{scan_nodes-In, or_root-In}
use duraclaw.Workflow.Validate.Sound.{require_ok, check_edges-ok, spent_ok, no_cycle_ok, named}
use duraclaw.Workflow.Validate.Refusals.{
  Reason, bind_err, require_err, scan_nodes-ScanFails, scan_Reason, edge_Reason, not_In,
}

-- The edges that passed lead from keys of nodes to keys of nodes.
successors_stay :
    (g : Graph)
    → All (λ e. In e.from_key (node_keys g.nodes) × In e.to_key (node_keys g.nodes)) g.edges
    → (k s : String) → In k (node_keys g.nodes)
    → In s (successors g k)
    → In s (node_keys g.nodes)
successors_stay g all k s m i =
    let a = Arrow-of_successor g k s i in
    subst (λ x. In x (node_keys g.nodes)) a.to_there (All-In _ a.edge g.edges all a.present).1

cycle_Reason :
    (g : Graph)
    → All (λ e. In e.from_key (node_keys g.nodes) × In e.to_key (node_keys g.nodes)) g.edges
    → (v : Visit) → has_cycle (fuel_for g) g (node_keys g.nodes) ≡ v
    → (x : GraphError) → no_cycle v ≡ err x
    → Reason g x
cycle_Reason g all out_of_fuel q x h =
    absurd
      (has_cycle_lasts (node_keys g.nodes) g (successors_stay g all) (fuel_for g) (omega arith) q)
cycle_Reason g all cyclic q x h =
    subst (Reason g) {x = cyclic_graph} {y = x} (cc)
      (has_cycle-cyclic (fuel_for g) g (node_keys g.nodes) q)
cycle_Reason g all (clear w) q x h = absurd (cc)

-- What the last loop refuses, in a graph that passed the checks before it.
check_nodes-err :
    (g : Graph) (reachable : List String)
    → All (λ e. In e.from_key (node_keys g.nodes) × In e.to_key (node_keys g.nodes)) g.edges
    → ((k : String) → In k (node_keys g.nodes) → ¬ Loops g k)
    → (ns : List Node) → ((k : String) → In k (node_keys ns) → In k (node_keys g.nodes))
    → (x : GraphError) → check_nodes (fuel_for g) g reachable ns ≡ err x
    → (k : String) × In k (node_keys ns) × (x ≡ unreachable k) × (contains reachable k ≡ false)
unfolding check_nodes
check_nodes-err g reachable all acyclic [] sub x h = absurd (cc)
check_nodes-err g reachable all acyclic (n ∷ ns) sub x h =
    elim (Bool-cases (contains reachable n.node_key)) [
      | inr r ↦ (n.node_key, inl refl, ground arith, r)
      | inl r ↦
          let (k, i, q, f) =
            check_nodes-err g reachable all acyclic ns (λ k i. sub k (inr i)) x
              (rw (r, ends) at h) in
          (k, inr i, q, f)
    ]
  where
    ends : can_reach_terminal (fuel_for g) n.node_key g [] ≡ some true
    ends =
        can_reach_terminal_acyclic (node_keys g.nodes) g (successors_stay g all) acyclic
          (fuel_for g) n.node_key [] (sub n.node_key (inl refl)) (λ x m. absurd m)
          (omega (arith, unseen-le-length (contains []) (node_keys g.nodes)))

spent_err {ℓ} : {A : Type ℓ} (o : Option A) {x : GraphError} → or_spent o ≡ err x → o ≡ none
spent_err none e = refl
spent_err (some a) e = absurd (cc)

is_empty-nil : (ns : List Node) → not (is_empty ns) ≡ false → ns ≡ []
is_empty-nil [] h = refl
is_empty-nil (n ∷ ns) h = absurd (cc)

-- The last three checks, of a graph whose edges are in order.
searches_Reason :
    (g : Graph) (declared : String) (x : GraphError)
    → scan_nodes "" g.nodes ≡ ok declared
    → or_root g declared ≢ ""
    → All (λ e. In e.from_key (node_keys g.nodes) × In e.to_key (node_keys g.nodes)) g.edges
    → (no_cycle (has_cycle (fuel_for g) g (node_keys g.nodes))
        >> (or_spent (reachable_from (fuel_for g) (or_root g declared) g) >>= λ reachable.
            check_nodes (fuel_for g) g reachable g.nodes >> ok (or_root g declared)))
      ≡ err x
    → Reason g x
searches_Reason g declared x b is_named all e =
    elim (bind_err (no_cycle (has_cycle (fuel_for g) g (node_keys g.nodes))) _ e) [
      | inl h ↦ cycle_Reason g all _ refl x h
      | inr (u, f, e₁) ↦ elim (bind_err (or_spent (reachable_from (fuel_for g) start g)) _ e₁) [
        | inl h ↦ absurd (
            reachable_from_lasts (node_keys g.nodes) g (successors_stay g all) (fuel_for g) start
              (or_root-In g declared (scan_nodes-In "" declared g.nodes b) is_named) (omega arith)
              (spent_err _ h))
        | inr (reachable, r, e₂) ↦
            elim (bind_err (check_nodes (fuel_for g) g reachable g.nodes) _ e₂) [
              | inr (u₁, n, e₃) ↦ absurd (cc)
              | inl h ↦ refused reachable (spent_ok _ r) (
                  check_nodes-err g reachable all (acyclic (no_cycle_ok _ f)) g.nodes (λ k i. i) x
                    h)
            ]
      ]
    ]
  where
    start : String
    start = or_root g declared

    acyclic :
        (w : _) × (has_cycle (fuel_for g) g (node_keys g.nodes) ≡ clear w)
        → (k : String) → In k (node_keys g.nodes)
        → ¬ Loops g k
    acyclic (w, q) k = has_cycle-clear (fuel_for g) g (node_keys g.nodes) w k q

    refused :
        (reachable : List String)
        → reachable_from (fuel_for g) start g ≡ some reachable
        → (k : String) × In k (node_keys g.nodes)
          × (x ≡ unreachable k)
          × (contains reachable k ≡ false)
        → Reason g x
    refused reachable r (k, i, q, f) = subst (Reason g) (sym q) (
      i,
      λ other o p.
          not_In reachable k f
            ((reachable_from_iff (fuel_for g) start g reachable k r).1 (from_start other o p)),
    )
      where
        from_start :
            (other : String)
            → scan_nodes "" g.nodes ≡ ok other
            → Reaches g (or_root g other) k
            → Reaches g start k
        from_start other o p =
            subst (λ d. Reaches g (or_root g d) k) {x = other} {y = declared} (cc) p

-- A definition that `validateGraph` refuses has what the error says (no nodes, two start nodes, no start,
-- a cycle, an unsupported type, an edge from or to a missing key, a node that is not reachable); the
-- searches never run out of fuel, and no refusal says that a node has no end.
pub validate_graph-Reason : (g : Graph) (x : GraphError) → validate_graph g ≡ err x → Reason g x
unfolding validate_graph
validate_graph-Reason g x e = elim (bind_err (require (not (is_empty g.nodes)) no_nodes) _ e) [
  | inl h ↦ empty (require_err _ _ x h)
  | inr (u, a, e₁) ↦ elim (bind_err (scan_nodes "" g.nodes) _ e₁) [
    | inl h ↦ scan_Reason g x (scan_nodes-ScanFails "" g.nodes x h)
    | inr (declared, b, e₂) ↦
        elim (bind_err (require (not (str_eq (or_root g declared) "")) no_start) _ e₂) [
          | inl h ↦ unnamed declared b (require_err _ _ x h)
          | inr (u₁, c, e₃) ↦ elim (bind_err (check_edges (node_keys g.nodes) g.edges) _ e₃) [
            | inl h ↦ edge_Reason g x h
            | inr (u₂, d, e₄) ↦
                searches_Reason g declared x b (named _ (require_ok _ _ c))
                  (check_edges-ok (node_keys g.nodes) g.edges d) e₄
          ]
        ]
  ]
]
  where
    empty : (not (is_empty g.nodes) ≡ false) × (x ≡ no_nodes) → Reason g x
    empty (h, q) = subst (Reason g) (sym q) (is_empty-nil g.nodes h)

    unnamed :
        (declared : String)
        → scan_nodes "" g.nodes ≡ ok declared
        → (not (str_eq (or_root g declared) "") ≡ false) × (x ≡ no_start)
        → Reason g x
    unnamed declared b (h, q) =
        subst (Reason g) (sym q) (declared, b, ground (arith, str_eq_iff (or_root g declared) ""))
