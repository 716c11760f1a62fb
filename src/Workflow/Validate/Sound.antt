-- ===== src/Workflow/Validate/Sound.antt =====
-- What a definition that passes the checks has.
use duraclaw.Shared.{
  ℕ, ◌≡◌, ◌≢◌, refl, ap, subst, ◌∙◌, inl, inr, ◌⊎◌, Bool, true, false, not, List, [], ◌∷◌, String,
  Option, none, some, str_eq, str_eq_iff, contains, contains→In, In, All, Bool-cases, arith,
}
use duraclaw.Workflow.Graph.{Node, Edge, Graph, node_keys, Reaches, Loops}
use duraclaw.Workflow.Cycle.{Visit, out_of_fuel, cyclic, clear, has_cycle}
use duraclaw.Workflow.Cycle.Acyclic.{has_cycle-clear}
use duraclaw.Workflow.Reach.{reachable_from}
use duraclaw.Workflow.Reach.Laws.{reachable_from_iff}
use duraclaw.Workflow.Terminal.{can_reach_terminal}
use duraclaw.Workflow.Terminal.Laws.{Ends, can_reach_terminal-Ends}
use duraclaw.Workflow.Validate.{
  GraphError, Result, ok, err, ◌>>=◌, supported_node_type, scan_nodes, entered, or_root, require,
  check_edges, no_cycle, or_spent, check_nodes, is_empty, fuel_for, validate_graph,
}
use duraclaw.Workflow.Validate.Start.{
  Starts, scan_nodes-supported, scan_nodes-one, scan_nodes-In, or_root-one, or_root-In,
  or_root_chosen,
}

pub record IsRunnable (g : Graph) (start : String) : Type 0 where
  pub supported : All (λ n. supported_node_type n.node_type ≡ true) g.nodes
  pub one_start : All (λ n. Starts n → n.node_key ≡ start) g.nodes
  pub start_named : start ≢ ""
  pub start_chosen :
      ((n : Node) × In n g.nodes × Starts n × (n.node_key ≡ start))
      ⊎ (entered g.edges start ≡ false)
  pub start_node : In start (node_keys g.nodes)
  pub ends_exist :
      All (λ e. In e.from_key (node_keys g.nodes) × In e.to_key (node_keys g.nodes)) g.edges
  pub acyclic : (k : String) → In k (node_keys g.nodes) → ¬ Loops g k
  pub reachable : All (λ n. Reaches g start n.node_key) g.nodes
  pub terminating : All (λ n. Ends g n.node_key) g.nodes

-- Checks in a row that pass.
pub bind_ok :
    {A B : Type 0} {end : B} (check : Result A) (rest : A → Result B)
    → (check >>= rest) ≡ ok end
    → (value : A) × (check ≡ ok value) × (rest value ≡ ok end)
bind_ok (err x) rest passes = absurd (cc)
bind_ok (ok value) rest passes = (value, refl, passes)

pub require_ok : (b : Bool) (e : GraphError) {u : Unit {0}} → require b e ≡ ok u → b ≡ true
require_ok true e h = refl
require_ok false e h = absurd (cc)

pub check_edges-ok :
    (keys : List String) (es : List Edge) {u : Unit {0}}
    → check_edges keys es ≡ ok u
    → All (λ e. In e.from_key keys × In e.to_key keys) es
unfolding check_edges
check_edges-ok keys [] h = tt
check_edges-ok keys (e ∷ es) h = elim (Bool-cases (contains keys e.from_key)) [
  | inl f ↦ elim (Bool-cases (contains keys e.to_key)) [
    | inl t ↦ (
      (contains→In keys e.from_key f, contains→In keys e.to_key t),
      check_edges-ok keys es (rw (f, t) at h),
    )
    | inr t ↦ absurd (ground arith)
  ]
  | inr f ↦ absurd (ground arith)
]

pub spent_ok {ℓ} : {A : Type ℓ} {a : A} (o : Option A) → or_spent o ≡ ok a → o ≡ some a
spent_ok none e = absurd (cc)
spent_ok (some b) e = cc

check_nodes-ok :
    (fuel : ℕ) (g : Graph) (reachable : List String) (ns : List Node) {u : Unit {0}}
    → check_nodes fuel g reachable ns ≡ ok u
    → All (λ n. In n.node_key reachable × Ends g n.node_key) ns
unfolding check_nodes
check_nodes-ok fuel g reachable [] h = tt
check_nodes-ok fuel g reachable (n ∷ ns) h =
    let (u, r, h₁) = bind_ok (require (contains reachable n.node_key) _) _ h in
    let (ends, o, h₂) = bind_ok (or_spent (can_reach_terminal fuel n.node_key g [])) _ h₁ in
    let (w, t, h₃) = bind_ok (require ends _) _ h₂ in
    (
      (
        contains→In reachable n.node_key (require_ok (contains reachable n.node_key) _ r),
        can_reach_terminal-Ends fuel n.node_key g []
            (spent_ok (can_reach_terminal fuel n.node_key g []) o ∙ ap some (require_ok ends _ t)),
      ),
      check_nodes-ok fuel g reachable ns h₃,
    )

pub no_cycle_ok : (v : Visit) {u : Unit {0}} → no_cycle v ≡ ok u → (w : _) × (v ≡ clear w)
no_cycle_ok out_of_fuel e = absurd (cc)
no_cycle_ok cyclic e = absurd (cc)
no_cycle_ok (clear w) e = (w, refl)

pub named : (start : String) → not (str_eq start "") ≡ true → start ≢ ""
named start h e = ground (arith, str_eq_iff start "")

pub All-map :
    {A : Type 0} (P Q : A → Type 0) (xs : List A) → ((a : A) → P a → Q a) → All P xs → All Q xs
All-map P Q [] f h = tt
All-map P Q (x ∷ xs) f h = (f x h.0, All-map P Q xs f h.1)

-- A definition that `validateGraph` accepts with a start node has only supported node types, that start
-- node as its one declared start (or a key that no edge enters where none is declared), edges between
-- nodes that exist, no cycle, every node reachable from the start, and every node on a way to an end.
pub validate_graph-IsRunnable :
    (g : Graph) (start : String) → validate_graph g ≡ ok start → IsRunnable g start
unfolding validate_graph
validate_graph-IsRunnable g start e =
    let (u₀, a, e₁) = bind_ok (require (not (is_empty g.nodes)) _) _ e in
    let (declared, b, e₂) = bind_ok (scan_nodes "" g.nodes) _ e₁ in
    let (u₁, c, e₃) = bind_ok (require (not (str_eq (or_root g declared) "")) _) _ e₂ in
    let (u₂, d, e₄) = bind_ok (check_edges (node_keys g.nodes) g.edges) _ e₃ in
    let (u₃, f, e₅) = bind_ok (no_cycle (has_cycle (fuel_for g) g (node_keys g.nodes))) _ e₄ in
    let (reachable, r, e₆) =
      bind_ok (or_spent (reachable_from (fuel_for g) (or_root g declared) g)) _ e₅ in
    let (u₄, n, e₇) = bind_ok (check_nodes (fuel_for g) g reachable g.nodes) _ e₆ in
    let chosen : or_root g declared ≡ start = cc e₇ in
    let is_named : or_root g declared ≢ "" = named _ (require_ok _ _ c) in
    let (w, clean) = no_cycle_ok _ f in
    let visited = check_nodes-ok (fuel_for g) g reachable g.nodes n in
    subst (IsRunnable g) chosen (record {
      supported = scan_nodes-supported "" declared g.nodes b;
      one_start = or_root-one g declared g.nodes (scan_nodes-one "" declared g.nodes b);
      start_named = is_named;
      start_chosen = or_root_chosen g declared b is_named;
      start_node = or_root-In g declared (scan_nodes-In "" declared g.nodes b) is_named;
      ends_exist = check_edges-ok (node_keys g.nodes) g.edges d;
      acyclic = λ k. has_cycle-clear (fuel_for g) g (node_keys g.nodes) w k clean;
      reachable =
          All-map _ _ g.nodes
            (λ x h. (reachable_from_iff (fuel_for g) _ g reachable x.node_key (spent_ok _ r)).0 h.0)
            visited;
      terminating = All-map _ _ g.nodes (λ x h. h.1) visited;
    })
