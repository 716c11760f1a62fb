-- ===== src/Workflow/Validate/Refusals.antt =====
-- What each refusal of `validateGraph` says, and the refusals of the first two loops.
use duraclaw.Shared.{
  ◌≡◌, ◌≢◌, refl, sym, ap, subst, inl, inr, ◌⊎◌, Bool, true, false, List, [], ◌∷◌, ◌++◌, String,
  str_eq, str_eq_iff, contains, In→contains, In, Bool-cases, arith,
}
use duraclaw.Workflow.Graph.{Node, Edge, Graph, node_keys, Reaches, Loops}
use duraclaw.Workflow.Validate.{
  GraphError, no_nodes, multiple_starts, no_start, cyclic_graph, fuel_spent, unsupported_type,
  missing_from, missing_to, unreachable, no_terminal, Result, ok, err, ◌>>=◌, supported_node_type,
  scan_nodes, or_root, require, check_edges,
}

-- Two start nodes, one after the other, the first with a key.
pub record TwoStarts (ns : List Node) : Type 0 where
  pub before : List Node
  pub first : Node
  pub after : List Node
  pub split : ns ≡ before ++ first ∷ after
  pub second : Node
  pub second_in : In second after
  pub first_starts : str_eq first.node_type "start" ≡ true
  pub second_starts : str_eq second.node_type "start" ≡ true
  pub first_named : first.node_key ≢ ""

-- What each refusal says of the graph. Two refusals never happen: the searches do not run out of
-- fuel, and a graph without cycles has a terminal node on every way.
abbrev pub Reason : Graph → GraphError → Type 0
Reason g no_nodes = g.nodes ≡ []
Reason g multiple_starts = TwoStarts g.nodes
Reason g no_start =
    (declared : String) × (scan_nodes "" g.nodes ≡ ok declared) × (or_root g declared ≡ "")
Reason g cyclic_graph = (k : String) × Loops g k
Reason g fuel_spent = ⊥
Reason g (unsupported_type t) =
    (n : Node) × In n g.nodes × (n.node_type ≡ t) × (supported_node_type t ≡ false)
Reason g (missing_from k) =
    (e : Edge) × In e g.edges × (e.from_key ≡ k) × ¬ In k (node_keys g.nodes)
Reason g (missing_to k) = (e : Edge) × In e g.edges × (e.to_key ≡ k) × ¬ In k (node_keys g.nodes)
Reason g (unreachable k) =
    In k (node_keys g.nodes)
    × ((declared : String)
        → scan_nodes "" g.nodes ≡ ok declared
        → ¬ Reaches g (or_root g declared) k)
Reason g (no_terminal k) = ⊥

-- Checks in a row that refuse.
pub bind_err :
    {A B : Type 0} {x : GraphError} (check : Result A) (rest : A → Result B)
    → (check >>= rest) ≡ err x
    → (check ≡ err x) ⊎ ((value : A) × (check ≡ ok value) × (rest value ≡ err x))
bind_err (err y) rest refused = inl (cc)
bind_err (ok value) rest refused = inr (value, refl, refused)

pub require_err : (b : Bool) (e x : GraphError) → require b e ≡ err x → (b ≡ false) × (x ≡ e)
require_err true e x h = absurd (cc)
require_err false e x h = (refl, cc)

-- What the first loop refuses, once it has passed a start node of key `start`.
pub data ScanFails (start : String) (ns : List Node) (x : GraphError) : Type 0 where
  unsupported :
      (n : Node)
      → In n ns
      → supported_node_type n.node_type ≡ false
      → x ≡ unsupported_type n.node_type
      → ScanFails start ns x
  another_start :
      (n : Node)
      → In n ns
      → str_eq n.node_type "start" ≡ true
      → start ≢ ""
      → x ≡ multiple_starts
      → ScanFails start ns x
  two_starts : TwoStarts ns → x ≡ multiple_starts → ScanFails start ns x

TwoStarts-cons : (n : Node) (ns : List Node) → TwoStarts ns → TwoStarts (n ∷ ns)
TwoStarts-cons n ns t = record {
  before = n ∷ t.before;
  first = t.first;
  after = t.after;
  split = ap (◌∷◌ n) t.split;
  second = t.second;
  second_in = t.second_in;
  first_starts = t.first_starts;
  second_starts = t.second_starts;
  first_named = t.first_named;
}

ScanFails-pass :
    (start : String) (n : Node) (ns : List Node) (x : GraphError)
    → ScanFails start ns x
    → ScanFails start (n ∷ ns) x
ScanFails-pass start n ns x (unsupported m i s q) = unsupported m (inr i) s q
ScanFails-pass start n ns x (another_start m i t h q) = another_start m (inr i) t h q
ScanFails-pass start n ns x (two_starts t q) = two_starts (TwoStarts-cons n ns t) q

ScanFails-start :
    (start : String) (n : Node) (ns : List Node) (x : GraphError)
    → str_eq n.node_type "start" ≡ true
    → ScanFails n.node_key ns x
    → ScanFails start (n ∷ ns) x
ScanFails-start start n ns x s (unsupported m i u q) = unsupported m (inr i) u q
ScanFails-start start n ns x s (two_starts t q) = two_starts (TwoStarts-cons n ns t) q
ScanFails-start start n ns x s (another_start m i t h q) = two_starts both q
  where
    both : TwoStarts (n ∷ ns)
    both = record {
      before = [];
      first = n;
      after = ns;
      split = refl;
      second = m;
      second_in = i;
      first_starts = s;
      second_starts = t;
      first_named = h;
    }

pub scan_nodes-ScanFails :
    (start : String) (ns : List Node) (x : GraphError)
    → scan_nodes start ns ≡ err x
    → ScanFails start ns x
unfolding scan_nodes
scan_nodes-ScanFails start [] x e = absurd (cc)
scan_nodes-ScanFails start (n ∷ ns) x e = elim (Bool-cases (supported_node_type n.node_type)) [
  | inr u ↦ unsupported n (inl refl) u (ground arith)
  | inl u ↦ elim (Bool-cases (str_eq n.node_type "start")) [
    | inr s ↦ ScanFails-pass start n ns x (scan_nodes-ScanFails start ns x (rw (u, s) at e))
    | inl s ↦ elim (Bool-cases (str_eq start "")) [
      | inl b ↦
          ScanFails-start start n ns x s (scan_nodes-ScanFails n.node_key ns x (rw (u, s, b) at e))
      | inr b ↦
          another_start n (inl refl) s (λ q. ground (arith, str_eq_iff start "")) (ground arith)
    ]
  ]
]

pub scan_Reason : (g : Graph) (x : GraphError) → ScanFails "" g.nodes x → Reason g x
scan_Reason g x (unsupported n i u q) = subst (Reason g) (sym q) (n, i, refl, u)
scan_Reason g x (another_start n i s h q) = absurd (h refl)
scan_Reason g x (two_starts t q) = subst (Reason g) (sym q) t

check_edges-err :
    (keys : List String) (es : List Edge) (x : GraphError)
    → check_edges keys es ≡ err x
    → (e : Edge) × In e es
      × (((x ≡ missing_from e.from_key) × (contains keys e.from_key ≡ false))
          ⊎ ((x ≡ missing_to e.to_key) × (contains keys e.to_key ≡ false)))
unfolding check_edges
check_edges-err keys [] x h = absurd (cc)
check_edges-err keys (e ∷ es) x h = elim (Bool-cases (contains keys e.from_key)) [
  | inr f ↦ (e, inl refl, inl (ground arith, f))
  | inl f ↦ elim (Bool-cases (contains keys e.to_key)) [
    | inr t ↦ (e, inl refl, inr (ground arith, t))
    | inl t ↦ let (d, i, r) = check_edges-err keys es x (rw (f, t) at h) in (d, inr i, r)
  ]
]

pub not_In : (keys : List String) (k : String) → contains keys k ≡ false → ¬ In k keys
not_In keys k f i = ground (arith, In→contains keys k i)

pub edge_Reason :
    (g : Graph) (x : GraphError) → check_edges (node_keys g.nodes) g.edges ≡ err x → Reason g x
edge_Reason g x h = go (check_edges-err (node_keys g.nodes) g.edges x h)
  where
    go :
        (e : Edge) × In e g.edges
          × (((x ≡ missing_from e.from_key) × (contains (node_keys g.nodes) e.from_key ≡ false))
              ⊎ ((x ≡ missing_to e.to_key) × (contains (node_keys g.nodes) e.to_key ≡ false)))
        → Reason g x
    go (e, i, inl (q, f)) =
        subst (Reason g) (sym q) (e, i, refl, not_In (node_keys g.nodes) e.from_key f)
    go (e, i, inr (q, f)) =
        subst (Reason g) (sym q) (e, i, refl, not_In (node_keys g.nodes) e.to_key f)
