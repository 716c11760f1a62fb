-- ===== src/Workflow/Validate/Start.antt =====
-- The start node that `validateGraph` chooses: the declared one, or the least root.
use duraclaw.Shared.{
  ◌≡◌, ◌≢◌, refl, sym, ap, ◌∙◌, inl, inr, ◌⊎◌, true, false, List, [], ◌∷◌, String, str_eq,
  str_eq_iff, str_le, In, All, Bool-cases, sort_by, In-of_sort_by, if◌then◌else◌, arith,
}
use duraclaw.Workflow.Graph.{Node, Edge, Graph, node_keys}
use duraclaw.Workflow.Validate.{
  ok, supported_node_type, scan_nodes, first_or_empty, entered, roots, first_root_node, or_root,
}

-- A start node whose key is not empty.
abbrev pub Starts : Node → Type 0
Starts n = (str_eq n.node_type "start" ≡ true) × (n.node_key ≢ "")

pub scan_nodes-supported :
    (start r : String) (ns : List Node)
    → scan_nodes start ns ≡ ok r
    → All (λ n. supported_node_type n.node_type ≡ true) ns
unfolding scan_nodes
scan_nodes-supported start r [] e = tt
scan_nodes-supported start r (n ∷ ns) e =
    ground
      (arith, scan_nodes-supported (if str_eq n.node_type "start" then n.node_key else start) r ns)

-- Where the loop passes a node, what is left of it.
pub scan_nodes-cons :
    (start r : String) (n : Node) (ns : List Node)
    → scan_nodes start (n ∷ ns) ≡ ok r
    → ((str_eq n.node_type "start" ≡ true) × (start ≡ "") × (scan_nodes n.node_key ns ≡ ok r))
      ⊎ ((str_eq n.node_type "start" ≡ false) × (scan_nodes start ns ≡ ok r))
unfolding scan_nodes
scan_nodes-cons start r n ns e = ground (arith, str_eq_iff start "")

scan_nodes-keeps :
    (start r : String) (ns : List Node) → scan_nodes start ns ≡ ok r → start ≢ "" → r ≡ start
unfolding scan_nodes
scan_nodes-keeps start r [] e h = cc
scan_nodes-keeps start r (n ∷ ns) e h = elim (scan_nodes-cons start r n ns e) [
  | inl (t, s, f) ↦ absurd (h s)
  | inr (t, f) ↦ scan_nodes-keeps start r ns f h
]

pub scan_nodes-one :
    (start r : String) (ns : List Node)
    → scan_nodes start ns ≡ ok r
    → All (λ n. Starts n → n.node_key ≡ r) ns
unfolding scan_nodes
scan_nodes-one start r [] e = tt
scan_nodes-one start r (n ∷ ns) e = elim (scan_nodes-cons start r n ns e) [
  | inl (t, s, f) ↦
      (λ h. sym (scan_nodes-keeps n.node_key r ns f h.1), scan_nodes-one n.node_key r ns f)
  | inr (t, f) ↦ (λ h. cc (h.0), scan_nodes-one start r ns f)
]

pub scan_nodes-In :
    (start r : String) (ns : List Node)
    → scan_nodes start ns ≡ ok r
    → (r ≡ start) ⊎ In r (node_keys ns)
unfolding scan_nodes
scan_nodes-In start r [] e = inl (cc)
scan_nodes-In start r (n ∷ ns) e = elim (scan_nodes-cons start r n ns e) [
  | inl (t, s, f) ↦ inr (elim (scan_nodes-In n.node_key r ns f) [ inl q ↦ inl q | inr i ↦ inr i ])
  | inr (t, f) ↦ elim (scan_nodes-In start r ns f) [ inl q ↦ inl q | inr i ↦ inr (inr i) ]
]

scan_nodes-declared :
    (start r : String) (ns : List Node)
    → scan_nodes start ns ≡ ok r
    → r ≢ ""
    → (r ≡ start) ⊎ ((n : Node) × In n ns × Starts n × (n.node_key ≡ r))
unfolding scan_nodes
scan_nodes-declared start r [] e h = inl (cc)
scan_nodes-declared start r (n ∷ ns) e h = elim (scan_nodes-cons start r n ns e) [
  | inl (t, s, f) ↦ elim (scan_nodes-declared n.node_key r ns f h) [
    | inl q ↦ inr (n, inl refl, (t, λ p. h (q ∙ p)), sym q)
    | inr (m, i, w, q) ↦ inr (m, inr i, w, q)
  ]
  | inr (t, f) ↦ elim (scan_nodes-declared start r ns f h) [
    | inl q ↦ inl q
    | inr (m, i, w, q) ↦ inr (m, inr i, w, q)
  ]
]

roots-entered :
    (k : String) (ns : List Node) (es : List Edge) → In k (roots ns es) → entered es k ≡ false
unfolding roots
roots-entered k [] es m = absurd m
roots-entered k (n ∷ ns) es m = elim (Bool-cases (entered es n.node_key)) [
  | inl t ↦ roots-entered k ns es (rw t at m)
  | inr f ↦ elim (rw f at m) [ inl q ↦ ap (entered es) q ∙ f | inr i ↦ roots-entered k ns es i ]
]

roots-In : (k : String) (ns : List Node) (es : List Edge) → In k (roots ns es) → In k (node_keys ns)
unfolding roots
roots-In k [] es m = m
roots-In k (n ∷ ns) es m = ground (arith, roots-In k ns es)

first_or_empty-In : (ks : List String) → first_or_empty ks ≢ "" → In (first_or_empty ks) ks
first_or_empty-In [] h = absurd (h refl)
first_or_empty-In (k ∷ ks) h = inl refl

first_root_node-In :
    (ns : List Node) (es : List Edge)
    → first_root_node ns es ≢ ""
    → In (first_root_node ns es) (node_keys ns)
unfolding first_root_node
first_root_node-In ns es h =
    roots-In _ ns es
      (In-of_sort_by str_le _ (roots ns es) (first_or_empty-In (sort_by str_le (roots ns es)) h))

or_root_of_named : (g : Graph) (declared : String) → declared ≢ "" → or_root g declared ≡ declared
or_root_of_named g declared h = ground (arith, str_eq_iff declared "")

pub or_root-one :
    (g : Graph) (declared : String) (ns : List Node)
    → All (λ n. Starts n → n.node_key ≡ declared) ns
    → All (λ n. Starts n → n.node_key ≡ or_root g declared) ns
or_root-one g declared [] a = tt
or_root-one g declared (n ∷ ns) a = (chosen, or_root-one g declared ns a.1)
  where
    chosen : Starts n → n.node_key ≡ or_root g declared
    chosen h = a.0 h ∙ sym (or_root_of_named g declared (λ q. h.1 (a.0 h ∙ q)))

pub or_root-In :
    (g : Graph) (declared : String)
    → (declared ≡ "") ⊎ In declared (node_keys g.nodes)
    → or_root g declared ≢ ""
    → In (or_root g declared) (node_keys g.nodes)
or_root-In g declared m h = elim (Bool-cases (str_eq declared "")) [
  | inl t ↦ rw t (first_root_node-In g.nodes g.edges (λ q. h (rw t q)))
  | inr f ↦ rw f (elim m [ inl q ↦ cc ((str_eq_iff declared "").1 q) | inr i ↦ i ])
]

pub or_root_chosen :
    (g : Graph) (declared : String)
    → scan_nodes "" g.nodes ≡ ok declared
    → or_root g declared ≢ ""
    → ((n : Node) × In n g.nodes × Starts n × (n.node_key ≡ or_root g declared))
      ⊎ (entered g.edges (or_root g declared) ≡ false)
unfolding first_root_node
or_root_chosen g declared e h = elim (Bool-cases (str_eq declared "")) [
  | inl t ↦ rw t (
      inr (
        roots-entered _ g.nodes g.edges (
          In-of_sort_by str_le _ (roots g.nodes g.edges)
            (first_or_empty-In (sort_by str_le (roots g.nodes g.edges)) (λ q. h (rw t q))))))
  | inr f ↦ rw f (
      named_node f
        (scan_nodes-declared "" declared g.nodes e (λ q. cc ((str_eq_iff declared "").1 q))))
]
  where
    named_node :
        str_eq declared "" ≡ false
        → (declared ≡ "") ⊎ ((n : Node) × In n g.nodes × Starts n × (n.node_key ≡ declared))
        → ((n : Node) × In n g.nodes × Starts n × (n.node_key ≡ declared))
          ⊎ (entered g.edges declared ≡ false)
    named_node f (inl q) = cc ((str_eq_iff declared "").1 q)
    named_node f (inr r) = inl r
