-- ===== src/Workflow/Graph.antt =====
-- The graph of a workflow definition (internal/workflow/executor.go, `graphData`): its nodes, its
-- edges, and the edges that leave and enter a node, in the order in which `loadGraph` sorts them.
use duraclaw.Json.{Raw}
use duraclaw.Shared.{
  ◌≡◌, refl, sym, ap, subst, Bool, List, [], ◌∷◌, String, str_eq, str_le, In, keep, In-keep,
  In-of_keep, sort_by, In-sort_by, In-of_sort_by, str_eq_iff, inl, inr, Option, none, some,
  if◌then◌else◌,
}

-- What the engine reads of `db.WorkflowNode`.
pub record Node : Type 0 where
  pub node_key : String
  pub node_type : String
  pub config : Raw
  pub retry_policy : Raw

-- What it reads of `db.WorkflowEdge`.
pub record Edge : Type 0 where
  pub from_key : String
  pub to_key : String
  pub condition : Raw

pub record Graph : Type 0 where
  pub nodes : List Node
  pub edges : List Edge

abbrev pub node_keys : List Node → List String
node_keys [] = []
node_keys (n ∷ ns) = n.node_key ∷ node_keys ns

-- `g.nodeByKey[key]`, filled in the order of the nodes: the last node of a key stays.
abbrev pub node_by_key : List Node → String → Option Node
node_by_key [] k = none
node_by_key (n ∷ ns) k = elim (node_by_key ns k) [
  | some m ↦ some m
  | none ↦ if str_eq n.node_key k then some n else none
]

abbrev leaves : String → Edge → Bool
leaves k e = str_eq e.from_key k

abbrev enters : String → Edge → Bool
enters k e = str_eq e.to_key k

-- `g.outgoing[key]`.
unfoldable pub outgoing : Graph → String → List Edge
unfolding sort_by
outgoing g k = sort_by (λ a b. str_le a.to_key b.to_key) (keep (leaves k) g.edges)

-- `g.incoming[key]`.
unfoldable pub incoming : Graph → String → List Edge
unfolding sort_by
incoming g k = sort_by (λ a b. str_le a.from_key b.from_key) (keep (enters k) g.edges)

abbrev targets : List Edge → List String
targets [] = []
targets (e ∷ es) = e.to_key ∷ targets es

-- The keys that the loops over `g.outgoing[key]` visit.
unfoldable pub successors : Graph → String → List String
unfolding outgoing
successors g k = targets (outgoing g k)

-- An edge of the definition, seen without the maps.
pub record Arrow (g : Graph) (k l : String) : Type 0 where
  pub edge : Edge
  pub present : In edge g.edges
  pub from_here : edge.from_key ≡ k
  pub to_there : edge.to_key ≡ l

In-of_targets :
    (l : String) (es : List Edge) → In l (targets es) → (e : Edge) × In e es × (e.to_key ≡ l)
In-of_targets l [] m = absurd m
In-of_targets l (e ∷ es) (inl q) = (e, inl refl, sym q)
In-of_targets l (e ∷ es) (inr m) = let (f, i, q) = In-of_targets l es m in (f, inr i, q)

In-targets : (e : Edge) (es : List Edge) → In e es → In e.to_key (targets es)
In-targets e [] m = absurd m
In-targets e (f ∷ es) (inl q) = inl (ap (λ (x : Edge). x.to_key) q)
In-targets e (f ∷ es) (inr m) = inr (In-targets e es m)

pub Arrow-of_successor : (g : Graph) (k l : String) → In l (successors g k) → Arrow g k l
unfolding successors
Arrow-of_successor g k l m =
    let (e, i, q) = In-of_targets l _ m in
    let kept : In e (keep (leaves k) g.edges) = In-of_sort_by _ e (keep (leaves k) g.edges) i in
    let (there, test) = In-of_keep e (leaves k) g.edges kept in
    record { edge = e; present = there; from_here = (str_eq_iff e.from_key k).0 test; to_there = q }

pub successor_of_Arrow : (g : Graph) (k l : String) → Arrow g k l → In l (successors g k)
unfolding successors
successor_of_Arrow g k l a =
    let kept : In a.edge (keep (leaves k) g.edges) =
      In-keep a.edge (leaves k) g.edges a.present ((str_eq_iff a.edge.from_key k).1 a.from_here) in
    let out : In a.edge (outgoing g k) = In-sort_by _ a.edge (keep (leaves k) g.edges) kept in
    subst (λ x. In x (targets (outgoing g k))) a.to_there (In-targets a.edge (outgoing g k) out)

-- A way along the arrows, of any length.
pub data Reaches (g : Graph) (k : String) : String → Type 0 where
  here : Reaches g k k
  onward : {l m : String} → Reaches g k l → Arrow g l m → Reaches g k m

pub Reaches-trans : {g : Graph} {k l m : String} → Reaches g k l → Reaches g l m → Reaches g k m
Reaches-trans p here = p
Reaches-trans p (onward q a) = onward (Reaches-trans p q) a

-- A cycle through `k`.
pub data Loops (g : Graph) (k : String) : Type 0 where
  loop : (l : String) → Arrow g k l → Reaches g l k → Loops g k
