-- ===== src/Resolve/Provenance.antt =====
-- resolve.py: the nodes of the resolved graph, with their documents and sources, in terms of the
-- extracted rows.
use graphrag_aws_template.Prelude.{
  ◌≡◌, ◌⊎◌, refl, ap, ◌∙◌, String, Bool, ◌&&◌, ◌||◌, Option, some, List, [], ◌∷◌, arith, string_eq,
  ◌==◌, if◌then◌else◌, inl, inr, pair_eq, contains, is_some, any,
}
use graphrag_aws_template.Prelude.Dicts.{get, get-put}
use graphrag_aws_template.Model.{
  EntityKind, Node, Edge, Graph, empty, Upserted, ok, reused_across_kinds, upsert_node, upsert_edge,
}
use graphrag_aws_template.Model.Merge.{
  set_of, kind_or, merged_node, with_merged, upsert_node_lem, upsert_edge_lem, docs-merged_node,
  sources-merged_node,
}
use graphrag_aws_template.Resolve.{upsert_nodes, upsert_edges, build_graph}

-- The document or source `p` is named by some row of the id.
abbrev pub named_by : (Node → List String) → List Node → String → String → Bool
named_by f rows id p = any (λ n. (n.id == id) && contains (f n) p) rows

Upserted-cases :
    (u : Upserted (Graph × Node))
    → ((h : Graph) × (m : Node) × (u ≡ ok (h, m)))
      ⊎ ((id : String) × (k : EntityKind) × (l : EntityKind) × (u ≡ reused_across_kinds id k l))
Upserted-cases (ok (h, m)) = inl (h, m, refl)
Upserted-cases (reused_across_kinds id k l) = inr (id, k, l, refl)

-- A run that succeeds merges its first row, and goes on from there.
pub upsert_nodes-cons :
    (g h : Graph) (n : Node) (rows : List Node)
    → upsert_nodes g (n ∷ rows) ≡ ok h
    → (upsert_nodes (with_merged g n) rows ≡ ok h) × (kind_or n.kind (get g.nodes n.id) ≡ n.kind)
unfolding upsert_nodes
upsert_nodes-cons g h n rows done = elim (Upserted-cases (upsert_node g n)) [
  | inl (g', m, e) ↦ ground (arith, upsert_node_lem g g' n m e)
  | inr (id, k, l, e) ↦ ground arith
]

pub get-with_merged :
    (g : Graph) (n : Node) (id : String)
    → get (with_merged g n).nodes id
      ≡ (if n.id == id then some (merged_node (get g.nodes n.id) n) else get g.nodes id)
get-with_merged g n id = get-put g.nodes n.id id (merged_node (get g.nodes n.id) n)

module _ (f : Node → List String)
    (merged : (o : Option Node) (n : Node) (p : String)
      → contains (f (merged_node o n)) p ≡ (contains (set_of f o) p || contains (f n) p)) where
  upsert_nodes-names :
      (rows : List Node) (g h : Graph) (id p : String)
      → upsert_nodes g rows ≡ ok h
      → contains (set_of f (get h.nodes id)) p
        ≡ (contains (set_of f (get g.nodes id)) p || named_by f rows id p)
  unfolding upsert_nodes any contains
  upsert_nodes-names [] g h id p done = ground arith
  upsert_nodes-names (n ∷ rows) g h id p done =
      let (rest, agree) = upsert_nodes-cons g h n rows done in
      ground (
        arith,
        upsert_nodes-names rows (with_merged g n) h id p rest,
        get-with_merged g n id,
        merged (get g.nodes n.id) n p,
        string_eq.beq_iff n.id id,
      )

upsert_nodes-is_some :
    (rows : List Node) (g h : Graph) (id : String)
    → upsert_nodes g rows ≡ ok h
    → is_some (get h.nodes id) ≡ (is_some (get g.nodes id) || any (λ n. n.id == id) rows)
unfolding upsert_nodes any
upsert_nodes-is_some [] g h id done = ground arith
upsert_nodes-is_some (n ∷ rows) g h id done =
    let (rest, agree) = upsert_nodes-cons g h n rows done in
    ground (arith, upsert_nodes-is_some rows (with_merged g n) h id rest, get-with_merged g n id)

nodes-upsert_edges : (es : List Edge) (g : Graph) → (upsert_edges g es).nodes ≡ g.nodes
unfolding upsert_edges
nodes-upsert_edges [] g = refl
nodes-upsert_edges (e ∷ es) g =
    nodes-upsert_edges es (upsert_edge g e).0 ∙ ap (λ (h : Graph). h.nodes) (upsert_edge_lem g e)

pub build_graph-nodes :
    (nodes : List Node) (edges : List Edge) (g : Graph)
    → build_graph nodes edges ≡ ok g
    → (h : Graph) × (upsert_nodes empty nodes ≡ ok h) × (g.nodes ≡ h.nodes)
unfolding build_graph
build_graph-nodes nodes edges g done = go (upsert_nodes empty nodes) refl
  where
    go :
        (u : Upserted Graph)
        → upsert_nodes empty nodes ≡ u
        → (h : Graph) × (upsert_nodes empty nodes ≡ ok h) × (g.nodes ≡ h.nodes)
    go (ok h) e = (h, e, ground (arith, nodes-upsert_edges edges h))
    go (reused_across_kinds id k l) e = ground arith

-- If resolution succeeds, then for every id and text `p`: the id is a node exactly when some row has
-- it; `p` is among the node's documents exactly when some row of the id names it as a document, and
-- among its sources exactly when some row of the id names it as a source.
pub build_graph-provenance :
    (nodes : List Node) (edges : List Edge) (g : Graph) (id p : String)
    → build_graph nodes edges ≡ ok g
    → (is_some (get g.nodes id) ≡ any (λ n. n.id == id) nodes)
      × (contains (set_of (λ n. n.doc_paths) (get g.nodes id)) p
          ≡ named_by (λ n. n.doc_paths) nodes id p)
      × (contains (set_of (λ n. n.sources) (get g.nodes id)) p
          ≡ named_by (λ n. n.sources) nodes id p)
unfolding any get contains
build_graph-provenance nodes edges g id p done =
    let (h, e, same) = build_graph-nodes nodes edges g done in
    rw same (
      upsert_nodes-is_some nodes empty h id e,
      upsert_nodes-names (λ n. n.doc_paths) docs-merged_node nodes empty h id p e,
      upsert_nodes-names (λ n. n.sources) sources-merged_node nodes empty h id p e,
    )
