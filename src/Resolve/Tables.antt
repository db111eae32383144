-- ===== src/Resolve/Tables.antt =====
-- The tables of the resolved graph.
use graphrag_aws_template.Prelude.{◌≡◌, refl, subst, List, [], ◌∷◌, arith, string_eq, pair_eq}
use graphrag_aws_template.Prelude.Dicts.{get}
use graphrag_aws_template.Model.{
  Node, Edge, Graph, empty, Upserted, ok, reused_across_kinds, upsert_edge,
}
use graphrag_aws_template.Model.WellFormed.{
  IsWellFormed, empty-IsWellFormed, upsert_node-IsWellFormed, upsert_edge-IsWellFormed,
}
use graphrag_aws_template.Model.Merge.{kind_or, with_merged, upsert_node-ok}
use graphrag_aws_template.Resolve.{upsert_nodes, upsert_edges, build_graph}
use graphrag_aws_template.Resolve.Provenance.{upsert_nodes-cons}

with_merged-IsWellFormed :
    (g : Graph) (n : Node)
    → kind_or n.kind (get g.nodes n.id) ≡ n.kind
    → IsWellFormed g
    → IsWellFormed (with_merged g n)
with_merged-IsWellFormed g n agree w =
    upsert_node-IsWellFormed g (with_merged g n) n _ (upsert_node-ok g n agree) w

upsert_nodes-IsWellFormed :
    (rows : List Node) (g h : Graph) → upsert_nodes g rows ≡ ok h → IsWellFormed g → IsWellFormed h
unfolding upsert_nodes
upsert_nodes-IsWellFormed [] g h done w = subst IsWellFormed (ground arith) w
upsert_nodes-IsWellFormed (n ∷ rows) g h done w =
    let (rest, agree) = upsert_nodes-cons g h n rows done in
    upsert_nodes-IsWellFormed rows (with_merged g n) h rest (with_merged-IsWellFormed g n agree w)

upsert_edges-IsWellFormed :
    (es : List Edge) (g : Graph) → IsWellFormed g → IsWellFormed (upsert_edges g es)
unfolding upsert_edges
upsert_edges-IsWellFormed [] g w = w
upsert_edges-IsWellFormed (e ∷ es) g w =
    upsert_edges-IsWellFormed es (upsert_edge g e).0 (upsert_edge-IsWellFormed g e w)

-- The graph that resolution returns has every node under its id and every edge under its key, once.
pub build_graph-IsWellFormed :
    (nodes : List Node) (edges : List Edge) (g : Graph)
    → build_graph nodes edges ≡ ok g
    → IsWellFormed g
unfolding build_graph
build_graph-IsWellFormed nodes edges g done = go (upsert_nodes empty nodes) refl
  where
    go : (u : Upserted Graph) → upsert_nodes empty nodes ≡ u → IsWellFormed g
    go (ok h) e = subst IsWellFormed (ground arith) (
        upsert_edges-IsWellFormed edges h
          (upsert_nodes-IsWellFormed nodes empty h e empty-IsWellFormed))
    go (reused_across_kinds id k l) e = ground arith
