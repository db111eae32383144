-- ===== src/Resolve.antt =====
-- packages/graphrag/src/graphrag/resolve.py: the graph of the extracted nodes and edges, and the
-- merges across the sources. Extraction itself is not modelled: `build_graph` takes its result.
pub mod Provenance
pub mod EdgeRows
pub mod Success
pub mod Tables
use graphrag_aws_template.Prelude.{
  ℕ, ltb, String, string_eq, Option, none, some, List, [], ◌∷◌, map, length, keep,
}
use graphrag_aws_template.Prelude.Sets.{dedupe}
use graphrag_aws_template.Prelude.Dicts.{values}
use graphrag_aws_template.Prelude.Sorting.{sorted, text_order}
use graphrag_aws_template.Model.{
  Node, Edge, Graph, EntityKind, Upserted, ok, reused_across_kinds, empty, upsert_node, upsert_edge,
}

-- for node in nodes: graph.upsert_node(node)
unfoldable pub upsert_nodes : Graph → List Node → Upserted Graph
unfolding upsert_node
upsert_nodes g [] = ok g
upsert_nodes g (n ∷ ns) = elim (upsert_node g n) [
  | ok (h, m) ↦ upsert_nodes h ns
  | reused_across_kinds id k l ↦ reused_across_kinds id k l
]

-- for edge in edges: graph.upsert_edge(edge)
unfoldable pub upsert_edges : Graph → List Edge → Graph
unfolding upsert_edge
upsert_edges g [] = g
upsert_edges g (e ∷ es) = upsert_edges (upsert_edge g e).0 es

-- `resolve`, from the result of `extract`
unfoldable pub build_graph : List Node → List Edge → Upserted Graph
unfolding upsert_nodes upsert_edges
build_graph nodes edges = elim (upsert_nodes empty nodes) [
  | ok g ↦ ok (upsert_edges g edges)
  | reused_across_kinds id k l ↦ reused_across_kinds id k l
]

unfoldable pub cross_source_merges : Graph → List String
unfolding values keep sorted dedupe
cross_source_merges g =
    sorted (map (λ n. n.id) (keep (λ n. ltb 1 (length (dedupe n.sources))) (values g.nodes)))
