-- ===== src/Store/Memory.antt =====
-- packages/graphrag/src/graphrag/store/memory.py: the in-memory backend over a `Graph`.
pub mod Lawful
use graphrag_aws_template.Prelude.{
  String, Bool, true, false, ◌&&◌, not, Option, none, some, List, [], ◌∷◌, ◌==◌, string_eq,
  if◌then◌else◌,
}
use graphrag_aws_template.Prelude.Dicts.{values}
use graphrag_aws_template.Model.{
  Node, Edge, EdgeKind, edge_eq, Direction, out, inward, Graph, empty, edges, Upserted, ok,
  reused_across_kinds, upsert_node, upsert_edge, get_node, remove_node, remove_edge, set_node,
  set_edge,
}
use graphrag_aws_template.Store.{GraphStore, Allowed, vis, in_clearance}

-- the node at the other end, in the given direction; `none` is the `continue` of the other branches
unfoldable pub target : Graph → Edge → String → Direction → Option Node
unfolding get_node
target g edge node_id out = if edge.src_id == node_id then get_node g edge.dst_id else none
target g edge node_id inward = if edge.dst_id == node_id then get_node g edge.src_id else none

-- the two tests of `allowed_labels`, on the edge and on the target
unfoldable pub excluded : Allowed → Edge → Node → Bool
unfolding vis in_clearance
excluded allowed edge node =
    not (in_clearance allowed (vis edge.props) && in_clearance allowed (vis node.props))

-- one round of the loop of `neighbors`
unfoldable pub neighbor_along : Graph → String → EdgeKind → Direction → Allowed → Edge → Option Node
unfolding target excluded
neighbor_along g node_id edge_kind direction allowed edge =
    if edge.kind == edge_kind
    then (elim (target g edge node_id direction) [
      | none ↦ none
      | some node ↦ if excluded allowed edge node then none else some node
    ])
    else none

-- the nodes that the rounds append to `out`
unfoldable pub collect {ℓ κ} : {A : Type ℓ} {B : Type κ} → (A → Option B) → List A → List B
collect f [] = []
collect f (x ∷ xs) = let rest = collect f xs in elim (f x) [ none ↦ rest | some b ↦ b ∷ rest ]

unfoldable pub neighbors : Graph → String → EdgeKind → Direction → Allowed → List Node
unfolding neighbor_along collect edges
neighbors g node_id edge_kind direction allowed =
    collect (neighbor_along g node_id edge_kind direction allowed) (edges g)

unfoldable pub first_graph : Upserted (Graph × Node) → Upserted Graph
first_graph (ok (g, n)) = ok g
first_graph (reused_across_kinds id k l) = reused_across_kinds id k l

abbrev pub memory_store : GraphStore
memory_store = record {
  State = Graph;
  upsert_node = λ g n. first_graph (upsert_node g n);
  upsert_edge = λ g e. (upsert_edge g e).0;
  get_node = get_node;
  neighbors = neighbors;
  all_nodes = λ g. values g.nodes;
  all_edges = edges;
  delete_node = remove_node;
  delete_edge = remove_edge;
  clear = λ g. empty;
  replace_node = set_node;
  replace_edge = set_edge;
}
