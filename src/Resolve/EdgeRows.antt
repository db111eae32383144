-- ===== src/Resolve/EdgeRows.antt =====
-- resolve.py: the edges of the resolved graph, with their documents, in terms of the extracted rows.
use graphrag_aws_template.Prelude.{
  ◌≡◌, refl, String, Bool, ◌&&◌, ◌||◌, List, [], ◌∷◌, arith, string_eq, ◌==◌, pair_eq, contains,
  any,
}
use graphrag_aws_template.Prelude.Dicts.{get, get-put}
use graphrag_aws_template.Model.{
  Node, Edge, EdgeKey, Graph, key, empty, Upserted, ok, reused_across_kinds, upsert_edge,
}
use graphrag_aws_template.Model.Merge.{set_of, merged_edge, upsert_edge_lem, docs-merged_edge}
use graphrag_aws_template.Resolve.{upsert_nodes, upsert_edges, build_graph}
use graphrag_aws_template.Resolve.Provenance.{upsert_nodes-cons}
use graphrag_aws_template.Model.Merge.{with_merged}

-- The document `p` is named by some row of the key.
abbrev pub key_named_by : List Edge → EdgeKey → String → Bool
key_named_by rows k p = any (λ (e : Edge). (key e == k) && contains e.doc_paths p) rows

upsert_edges-names :
    (rows : List Edge) (g : Graph) (k : EdgeKey) (p : String)
    → contains (set_of (λ e. e.doc_paths) (get (upsert_edges g rows).edge_table k)) p
      ≡ (contains (set_of (λ e. e.doc_paths) (get g.edge_table k)) p || key_named_by rows k p)
unfolding upsert_edges any contains
upsert_edges-names [] g k p = ground arith
upsert_edges-names (e ∷ rows) g k p = ground (
  arith,
  upsert_edges-names rows (upsert_edge g e).0 k p,
  upsert_edge_lem g e,
  get-put g.edge_table (key e) k (merged_edge (get g.edge_table (key e)) e),
  docs-merged_edge (get g.edge_table (key e)) e p,
  (pair_eq {A = String} {B = String × String}).beq_iff (key e) k,
)

edge_table-upsert_nodes :
    (rows : List Node) (g h : Graph) → upsert_nodes g rows ≡ ok h → h.edge_table ≡ g.edge_table
unfolding upsert_nodes
edge_table-upsert_nodes [] g h done = ground arith
edge_table-upsert_nodes (n ∷ rows) g h done =
    edge_table-upsert_nodes rows (with_merged g n) h (upsert_nodes-cons g h n rows done).0

-- If resolution succeeds: `p` is among the documents of the edge under a key exactly when some row of
-- the key names it.
pub build_graph-edge_documents :
    (nodes : List Node) (edges : List Edge) (g : Graph) (k : EdgeKey) (p : String)
    → build_graph nodes edges ≡ ok g
    → contains (set_of (λ e. e.doc_paths) (get g.edge_table k)) p ≡ key_named_by edges k p
unfolding build_graph
build_graph-edge_documents nodes edges g k p done = go (upsert_nodes empty nodes) refl
  where
    go :
        (u : Upserted Graph)
        → upsert_nodes empty nodes ≡ u
        → contains (set_of (λ e. e.doc_paths) (get g.edge_table k)) p ≡ key_named_by edges k p
    go (ok h) e =
        unfold contains get in
        ground (arith, upsert_edges-names edges h k p, edge_table-upsert_nodes nodes empty h e)
    go (reused_across_kinds id l m) e = absurd (ground arith)
