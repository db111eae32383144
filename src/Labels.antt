-- ===== src/Labels.antt =====
-- packages/graphrag/src/graphrag/labels.py: the labels that are stamped on a graph and on chunks. The
-- label map is read from a file, and is an argument here.
pub mod Edges
use graphrag_aws_template.Prelude.{String, List, [], ◌∷◌, map, string_eq, pair_eq}
use graphrag_aws_template.Prelude.Dicts.{Dict, get, put}
use graphrag_aws_template.Visibility.{default_visibility, get_or, compose}
use graphrag_aws_template.Chunk.{Chunk}
use graphrag_aws_template.Model.{Node, Edge, EdgeKey, Graph, Value, text, Props}

abbrev pub Labels : Type 0
Labels = Dict String String

unfoldable pub label_node : Labels → Node → Node
unfolding get_or default_visibility put
label_node labels node = record node {
  props = put node.props "visibility" (text (get_or labels node.id default_visibility));
}

unfoldable pub label_edge : Labels → Edge → Edge
unfolding get_or default_visibility compose put
label_edge labels edge = record edge {
  props = put edge.props "visibility" (
      text (
        compose (
          get_or labels edge.src_id default_visibility
          ∷ get_or labels edge.dst_id default_visibility
          ∷ [])));
}

-- every value of a dict, changed in place
unfoldable pub map_values {ℓ κ} : {K : Type ℓ} {V : Type κ} → (V → V) → Dict K V → Dict K V
map_values f [] = []
map_values f ((k, v) ∷ d) = (k, f v) ∷ map_values f d

unfoldable pub label_graph : Graph → Labels → Graph
unfolding label_node label_edge map_values
label_graph g labels = record {
  nodes = map_values (label_node labels) g.nodes;
  edge_table = map_values (label_edge labels) g.edge_table;
}

unfoldable pub label_chunk : Labels → Chunk → Chunk
unfolding get_or default_visibility compose
label_chunk labels chunk = record chunk {
  visibility =
      compose (map (λ entity_id. get_or labels entity_id default_visibility) chunk.entity_ids);
}

unfoldable pub label_chunks : List Chunk → Labels → List Chunk
unfolding label_chunk
label_chunks chunks labels = map (label_chunk labels) chunks
