-- ===== src/Model.antt =====
-- packages/graphrag/src/graphrag/model.py: the kinds, nodes, edges, and the graph with its
-- merge-on-upsert. A dict is an association list in insertion order and a set is a list
-- (Prelude/Dicts, Prelude/Sets); objects are values, so that an operation returns the new graph.
mod Kinds
mod Values
pub mod Methods
pub mod WellFormed
pub mod Merge
unfoldable pub use Kinds.*
unfoldable pub use Values.*
use graphrag_aws_template.Prelude.{
  String, Bool, true, false, not, ◌&&◌, Option, none, some, List, [], ◌∷◌, ◌==◌, string_eq,
  if◌then◌else◌, pair_eq,
}
use graphrag_aws_template.Prelude.Sets.{union}
use graphrag_aws_template.Prelude.Dicts.{Dict, get, put, remove, set_defaults, keep_values, values}

pub record Node : Type 0 where
  pub id : String
  pub kind : EntityKind
  pub props : Props
  pub sources : List String
  pub doc_paths : List String

pub record Edge : Type 0 where
  pub src_id : String
  pub dst_id : String
  pub kind : EdgeKind
  pub props : Props
  pub sources : List String
  pub doc_paths : List String

-- (src_id, kind.value, dst_id), as nested pairs
abbrev pub EdgeKey : Type 0
EdgeKey = String × (String × String)

-- `Edge.key`
unfoldable pub key : Edge → EdgeKey
key e = (e.src_id, (edge_value e.kind, e.dst_id))

pub record Graph : Type 0 where
  pub nodes : Dict String Node
  pub edge_table : Dict EdgeKey Edge

abbrev pub empty : Graph
empty = record { nodes = []; edge_table = [] }

-- the property `Graph.edges`
unfoldable pub edges : Graph → List Edge
edges g = values g.edge_table

-- The `ValueError` of a node id that is used at two kinds.
pub data Upserted {ℓ} (A : Type ℓ) : Type ℓ where
  ok : A → Upserted A
  reused_across_kinds : String → EntityKind → EntityKind → Upserted A

-- the branch of `upsert_node` that merges into the node that is there
unfoldable pub merge_node : Node → Node → Node
merge_node existing node = record existing {
  sources = union existing.sources node.sources;
  doc_paths = union existing.doc_paths node.doc_paths;
  props = set_defaults existing.props node.props;
}

-- the new graph, and the canonical node
unfoldable pub upsert_node : Graph → Node → Upserted (Graph × Node)
unfolding merge_node
upsert_node g node = elim (get g.nodes node.id) [
  | none ↦ ok (record g { nodes = put g.nodes node.id node }, node)
  | some existing ↦
      if existing.kind == node.kind
      then (let merged = merge_node existing node in
          ok (record g { nodes = put g.nodes node.id merged }, merged))
      else reused_across_kinds node.id existing.kind node.kind
]

unfoldable pub merge_edge : Edge → Edge → Edge
merge_edge existing edge = record existing {
  sources = union existing.sources edge.sources;
  doc_paths = union existing.doc_paths edge.doc_paths;
  props = set_defaults existing.props edge.props;
}

unfoldable pub upsert_edge : Graph → Edge → Graph × Edge
unfolding merge_edge key
upsert_edge g edge = elim (get g.edge_table (key edge)) [
  | none ↦ (record g { edge_table = put g.edge_table (key edge) edge }, edge)
  | some existing ↦
      let merged = merge_edge existing edge in
      (record g { edge_table = put g.edge_table (key edge) merged }, merged)
]

-- the test of the comprehension in `remove_node`
abbrev pub spared : String → Edge → Bool
spared node_id edge = not (edge.src_id == node_id) && not (edge.dst_id == node_id)

unfoldable pub remove_node : Graph → String → Graph
remove_node g node_id = record {
  nodes = remove g.nodes node_id;
  edge_table = keep_values (spared node_id) g.edge_table;
}

unfoldable pub remove_edge : Graph → String → EdgeKind → String → Graph
remove_edge g src_id kind dst_id = record g {
  edge_table = remove g.edge_table (src_id, (edge_value kind, dst_id));
}

unfoldable pub set_node : Graph → Node → Graph
set_node g node = record g { nodes = put g.nodes node.id node }

unfoldable pub set_edge : Graph → Edge → Graph
unfolding key
set_edge g edge = record g { edge_table = put g.edge_table (key edge) edge }

unfoldable pub get_node : Graph → String → Option Node
get_node g node_id = get g.nodes node_id
