-- ===== src/Tests/Reconciled.antt =====
-- A reconciliation that withdraws a document and reads another: the KEP goes, with the edge that it
-- contributed, and Alice stays.
use graphrag_aws_template.Prelude.Dicts.{keep_values}
use graphrag_aws_template.Model.{edges}
use graphrag_aws_template.Prelude.Dicts.{remove}
use graphrag_aws_template.Model.{remove_node}
use graphrag_aws_template.Prelude.Dicts.{put}
use graphrag_aws_template.Prelude.Dicts.{get}
use graphrag_aws_template.Model.{edge_value}
use graphrag_aws_template.Model.{entity_value}
use graphrag_aws_template.Prelude.{contains}
use graphrag_aws_template.Prelude.{keep}
use graphrag_aws_template.Model.{set_node}
use graphrag_aws_template.Model.{set_edge}
use graphrag_aws_template.Prelude.Dicts.{values}
use graphrag_aws_template.Prelude.Dicts.{index_by}
use graphrag_aws_template.Prelude.Dicts.Entries.{filter_some}
use graphrag_aws_template.GraphDelta.{outside}
use graphrag_aws_template.GraphDelta.EdgeDecisions.{id_key}
use graphrag_aws_template.Model.{EdgeKey}
use graphrag_aws_template.Prelude.{
  String, string_eq, pair_eq, map, ◌&&◌, ◌||◌, ◌≡◌, refl, true, false, not, is_empty, is_some, some,
  none, [], ◌∷◌,
}
use graphrag_aws_template.Model.{Node, Graph, get_node, key, person, text}
use graphrag_aws_template.Store.Memory.{memory_store}
use graphrag_aws_template.Store.Memory.Lawful.{memory_laws, memory-IsValid}
use graphrag_aws_template.Store.{edge_at}
use graphrag_aws_template.GraphDelta.{GraphDelta, plan_graph_delta, apply_graph_delta}
use graphrag_aws_template.GraphDelta.Decisions.{DocsMerge, overridden}
use graphrag_aws_template.GraphDelta.Refines
use graphrag_aws_template.Tests.Fixtures.{
  as_listed, edges_as_listed, organisation, organisation-IsWellFormed, extracted,
  extracted-IsWellFormed, withdrawn, alice_again, alice, sig_owns,
}

abbrev alice_after : Node
alice_after = record {
  id = "person:alice";
  kind = person;
  props = ("name", text "Alice B.") ∷ ("visibility", text "internal") ∷ [];
  sources = "community" ∷ [];
  doc_paths = "community/sigs.yaml" ∷ "community/readme.md" ∷ [];
}

abbrev pub planned_delta : GraphDelta
planned_delta = record {
  upsert_nodes = alice_after ∷ [];
  upsert_edges = [];
  delete_nodes = "kep:1" ∷ [];
  delete_edges = [];
}

planned :
    plan_graph_delta memory_store as_listed edges_as_listed organisation extracted withdrawn
    ≡ some planned_delta
unfolding plan_graph_delta index_by values set_edge set_node keep contains entity_value edge_value
planned = refl

-- The reconciled store.
abbrev reconciled : Graph
reconciled = (apply_graph_delta memory_store organisation planned_delta).0

reconcile-node_documents_example :
    DocsMerge (some alice.doc_paths) (some alice_again.doc_paths) withdrawn alice_after.doc_paths
    × (true ≡ not (is_empty alice_after.doc_paths))
unfolding get_node get apply_graph_delta set_edge set_node put remove_node remove
reconcile-node_documents_example =
    Refines.reconcile-node_documents memory_store memory_laws as_listed edges_as_listed organisation
      (memory-IsValid organisation organisation-IsWellFormed) extracted extracted-IsWellFormed
      withdrawn planned_delta planned "person:alice"

reconcile-edge_documents_example :
    DocsMerge none none withdrawn []
    × (is_some (edge_at memory_store reconciled (key sig_owns)) ≡ false)
unfolding get index_by set_node edges values apply_graph_delta set_edge remove_node edge_value
    keep_values contains keep
reconcile-edge_documents_example =
    Refines.reconcile-edge_documents memory_store memory_laws as_listed edges_as_listed organisation
      (memory-IsValid organisation organisation-IsWellFormed) extracted extracted-IsWellFormed
      withdrawn planned_delta planned (key sig_owns)

reconcile-node_props_example :
    some (text "Alice B.") ≡ overridden (some alice.props) (some alice_again.props) "name"
unfolding get_node get apply_graph_delta set_node put remove_node remove set_edge
reconcile-node_props_example =
    Refines.reconcile-node_props memory_store memory_laws as_listed edges_as_listed organisation
      (memory-IsValid organisation organisation-IsWellFormed) extracted extracted-IsWellFormed
      withdrawn planned_delta planned "person:alice" "name" refl

plan_graph_delta-deletes_example :
    (delta : GraphDelta) × (plan_graph_delta memory_store as_listed edges_as_listed organisation
        extracted withdrawn
      ≡ some delta)
    × ((id : String)
        → contains delta.delete_nodes id ≡ (
            (is_some (memory_store.get_node organisation id) || is_some (get extracted.nodes id))
            && not (
                is_some (
                  memory_store.get_node (apply_graph_delta memory_store organisation delta).0 id))))
    × ((k : EdgeKey)
        → contains (map id_key delta.delete_edges) k ≡ (
            is_some (filter_some (outside delta.delete_nodes) (edge_at memory_store organisation k))
            && not (
                is_some
                  (edge_at memory_store (apply_graph_delta memory_store organisation delta).0 k))))
plan_graph_delta-deletes_example =
    Refines.plan_graph_delta-deletes memory_store memory_laws as_listed edges_as_listed organisation
      (memory-IsValid organisation organisation-IsWellFormed) extracted extracted-IsWellFormed
      withdrawn
