-- ===== src/GraphDelta/Refines.antt =====
-- The plan and its application, together: what the store holds afterwards under every id and key.
use graphrag_aws_template.Prelude.{
  ◌≡◌, ◌∙◌, ap, String, true, not, ◌&&◌, ◌||◌, Option, none, some, List, map, arith, string_eq,
  pair_eq, contains, is_some, is_empty, if◌then◌else◌,
}
use graphrag_aws_template.Prelude.Dicts.{get}
use graphrag_aws_template.Prelude.Dicts.Entries.{first_of_two, filter_some}
use graphrag_aws_template.Model.{EdgeKey, Graph, key}
use graphrag_aws_template.Model.Merge.{props_of}
use graphrag_aws_template.Model.WellFormed.{id_of, IsWellFormed}
use graphrag_aws_template.Store.{GraphStore, IsLawful, edge_at}
use graphrag_aws_template.GraphDelta.{
  GraphDelta, NodeOrder, EdgeOrder, plan_nodes, plan_edges, plan_graph_delta, apply_graph_delta,
  each, outside, docs_of, edge_docs_of, or_empty,
}
use graphrag_aws_template.GraphDelta.Decisions.{outcome, DocsMerge, overridden}
use graphrag_aws_template.GraphDelta.NodeDecisions.{NodeOutcome, node_bag}
use graphrag_aws_template.GraphDelta.EdgeDecisions.{EdgeOutcome, edge_bag, id_key}
use graphrag_aws_template.GraphDelta.Plan.{last_named}
use graphrag_aws_template.GraphDelta.NodePhase
use graphrag_aws_template.GraphDelta.EdgePhase
use graphrag_aws_template.GraphDelta.Apply
use graphrag_aws_template.GraphDelta.NodeDecisions
use graphrag_aws_template.GraphDelta.EdgeDecisions

module _ (S : GraphStore) (L : IsLawful S) (node_order : NodeOrder) (edge_order : EdgeOrder)
    (s : S.State) (valid : L.IsValid s) (scratch : Graph) (wf : IsWellFormed scratch)
    (removed_ids : List String) where
  abbrev plan : Option GraphDelta
  plan = plan_graph_delta S node_order edge_order s scratch removed_ids

  -- The plan does not raise.
  pub plan_graph_delta-total : (delta : GraphDelta) × (plan ≡ some delta)
  unfolding plan_graph_delta
  plan_graph_delta-total =
      let (c, p) = NodePhase.plan_nodes-total S L node_order s valid scratch wf removed_ids in
      let (d, q) = EdgePhase.plan_edges-total S L edge_order s valid scratch wf removed_ids c.0 in
      (
        record { upsert_nodes = c.1; upsert_edges = d.1; delete_nodes = c.0; delete_edges = d.0 },
        ground arith,
      )

  module _ (delta : GraphDelta) (planned : plan ≡ some delta) where
    phases :
        (plan_nodes S node_order s scratch removed_ids
          ≡ some (delta.delete_nodes, delta.upsert_nodes))
        × (plan_edges S edge_order s scratch removed_ids delta.delete_nodes
            ≡ some (delta.delete_edges, delta.upsert_edges))
    unfolding plan_graph_delta
    phases =
        let (c, p) = NodePhase.plan_nodes-total S L node_order s valid scratch wf removed_ids in
        let (d, q) = EdgePhase.plan_edges-total S L edge_order s valid scratch wf removed_ids c.0 in
        ground arith

    -- the store after the application
    abbrev after : S.State
    after = (apply_graph_delta S s delta).0

    node_after :
        (id : String)
        → S.get_node after id
          ≡ outcome
              (NodePhase.node_choice S L node_order s valid scratch wf removed_ids id)
              (NodePhase.old_node S L node_order s valid scratch wf removed_ids id)
    unfolding apply_graph_delta
    node_after id =
        Apply.get-each-replace_edge S L delta.upsert_edges _ id
        ∙ Apply.get-each-drop_edge S L delta.delete_edges _ id
        ∙ Apply.get-each-replace_node S L delta.upsert_nodes _ id
        ∙ ap (first_of_two (last_named id_of id delta.upsert_nodes))
            (Apply.get-each-delete_node S L delta.delete_nodes s id)
        ∙ NodePhase.node_after S L node_order s valid scratch wf removed_ids
            (delta.delete_nodes, delta.upsert_nodes) phases.0 id

    edge_after :
        (k : EdgeKey)
        → let old =
            EdgePhase.old_edge S L edge_order s valid scratch wf removed_ids delta.delete_nodes in
          edge_at S after k
          ≡ outcome
              (EdgePhase.edge_choice S L edge_order s valid scratch wf removed_ids
                delta.delete_nodes k)
              (old k)
    unfolding apply_graph_delta
    edge_after k =
        let nodes_dropped = each S S.delete_node s delta.delete_nodes in
        let v =
          Apply.each-IsValid S L S.delete_node L.delete_node-IsValid delta.delete_nodes s valid in
        let nodes_set = each S S.replace_node nodes_dropped delta.upsert_nodes in
        let w =
          Apply.each-IsValid S L S.replace_node L.replace_node-IsValid delta.upsert_nodes
            nodes_dropped v in
        let edges_dropped = each S (Apply.drop_edge S) nodes_set delta.delete_edges in
        let u =
          Apply.each-IsValid S L (Apply.drop_edge S)
            (λ t x t_valid. L.delete_edge-IsValid t x.0 x.1 x.2 t_valid) delta.delete_edges
            nodes_set w in
        Apply.edge_at-each-replace_edge S L delta.upsert_edges edges_dropped k u
        ∙ ap (first_of_two (last_named key k delta.upsert_edges)) (
            Apply.edge_at-each-drop_edge S L delta.delete_edges nodes_set k w
            ∙ ap (λ o. if contains (map id_key delta.delete_edges) k then none else o)
                (Apply.edge_at-each-replace_node S L delta.upsert_nodes nodes_dropped k v
                  ∙ Apply.edge_at-each-delete_node S L delta.delete_nodes s k valid))
        ∙ EdgePhase.edge_after S L edge_order s valid scratch wf removed_ids delta.delete_nodes
            (delta.delete_edges, delta.upsert_edges) phases.1 k

    -- For a lawful store in a valid state and a well-formed scratch graph: under
    -- every id the reconciled store has a node exactly when some document contributes it, and
    -- its documents are those of the store's node that were not removed and those of the scratch
    -- graph's node.
    pub reconcile-node_documents :
        (id : String)
        → DocsMerge
            (docs_of (S.get_node s id))
            (docs_of (get scratch.nodes id))
            removed_ids
            (or_empty (docs_of (S.get_node after id)))
          × (is_some (S.get_node after id)
              ≡ not (is_empty (or_empty (docs_of (S.get_node after id)))))
    reconcile-node_documents id =
        let o = (NodePhase.node_decision S L node_order s valid scratch wf removed_ids id).1 in
        let same = NodePhase.old_node_lem S L node_order s valid scratch wf removed_ids id in
        rw (node_after id, ← same) (o.docs, NodeDecisions.documented o)

    -- For a lawful store in a valid state and a well-formed scratch graph: a node
    -- of the reconciled store has the scratch graph's value of each prop, and where that has
    -- none, the store's.
    pub reconcile-node_props :
        (id name : String)
        → is_some (S.get_node after id) ≡ true
        → get (props_of (λ n. n.props) (S.get_node after id)) name
          ≡ overridden (node_bag (S.get_node s id)) (node_bag (get scratch.nodes id)) name
    reconcile-node_props id name there =
        let o = (NodePhase.node_decision S L node_order s valid scratch wf removed_ids id).1 in
        let same = NodePhase.old_node_lem S L node_order s valid scratch wf removed_ids id in
        rw (node_after id, ← same) (o.props (rw (node_after id) at there) name)

    -- For a lawful store in a valid state and a well-formed scratch graph: under
    -- every key the reconciled store has an edge exactly when some document contributes it. Its
    -- documents are those of the store's edge that were not removed, unless a deleted node takes that
    -- edge away, and those of the scratch graph's edge.
    pub reconcile-edge_documents :
        (k : EdgeKey)
        → let old = filter_some (outside delta.delete_nodes) (edge_at S s k) in
          DocsMerge
            (edge_docs_of old)
            (edge_docs_of (get scratch.edge_table k))
            removed_ids
            (or_empty (edge_docs_of (edge_at S after k)))
          × (is_some (edge_at S after k)
              ≡ not (is_empty (or_empty (edge_docs_of (edge_at S after k)))))
    reconcile-edge_documents k =
        let o =
          (EdgePhase.edge_decision S L edge_order s valid scratch wf removed_ids delta.delete_nodes
            k).1 in
        rw (edge_after k) (o.docs, EdgeDecisions.documented o)

    -- the nodes planned for deletion
    plan-delete_nodes :
        (id : String)
        → contains delta.delete_nodes id ≡ (
            (is_some (S.get_node s id) || is_some (get scratch.nodes id))
            && not (is_some (S.get_node after id)))
    plan-delete_nodes id = ground (
      arith,
      NodePhase.dropped_nodes S L node_order s valid scratch wf removed_ids
          (delta.delete_nodes, delta.upsert_nodes) phases.0 id,
      NodePhase.listed_node S L node_order s valid scratch wf removed_ids id,
      NodePhase.old_node_lem S L node_order s valid scratch wf removed_ids id,
      node_after id,
      (NodePhase.node_decision S L node_order s valid scratch wf removed_ids id).1.left,
    )

    -- the edges planned for deletion
    plan-delete_edges :
        (k : EdgeKey)
        → contains (map id_key delta.delete_edges) k ≡ (
            is_some (filter_some (outside delta.delete_nodes) (edge_at S s k))
            && not (is_some (edge_at S after k)))
    plan-delete_edges k = ground (
      arith,
      EdgePhase.dropped_edges S L edge_order s valid scratch wf removed_ids delta.delete_nodes
          (delta.delete_edges, delta.upsert_edges) phases.1 k,
      EdgePhase.listed_edge S L edge_order s valid scratch wf removed_ids delta.delete_nodes k,
      edge_after k,
      EdgeDecisions.drops-EdgeOutcome
          (EdgePhase.old_edge S L edge_order s valid scratch wf removed_ids delta.delete_nodes k)
          (EdgePhase.new_edge S L edge_order s valid scratch wf removed_ids delta.delete_nodes k) _
          (EdgePhase.edge_decision S L edge_order s valid scratch wf removed_ids delta.delete_nodes
            k).1,
    )

  -- For a lawful store in a valid state and a well-formed scratch graph: the plan does not raise. It
  -- deletes exactly the nodes that the store or the scratch graph has and the reconciled store has
  -- not, and exactly those edges of the store that no deleted node takes away and that the reconciled
  -- store has not.
  pub plan_graph_delta-deletes :
      (delta : GraphDelta) × (plan ≡ some delta)
      × ((id : String)
          → contains delta.delete_nodes id ≡ (
              (is_some (S.get_node s id) || is_some (get scratch.nodes id))
              && not (is_some (S.get_node (apply_graph_delta S s delta).0 id))))
      × ((k : EdgeKey)
          → contains (map id_key delta.delete_edges) k ≡ (
              is_some (filter_some (outside delta.delete_nodes) (edge_at S s k))
              && not (is_some (edge_at S (apply_graph_delta S s delta).0 k))))
  plan_graph_delta-deletes =
      let (delta, planned) = plan_graph_delta-total in
      (delta, planned, plan-delete_nodes delta planned, plan-delete_edges delta planned)
