-- ===== src/Ingest/Nodes.antt =====
-- ingest.py, `ingest_delta`: the documents of the graph's nodes after the reconciliation.
use graphrag_aws_template.Prelude.{
  ◌≡◌, refl, sym, ◌∙◌, ap, String, Bool, true, ◌&&◌, ◌==◌, Option, none, some, List, [], ◌∷◌, map,
  all, all_at, contains, any, arith, is_some, is_empty, not, ◌||◌, string_eq, Bool-cases, inl, inr,
}
use graphrag_aws_template.Prelude.Sets.{IterationOrder}
use graphrag_aws_template.Prelude.Dicts.{get}
use graphrag_aws_template.Sources.{ParsedDoc, doc_id}
use graphrag_aws_template.Model.{Node, Graph, ok}
use graphrag_aws_template.Resolve.{build_graph}
use graphrag_aws_template.Resolve.Provenance.{build_graph-provenance, named_by}
use graphrag_aws_template.Model.Merge.{set_of}
use graphrag_aws_template.Resolve.Tables.{build_graph-IsWellFormed}
use graphrag_aws_template.Store.{GraphStore, IsLawful}
use graphrag_aws_template.Labels.{Labels, label_graph}
use graphrag_aws_template.Delta.{Manifest, diff_manifests, removed_doc_ids}
use graphrag_aws_template.Delta.Classify.{has}
use graphrag_aws_template.GraphDelta.{
  GraphDelta, NodeOrder, EdgeOrder, plan_graph_delta, apply_graph_delta, docs_of, or_empty,
}
use graphrag_aws_template.GraphDelta.Refines.{reconcile-node_documents}
use graphrag_aws_template.GraphDelta.Apply
use graphrag_aws_template.Ingest.{Extract}
use graphrag_aws_template.Ingest.Documents.{
  known, stripped, contains-removed, kept_document, label_graph-IsWellFormed, docs-label_graph,
}

-- Every document that a node of the store names is one of these.
abbrev pub NodesCite : (S : GraphStore) → S.State → (String → Bool) → Type 0
NodesCite S s d =
    (id p : String) → contains (or_empty (docs_of (S.get_node s id))) p ≡ true → d p ≡ true

-- What the extraction relies on: the rows of some documents name only those documents.
abbrev pub Cites : Extract → Type 0
Cites extract =
    (docs : List ParsedDoc)
    → all (λ (n : Node). all (λ p. contains (map doc_id docs) p) n.doc_paths) (extract docs).0
      ≡ true

cited_at :
    (q : String → Bool) (rows : List Node) (id p : String)
    → all (λ (n : Node). all q n.doc_paths) rows ≡ true
    → any (λ (n : Node). (n.id == id) && contains n.doc_paths p) rows ≡ true
    → q p ≡ true
unfolding all any
cited_at q [] id p h k = absurd (ground arith)
cited_at q (n ∷ rows) id p h k = ground (arith, all_at q n.doc_paths p, cited_at q rows id p)

set-docs : (o : Option Node) → set_of (λ n. n.doc_paths) o ≡ or_empty (docs_of o)
set-docs none = refl
set-docs (some n) = refl

-- The documents of a labelled graph that is resolved from some documents.
labelled-cited :
    (extract : Extract) (labels : Labels) (docs : List ParsedDoc) (g : Graph) (id p : String)
    → Cites extract
    → build_graph (extract docs).0 (extract docs).1 ≡ ok g
    → contains (or_empty (docs_of (get (label_graph g labels).nodes id))) p ≡ true
    → contains (map doc_id docs) p ≡ true
labelled-cited extract labels docs g id p cites built h =
    let same = (build_graph-provenance (extract docs).0 (extract docs).1 g id p built).1 in
    cited_at (λ p. contains (map doc_id docs) p) (extract docs).0 id p (cites docs)
      (sym same
        ∙ ap (λ ds. contains ds p) (set-docs (get g.nodes id))
        ∙ ap (λ o. contains (or_empty o) p) (sym (docs-label_graph g labels id))
        ∙ h)

module _ (S : GraphStore) (L : IsLawful S) (order : IterationOrder string_eq)
    (node_order : NodeOrder) (edge_order : EdgeOrder) (s : S.State) (valid : L.IsValid s) where
  -- Under every id, the documents are the old ones that are not stripped, and those that the rows name.
  pub reconciled-nodes :
      (extract : Extract) (labels : Labels) (prev : Option Manifest) (new : Manifest)
      (docs : List ParsedDoc) (g : Graph) (delta : GraphDelta) (id p : String)
      → build_graph (extract docs).0 (extract docs).1 ≡ ok g
      → plan_graph_delta S node_order edge_order s
          (label_graph g labels)
          (removed_doc_ids (diff_manifests order prev new))
        ≡ some delta
      → let after = or_empty (docs_of (S.get_node (apply_graph_delta S s delta).0 id)) in
        (contains after p ≡ (
          (contains (or_empty (docs_of (S.get_node s id))) p && not (stripped prev new p))
          || named_by (λ n. n.doc_paths) (extract docs).0 id p))
        × (is_some (S.get_node (apply_graph_delta S s delta).0 id) ≡ not (is_empty after))
  reconciled-nodes extract labels prev new docs g delta id p built planned =
      let removed = removed_doc_ids (diff_manifests order prev new) in
      let wf =
        label_graph-IsWellFormed g labels
          (build_graph-IsWellFormed (extract docs).0 (extract docs).1 g built) in
      let (merged, there) =
        reconcile-node_documents S L node_order edge_order s valid (label_graph g labels) wf removed
          delta planned id in
      let named =
        ap (λ o. contains (or_empty o) p) (docs-label_graph g labels id)
        ∙ ap (λ ds. contains ds p) (sym (set-docs (get g.nodes id)))
        ∙ (build_graph-provenance (extract docs).0 (extract docs).1 g id p built).1 in
      (
        merged p
            ∙ ap
                (λ b.
                  (contains (or_empty (docs_of (S.get_node s id))) p && not b)
                  || contains (or_empty (docs_of (get (label_graph g labels).nodes id))) p)
                (contains-removed order prev new p)
            ∙ ap
                (λ b.
                  (contains (or_empty (docs_of (S.get_node s id))) p && not (stripped prev new p))
                  || b)
                named,
        there,
      )

  pub reconciled-NodesCite :
      (extract : Extract) (labels : Labels) (prev : Option Manifest) (new : Manifest)
      (docs : List ParsedDoc) (g : Graph) (delta : GraphDelta)
      → Cites extract
      → ((p : String) → contains (map doc_id docs) p ≡ true → has new p ≡ true)
      → NodesCite S s (known prev)
      → build_graph (extract docs).0 (extract docs).1 ≡ ok g
      → plan_graph_delta S node_order edge_order s
          (label_graph g labels)
          (removed_doc_ids (diff_manifests order prev new))
        ≡ some delta
      → NodesCite S (apply_graph_delta S s delta).0 (has new)
  reconciled-NodesCite extract labels prev new docs g delta cites fresh before built planned id p
        h =
      let removed = removed_doc_ids (diff_manifests order prev new) in
      let wf =
        label_graph-IsWellFormed g labels
          (build_graph-IsWellFormed (extract docs).0 (extract docs).1 g built) in
      let merged =
        (reconcile-node_documents S L node_order edge_order s valid (label_graph g labels) wf
            removed delta planned id).0
          p in
      elim (Bool-cases (contains (or_empty (docs_of (get (label_graph g labels).nodes id))) p)) [
        | inl here ↦ fresh p (labelled-cited extract labels docs g id p cites built here)
        | inr elsewhere ↦ kept_document order prev new p (before id p (ground arith)) (ground arith)
      ]

  -- The store is valid after the plan is applied.
  pub apply_graph_delta-IsValid : (delta : GraphDelta) → L.IsValid (apply_graph_delta S s delta).0
  unfolding apply_graph_delta
  apply_graph_delta-IsValid delta =
      Apply.each-IsValid S L S.replace_edge L.replace_edge-IsValid delta.upsert_edges _ (
        Apply.each-IsValid S L (λ t x. S.delete_edge t x.0 x.1 x.2)
          (λ t x t_valid. L.delete_edge-IsValid t x.0 x.1 x.2 t_valid) delta.delete_edges _
          (Apply.each-IsValid S L S.replace_node L.replace_node-IsValid delta.upsert_nodes _ (
            Apply.each-IsValid S L S.delete_node L.delete_node-IsValid delta.delete_nodes s valid)))
