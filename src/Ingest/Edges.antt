-- ===== src/Ingest/Edges.antt =====
-- ingest.py, `ingest_delta`: the documents of the graph's edges after the reconciliation.
use graphrag_aws_template.Prelude.{
  ◌≡◌, refl, sym, ◌∙◌, ap, String, Bool, true, Option, none, some, List, [], ◌∷◌, map, all, all_at,
  contains, any, arith, string_eq, pair_eq, Bool-cases, inl, inr,
}
use graphrag_aws_template.Prelude.Sets.{IterationOrder}
use graphrag_aws_template.Prelude.Dicts.{get}
use graphrag_aws_template.Prelude.Dicts.Entries.{filter_some}
use graphrag_aws_template.Sources.{ParsedDoc, doc_id}
use graphrag_aws_template.Model.{Edge, EdgeKey, Graph, ok}
use graphrag_aws_template.Model.Merge.{set_of}
use graphrag_aws_template.Resolve.{build_graph}
use graphrag_aws_template.Resolve.EdgeRows.{key_named_by, build_graph-edge_documents}
use graphrag_aws_template.Resolve.Tables.{build_graph-IsWellFormed}
use graphrag_aws_template.Store.{GraphStore, IsLawful, edge_at}
use graphrag_aws_template.Labels.{Labels, label_graph}
use graphrag_aws_template.Delta.{Manifest, diff_manifests, removed_doc_ids}
use graphrag_aws_template.Delta.Classify.{has}
use graphrag_aws_template.GraphDelta.{
  GraphDelta, NodeOrder, EdgeOrder, plan_graph_delta, apply_graph_delta, edge_docs_of, or_empty,
  outside,
}
use graphrag_aws_template.GraphDelta.Refines.{reconcile-edge_documents}
use graphrag_aws_template.Ingest.{Extract}
use graphrag_aws_template.Ingest.Documents.{
  known, kept_document, label_graph-IsWellFormed, edge_docs-label_graph,
}

-- Every document that an edge of the store names is one of these.
abbrev pub EdgesCite : (S : GraphStore) → S.State → (String → Bool) → Type 0
EdgesCite S s d =
    (k : EdgeKey) (p : String)
    → contains (or_empty (edge_docs_of (edge_at S s k))) p ≡ true
    → d p ≡ true

-- What the extraction relies on: the edges of some documents name only those documents.
abbrev pub CitesEdges : Extract → Type 0
CitesEdges extract =
    (docs : List ParsedDoc)
    → all (λ (e : Edge). all (λ p. contains (map doc_id docs) p) e.doc_paths) (extract docs).1
      ≡ true

cited_at :
    (q : String → Bool) (rows : List Edge) (k : EdgeKey) (p : String)
    → all (λ (e : Edge). all q e.doc_paths) rows ≡ true
    → key_named_by rows k p ≡ true
    → q p ≡ true
unfolding all any
cited_at q [] k p h j = absurd (ground arith)
cited_at q (e ∷ rows) k p h j = ground (arith, all_at q e.doc_paths p, cited_at q rows k p)

set-docs : (o : Option Edge) → set_of (λ e. e.doc_paths) o ≡ or_empty (edge_docs_of o)
set-docs none = refl
set-docs (some e) = refl

-- The documents of a labelled graph are those that the rows name.
pub labelled-key_named_by :
    (extract : Extract) (labels : Labels) (docs : List ParsedDoc) (g : Graph) (k : EdgeKey)
    (p : String)
    → build_graph (extract docs).0 (extract docs).1 ≡ ok g
    → contains (or_empty (edge_docs_of (get (label_graph g labels).edge_table k))) p
      ≡ key_named_by (extract docs).1 k p
labelled-key_named_by extract labels docs g k p built =
    ap (λ o. contains (or_empty o) p) (edge_docs-label_graph g labels k)
    ∙ ap (λ ds. contains ds p) (sym (set-docs (get g.edge_table k)))
    ∙ build_graph-edge_documents (extract docs).0 (extract docs).1 g k p built

filter-docs :
    (q : Edge → Bool) (o : Option Edge) (p : String)
    → contains (or_empty (edge_docs_of (filter_some q o))) p ≡ true
    → contains (or_empty (edge_docs_of o)) p ≡ true
unfolding contains
filter-docs q none p h = h
filter-docs q (some e) p h = ground arith

module _ (S : GraphStore) (L : IsLawful S) (order : IterationOrder string_eq)
    (node_order : NodeOrder) (edge_order : EdgeOrder) (s : S.State) (valid : L.IsValid s) where
  pub reconciled-EdgesCite :
      (extract : Extract) (labels : Labels) (prev : Option Manifest) (new : Manifest)
      (docs : List ParsedDoc) (g : Graph) (delta : GraphDelta)
      → CitesEdges extract
      → ((p : String) → contains (map doc_id docs) p ≡ true → has new p ≡ true)
      → EdgesCite S s (known prev)
      → build_graph (extract docs).0 (extract docs).1 ≡ ok g
      → plan_graph_delta S node_order edge_order s
          (label_graph g labels)
          (removed_doc_ids (diff_manifests order prev new))
        ≡ some delta
      → EdgesCite S (apply_graph_delta S s delta).0 (has new)
  reconciled-EdgesCite extract labels prev new docs g delta cites fresh before built planned k p h =
      let removed = removed_doc_ids (diff_manifests order prev new) in
      let wf =
        label_graph-IsWellFormed g labels
          (build_graph-IsWellFormed (extract docs).0 (extract docs).1 g built) in
      let merged =
        (reconcile-edge_documents S L node_order edge_order s valid (label_graph g labels) wf
            removed delta planned k).0
          p in
      let named = labelled-key_named_by extract labels docs g k p built in
      elim (Bool-cases (key_named_by (extract docs).1 k p)) [
        | inl here ↦
            fresh p
              (cited_at (λ p. contains (map doc_id docs) p) (extract docs).1 k p (cites docs) here)
        | inr elsewhere ↦
            kept_document order prev new p
              (before k p
                (filter-docs (outside delta.delete_nodes) (edge_at S s k) p (ground arith)))
              (ground arith)
      ]
