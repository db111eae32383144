-- ===== src/Ingest/Runs.antt =====
-- ingest.py, `ingest_delta`: a run over any vector store, and the parts of its result.
use graphrag_aws_template.Prelude.{
  ◌≡◌, refl, ◌∙◌, String, true, Option, Option-cases, some, List, map, contains, arith, string_eq,
  inl, inr,
}
use graphrag_aws_template.Prelude.Sets.{IterationOrder, union, contains-union}
use graphrag_aws_template.Normalize.{Unicode}
use graphrag_aws_template.Sources.{ParsedDoc, doc_id}
use graphrag_aws_template.Chunk.{Chunk}
use graphrag_aws_template.Chunk.Corpus.{chunk_corpus, default_chunk_size, default_overlap}
use graphrag_aws_template.Model.{Graph, Upserted, ok, reused_across_kinds}
use graphrag_aws_template.Resolve.{build_graph}
use graphrag_aws_template.Resolve.Tables.{build_graph-IsWellFormed}
use graphrag_aws_template.Store.{GraphStore, IsLawful}
use graphrag_aws_template.Labels.{Labels, label_graph, label_chunks}
use graphrag_aws_template.Delta.{Manifest, diff_manifests, added_doc_ids, removed_doc_ids}
use graphrag_aws_template.Delta.Classify.{has}
use graphrag_aws_template.GraphDelta.{
  GraphDelta, NodeOrder, EdgeOrder, plan_graph_delta, apply_graph_delta,
}
use graphrag_aws_template.GraphDelta.Refines.{plan_graph_delta-total}
use graphrag_aws_template.VectorStore.{Floats, VectorStore}
use graphrag_aws_template.Retrieval.{Embedder}
use graphrag_aws_template.Ingest.{
  Extract, DeltaReport, Ingested, done, at_two_kinds, absent_rows, manifest_from_docs, delta_docs,
  chunks_of, reindex, ingest_resolved, ingest_delta,
}
use graphrag_aws_template.Ingest.Documents.{
  touched, contains-removed, contains-added, has-manifest_from_docs, contains-map-keep,
  label_graph-IsWellFormed,
}

module _ (S : GraphStore) (F : Floats) (V : VectorStore F) (U : Unicode)
    (order : IterationOrder string_eq) (node_order : NodeOrder) (edge_order : EdgeOrder)
    (extract : Extract) (embedder : Embedder F) (labels : Labels) (hash : ParsedDoc → String) where
  abbrev pub run :
      Option Manifest
      → List ParsedDoc
      → S.State
      → V.State
      → Ingested (S.State × V.State × DeltaReport)
  run prev docs s v =
      ingest_delta S F V U order node_order edge_order extract embedder labels hash prev docs s v

  abbrev pub docs_again : Option Manifest → List ParsedDoc → List ParsedDoc
  docs_again prev docs =
      delta_docs S F V U order node_order edge_order extract embedder labels hash prev docs

  -- the labelled chunks of the documents to ingest again
  abbrev pub chunks_again : Option Manifest → List ParsedDoc → List Chunk
  chunks_again prev docs =
      label_chunks (chunk_corpus U default_chunk_size default_overlap (docs_again prev docs)) labels

  abbrev pub resolved_run :
      Option Manifest
      → List ParsedDoc
      → Graph
      → S.State
      → V.State
      → Ingested (S.State × V.State × DeltaReport)
  resolved_run prev docs g s v =
      ingest_resolved S F V U order node_order edge_order extract embedder labels hash prev docs g s
        v

  pub planned_run :
      (prev : Option Manifest) (docs : List ParsedDoc) (g : Graph) (s : S.State) (v : V.State)
      (plan : GraphDelta)
      → plan_graph_delta S node_order edge_order s
          (label_graph g labels)
          (removed_doc_ids (diff_manifests order prev (manifest_from_docs hash docs)))
        ≡ some plan
      → (x : S.State × V.State × DeltaReport) × (resolved_run prev docs g s v ≡ done x)
  unfolding ingest_resolved
  planned_run prev docs g s v plan planned = go (resolved_run prev docs g s v) refl
    where
      go :
          (u : Ingested (S.State × V.State × DeltaReport))
          → resolved_run prev docs g s v ≡ u
          → (x : S.State × V.State × DeltaReport) × (resolved_run prev docs g s v ≡ done x)
      go (done x) h = (x, h)
      go (at_two_kinds id k l) h = absurd (ground arith)
      go absent_rows h = absurd (ground arith)

  -- the parts of a result
  pub resolved_lem :
      (prev : Option Manifest) (docs : List ParsedDoc) (g : Graph) (s t : S.State) (v w : V.State)
      (r : DeltaReport)
      → resolved_run prev docs g s v ≡ done (t, w, r)
      → let new = manifest_from_docs hash docs in
        let delta = diff_manifests order prev new in
        (plan : GraphDelta) × (plan_graph_delta S node_order edge_order s
            (label_graph g labels)
            (removed_doc_ids delta)
          ≡ some plan)
        × (t ≡ (apply_graph_delta S s plan).0)
        × (w
            ≡ reindex F V embedder v (union (removed_doc_ids delta) (added_doc_ids delta)) (
                label_chunks
                  (chunk_corpus U default_chunk_size default_overlap (docs_again prev docs))
                  labels))
        × (r.new_manifest ≡ new)
  unfolding ingest_resolved chunks_of
  resolved_lem prev docs g s t v w r h =
      let new = manifest_from_docs hash docs in
      elim (Option-cases (
        plan_graph_delta S node_order edge_order s (label_graph g labels)
          (removed_doc_ids (diff_manifests order prev new)))) [
            | inl p ↦ absurd (ground arith)
            | inr (plan, p) ↦ (plan, p, ground arith, ground arith, ground arith)
          ]

  pub ingest_delta_lem :
      (prev : Option Manifest) (docs : List ParsedDoc) (s : S.State) (v : V.State)
      (x : S.State × V.State × DeltaReport)
      → run prev docs s v ≡ done x
      → let rows = extract (docs_again prev docs) in
        (g : Graph) × (build_graph rows.0 rows.1 ≡ ok g) × (resolved_run prev docs g s v ≡ done x)
  unfolding ingest_delta
  ingest_delta_lem prev docs s v x h =
      let rows = extract (docs_again prev docs) in go (build_graph rows.0 rows.1) refl
    where
      go :
          (u : Upserted Graph)
          → let rows = extract (docs_again prev docs) in
            build_graph rows.0 rows.1 ≡ u
            → (g : Graph) × (build_graph rows.0 rows.1 ≡ ok g)
              × (resolved_run prev docs g s v ≡ done x)
      go (ok g) built = (g, built, ground arith)
      go (reused_across_kinds id k l) built = absurd (ground arith)

  pub documents_again :
      (prev : Option Manifest) (docs : List ParsedDoc) (p : String)
      → contains (map doc_id (docs_again prev docs)) p ≡ true
      → has (manifest_from_docs hash docs) p ≡ true
  unfolding delta_docs
  documents_again prev docs p h =
      has-manifest_from_docs hash docs p ∙ contains-map-keep doc_id _ docs p h

  -- A run has a result if the documents to ingest again resolve to a graph.
  pub ingest_delta-done :
      (L : IsLawful S) (prev : Option Manifest) (docs : List ParsedDoc) (s : S.State) (v : V.State)
      (g : Graph)
      → L.IsValid s
      → let rows = extract (docs_again prev docs) in
        build_graph rows.0 rows.1 ≡ ok g
        → (x : S.State × V.State × DeltaReport) × (run prev docs s v ≡ done x)
          × (resolved_run prev docs g s v ≡ done x)
  unfolding ingest_delta
  ingest_delta-done L prev docs s v g valid built =
      let rows = extract (docs_again prev docs) in
      let wf = label_graph-IsWellFormed g labels (build_graph-IsWellFormed rows.0 rows.1 g built) in
      let removed = removed_doc_ids (diff_manifests order prev (manifest_from_docs hash docs)) in
      let (plan, planned) =
        plan_graph_delta-total S L node_order edge_order s valid (label_graph g labels) wf
          removed in
      let (x, ran) = planned_run prev docs g s v plan planned in (x, ground arith, ran)

  pub touched_lem :
      (prev : Option Manifest) (docs : List ParsedDoc) (p : String)
      → let new = manifest_from_docs hash docs in
        let delta = diff_manifests order prev new in
        contains (union (removed_doc_ids delta) (added_doc_ids delta)) p ≡ touched prev new p
  touched_lem prev docs p =
      let new = manifest_from_docs hash docs in
      let delta = diff_manifests order prev new in
      ground (
        arith,
        contains-union (removed_doc_ids delta) (added_doc_ids delta) p,
        contains-removed order prev new p,
        contains-added order prev new p,
      )
