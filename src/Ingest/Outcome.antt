-- ===== src/Ingest/Outcome.antt =====
-- ingest.py, `ingest_delta`: whether a run returns, and what it leaves in the two stores.
use graphrag_aws_template.Prelude.{
  ◌≡◌, ◌∙◌, String, Option, List, map, contains, arith, string_eq, is_some, is_empty, not, ap,
  false, ◌&&◌, ◌||◌,
}
use graphrag_aws_template.Prelude.Sets.{IterationOrder, union}
use graphrag_aws_template.Prelude.Dicts.{get}
use graphrag_aws_template.Normalize.{Unicode}
use graphrag_aws_template.Sources.{ParsedDoc}
use graphrag_aws_template.Chunk.{Chunk}
use graphrag_aws_template.Model.{EntityKind, Graph, ok, reused_across_kinds}
use graphrag_aws_template.Resolve.{build_graph}
use graphrag_aws_template.Store.{GraphStore, IsLawful}
use graphrag_aws_template.Labels.{Labels}
use graphrag_aws_template.Delta.{Manifest, diff_manifests, added_doc_ids, removed_doc_ids}
use graphrag_aws_template.GraphDelta.{NodeOrder, EdgeOrder}
use graphrag_aws_template.VectorStore.{
  EmbeddedChunk, Floats, Items, memory_vector_store, doc_id as chunk_doc_id,
}
use graphrag_aws_template.VectorStore.Rows.{IsIndex}
use graphrag_aws_template.Retrieval.{Embedder}
use graphrag_aws_template.Ingest.{
  Extract, DeltaReport, Ingested, done, at_two_kinds, manifest_from_docs, reindex, ingest_delta,
}
use graphrag_aws_template.Ingest.Documents.{stripped, touched}
use graphrag_aws_template.Model.{Node}
use graphrag_aws_template.Prelude.Dicts.Entries.{filter_some}
use graphrag_aws_template.Resolve.Provenance.{named_by}
use graphrag_aws_template.VectorStore.Rows.{filter_some-ext}
use graphrag_aws_template.Ingest.Nodes.{reconciled-nodes}
use graphrag_aws_template.Ingest.Chunks.{cleared, get-cleared, get-indexed_other}
use graphrag_aws_template.Ingest.Runs
use graphrag_aws_template.GraphDelta.{docs_of, or_empty}

module _ (S : GraphStore) (s t : S.State) (rows : List Node) (prev : Option Manifest)
    (new : Manifest) where
  -- Under every id, the documents are the old ones that are not stripped, and those that the rows of
  -- the id name; and the node is there exactly if it has a document.
  abbrev pub NodesMoved : Type 0
  NodesMoved =
      (id p : String)
      → (contains (or_empty (docs_of (S.get_node t id))) p ≡ (
          (contains (or_empty (docs_of (S.get_node s id))) p && not (stripped prev new p))
          || named_by (λ n. n.doc_paths) rows id p))
        × (is_some (S.get_node t id) ≡ not (is_empty (or_empty (docs_of (S.get_node t id)))))

-- Under an id that no new chunk has, the old chunk is there exactly if its document is not touched.
abbrev pub ChunksLeft :
    (F : Floats) → Items F → Items F → List Chunk → Option Manifest → Manifest → Type 0
ChunksLeft F v w chunks prev new =
    (id : String)
    → contains (map (λ (c : Chunk). c.id) chunks) id ≡ false
    → get w id
      ≡ filter_some (λ (ec : EmbeddedChunk F). not (touched prev new (chunk_doc_id F ec.chunk)))
          (get v id)

module _ (S : GraphStore) (L : IsLawful S) (F : Floats) (U : Unicode)
    (order : IterationOrder string_eq) (node_order : NodeOrder) (edge_order : EdgeOrder)
    (extract : Extract) (embedder : Embedder F) (labels : Labels) (hash : ParsedDoc → String) where
  abbrev pub run :
      Option Manifest
      → List ParsedDoc
      → S.State
      → Items F
      → Ingested (S.State × Items F × DeltaReport)
  run =
      Runs.run S F (memory_vector_store F) U order node_order edge_order extract embedder labels
        hash

  abbrev pub docs_again : Option Manifest → List ParsedDoc → List ParsedDoc
  docs_again =
      Runs.docs_again S F (memory_vector_store F) U order node_order edge_order extract embedder
        labels hash

  abbrev pub chunks_again : Option Manifest → List ParsedDoc → List Chunk
  chunks_again =
      Runs.chunks_again S F (memory_vector_store F) U order node_order edge_order extract embedder
        labels hash

  -- Over a lawful graph store in a valid state, and an in-memory vector store that holds each chunk
  -- once. If the documents to ingest again resolve to a graph, the ingestion has a result: under every
  -- id, the node's documents are the old ones that are neither gone nor changed, and those that the
  -- extracted rows of the id name, and the node is there exactly if it has a document; under every id
  -- of no new chunk, the old chunk is there exactly if its document is unchanged. If those documents
  -- use an id at two kinds, the ingestion raises that.
  pub ingest_delta-outcome :
      (prev : Option Manifest) (docs : List ParsedDoc) (s : S.State) (v : Items F)
      → L.IsValid s
      → IsIndex F v
      → let rows = extract (docs_again prev docs) in
        let new = manifest_from_docs hash docs in
        ((g : Graph)
          → build_graph rows.0 rows.1 ≡ ok g
          → (x : S.State × Items F × DeltaReport) × (run prev docs s v ≡ done x)
            × NodesMoved S s x.0 rows.0 prev new
            × ChunksLeft F v x.1 (chunks_again prev docs) prev new)
        × ((id : String) (k l : EntityKind)
            → build_graph rows.0 rows.1 ≡ reused_across_kinds id k l
            → run prev docs s v ≡ at_two_kinds id k l)
  ingest_delta-outcome prev docs s v valid index = (
    λ g built.
        let rows = extract (docs_again prev docs) in
        let new = manifest_from_docs hash docs in
        let delta = diff_manifests order prev new in
        let all_touched = union (removed_doc_ids delta) (added_doc_ids delta) in
        let chunks = chunks_again prev docs in
        let (x, ran, resolved) =
          Runs.ingest_delta-done S F (memory_vector_store F) U order node_order edge_order extract
            embedder labels hash L prev docs s v g valid built in
        let (plan, planned, same_t, same_w, same_m) =
          Runs.resolved_lem S F (memory_vector_store F) U order node_order edge_order extract
            embedder labels hash prev docs g s x.0 v x.1 x.2 resolved in
        (
          x,
          ran,
          (λ id p. rw same_t (
              reconciled-nodes S L order node_order edge_order s valid extract labels prev new
                (docs_again prev docs) g plan id p built planned)),
          (λ id other. rw same_w (
              unfold reindex in
              get-indexed_other F embedder chunks (cleared F embedder v all_touched) id other
              ∙ get-cleared F embedder v all_touched id index
              ∙ filter_some-ext _ _ (get v id) (λ ec. ap not (
                  Runs.touched_lem S F (memory_vector_store F) U order node_order edge_order extract
                    embedder labels hash prev docs (chunk_doc_id F ec.chunk))))),
        ),
    λ id k l built. unfold ingest_delta in ground arith,
  )
