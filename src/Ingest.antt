-- ===== src/Ingest.antt =====
-- packages/graphrag/src/graphrag/ingest.py: a full ingestion, an ingestion of what has changed, and
-- the rebuild, over a graph store and a vector store. The documents are those that `load_corpus` has
-- parsed, with the hashes of their files; `extract` is the deterministic extraction of extract.py with
-- its aliases. A backend that fails to count its chunks is not modelled.
pub mod Documents
pub mod Nodes
pub mod Edges
pub mod Runs
pub mod Outcome
pub mod Chunks
pub mod Invariant
pub mod Retry
pub mod Staged
use graphrag_aws_template.Prelude.{
  ℕ, ◌+◌, String, Bool, true, false, Option, none, some, List, [], ◌∷◌, map, length, keep, contains,
  is_empty, loop, string_eq, if◌then◌else◌,
}
use graphrag_aws_template.Prelude.Sets.{union, IterationOrder}
use graphrag_aws_template.Prelude.Dicts.{Dict, put, values, get}
use graphrag_aws_template.Prelude.Sorting.{sorted, text_order}
use graphrag_aws_template.Normalize.{Unicode}
use graphrag_aws_template.Sources.{ParsedDoc, doc_id}
use graphrag_aws_template.Visibility.{get_or}
use graphrag_aws_template.Chunk.{Chunk}
use graphrag_aws_template.Chunk.Corpus.{chunk_corpus, default_chunk_size, default_overlap}
use graphrag_aws_template.Model.{
  Node, Edge, Graph, EntityKind, Upserted, ok, reused_across_kinds, entity_value, edge_value, edges,
}
use graphrag_aws_template.Resolve.{build_graph, cross_source_merges}
use graphrag_aws_template.Labels.{Labels, label_graph, label_chunks}
use graphrag_aws_template.Delta.{Manifest, Delta, diff_manifests, added_doc_ids, removed_doc_ids}
use graphrag_aws_template.Store.{GraphStore}
use graphrag_aws_template.GraphDelta.{
  GraphDelta, NodeOrder, EdgeOrder, plan_graph_delta, apply_graph_delta,
}
use graphrag_aws_template.VectorStore.{Floats, EmbeddedChunk, VectorStore}
use graphrag_aws_template.Retrieval.{Embedder}

pub record IngestReport : Type 0 where
  pub parsed_docs : ℕ
  pub nodes : ℕ
  pub edges : ℕ
  pub by_entity_kind : Dict String ℕ
  pub by_edge_kind : Dict String ℕ
  pub merges : List String

-- `Counter(xs)`
unfoldable pub tally : List String → Dict String ℕ
unfolding put get_or loop
tally xs = loop (λ d x. put d x (get_or d x 0 + 1)) [] xs

-- `_report`
unfoldable pub report_on : Graph → ℕ → IngestReport
unfolding tally cross_source_merges edges values
report_on graph parsed_docs = record {
  parsed_docs = parsed_docs;
  nodes = length graph.nodes;
  edges = length (edges graph);
  by_entity_kind = tally (map (λ n. entity_value n.kind) (values graph.nodes));
  by_edge_kind = tally (map (λ e. edge_value e.kind) (edges graph));
  merges = cross_source_merges graph;
}

-- `manifest_from_docs` of delta.py, over the hashes of the files
unfoldable pub manifest_from_docs : (ParsedDoc → String) → List ParsedDoc → Manifest
unfolding put doc_id loop
manifest_from_docs hash docs = loop (λ out doc. put out (doc_id doc) (hash doc)) [] docs

pub record DeltaReport : Type 0 where
  pub delta : Delta
  pub new_manifest : Manifest
  pub before_nodes : ℕ
  pub before_edges : ℕ
  pub before_chunks : ℕ
  pub after_nodes : ℕ
  pub after_edges : ℕ
  pub after_chunks : ℕ
  pub orphans_removed : ℕ
  pub indexed_chunks : ℕ
  pub full_ingest : Bool

-- what the deterministic extraction of some documents gives
abbrev pub Extract : Type 0
Extract = List ParsedDoc → List Node × List Edge

-- The result, or one of the two `ValueError`s: an id at two kinds, or two absent rows.
pub data Ingested {ℓ} (A : Type ℓ) : Type ℓ where
  done : A → Ingested A
  at_two_kinds : String → EntityKind → EntityKind → Ingested A
  absent_rows : Ingested A

module _ (S : GraphStore) where
  unfoldable pub store_nodes : S.State → List Node → Upserted S.State
  store_nodes s [] = ok s
  store_nodes s (n ∷ ns) = elim (S.upsert_node s n) [
    | ok t ↦ store_nodes t ns
    | reused_across_kinds id k l ↦ reused_across_kinds id k l
  ]

  -- the part of `ingest` that writes the labelled graph
  unfoldable pub store_graph : S.State → Graph → Upserted S.State
  unfolding store_nodes loop values edges
  store_graph s graph = elim (store_nodes s (values graph.nodes)) [
    | ok t ↦ ok (loop S.upsert_edge t (edges graph))
    | reused_across_kinds id k l ↦ reused_across_kinds id k l
  ]

  unfoldable pub ingest :
      Extract → Labels → List ParsedDoc → S.State → Ingested (S.State × IngestReport)
  unfolding build_graph label_graph store_graph report_on
  ingest extract labels docs s = elim (build_graph (extract docs).0 (extract docs).1) [
    | reused_across_kinds id k l ↦ at_two_kinds id k l
    | ok resolved ↦
        let graph = label_graph resolved labels in
        elim (store_graph s graph) [
          | reused_across_kinds id k l ↦ at_two_kinds id k l
          | ok t ↦ done (t, report_on graph (length docs))
        ]
  ]

module _ (F : Floats) (V : VectorStore F) where
  -- for chunk, vector in zip(chunks, vectors): store.index_chunk(EmbeddedChunk(chunk, vector))
  unfoldable pub index_chunks : Embedder F → V.State → List Chunk → V.State
  unfolding loop
  index_chunks embedder v chunks =
      loop
        (λ w (c : Chunk).
          V.index_chunk w (record { chunk = c; vector = embedder.embed_text c.text }))
        v chunks

  -- The vector part: the chunks of the touched documents go, and the new ones are indexed.
  unfoldable pub reindex : Embedder F → V.State → List String → List Chunk → V.State
  unfolding index_chunks sorted
  reindex embedder v touched_ids chunks =
      index_chunks embedder
        (if is_empty touched_ids then v else V.delete_by_doc v (sorted touched_ids)) chunks

module _ (S : GraphStore) (F : Floats) (V : VectorStore F) (U : Unicode)
    (order : IterationOrder string_eq) (node_order : NodeOrder) (edge_order : EdgeOrder)
    (extract : Extract) (embedder : Embedder F) (labels : Labels) (hash : ParsedDoc → String) where
  -- the documents to ingest again
  unfoldable pub delta_docs : Option Manifest → List ParsedDoc → List ParsedDoc
  unfolding diff_manifests manifest_from_docs added_doc_ids keep contains doc_id
  delta_docs prev_manifest docs =
      let added_ids =
        added_doc_ids (diff_manifests order prev_manifest (manifest_from_docs hash docs)) in
      keep (λ doc. contains added_ids (doc_id doc)) docs

  -- the vector store afterwards, and the chunks
  unfoldable pub chunks_of : List ParsedDoc → List Chunk
  unfolding chunk_corpus label_chunks
  chunks_of docs = label_chunks (chunk_corpus U default_chunk_size default_overlap docs) labels

  -- from the resolved graph of the documents to ingest again
  unfoldable pub ingest_resolved :
      Option Manifest
      → List ParsedDoc
      → Graph
      → S.State
      → V.State
      → Ingested (S.State × V.State × DeltaReport)
  unfolding diff_manifests manifest_from_docs added_doc_ids removed_doc_ids delta_docs chunks_of
      label_graph plan_graph_delta apply_graph_delta reindex union
  ingest_resolved prev_manifest docs resolved s v =
      let new_manifest = manifest_from_docs hash docs in
      let delta = diff_manifests order prev_manifest new_manifest in
      let removed_ids = removed_doc_ids delta in
      let chunks = chunks_of (delta_docs prev_manifest docs) in
      elim (plan_graph_delta S node_order edge_order s (label_graph resolved labels) removed_ids) [
        | none ↦ absent_rows
        | some plan ↦
            let (t, orphans) = apply_graph_delta S s plan in
            let w = reindex F V embedder v (union removed_ids (added_doc_ids delta)) chunks in
            done (
              t,
              w,
              record {
                delta = delta;
                new_manifest = new_manifest;
                before_nodes = length (S.all_nodes s);
                before_edges = length (S.all_edges s);
                before_chunks = V.count v;
                after_nodes = length (S.all_nodes t);
                after_edges = length (S.all_edges t);
                after_chunks = V.count w;
                orphans_removed = orphans;
                indexed_chunks = length chunks;
                full_ingest = elim prev_manifest [ none ↦ true | some m ↦ false ];
              },
            )
      ]

  unfoldable pub ingest_delta :
      Option Manifest
      → List ParsedDoc
      → S.State
      → V.State
      → Ingested (S.State × V.State × DeltaReport)
  unfolding ingest_resolved build_graph delta_docs
  ingest_delta prev_manifest docs s v =
      let rows = extract (delta_docs prev_manifest docs) in
      elim (build_graph rows.0 rows.1) [
        | reused_across_kinds id k l ↦ at_two_kinds id k l
        | ok resolved ↦ ingest_resolved prev_manifest docs resolved s v
      ]

  unfoldable pub rebuild :
      List ParsedDoc → S.State → V.State → Ingested (S.State × V.State × DeltaReport)
  unfolding ingest_delta
  rebuild docs s v = ingest_delta none docs (S.clear s) (V.clear v)
