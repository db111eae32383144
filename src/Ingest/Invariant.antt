-- ===== src/Ingest/Invariant.antt =====
-- ingest.py, `ingest_delta` and `rebuild`: when they raise, and the invariant that they keep of the
-- graph store, the in-memory vector store and the manifest.
use graphrag_aws_template.Prelude.{
  ◌≡◌, refl, String, ◌<>◌, Bool, true, Option, none, some, List, [], ◌∷◌, map, all, contains, arith,
  string_eq,
}
use graphrag_aws_template.Prelude.Sets.{IterationOrder, union, contains-union}
use graphrag_aws_template.Prelude.Dicts.{get, keys}
use graphrag_aws_template.Normalize.{Unicode}
use graphrag_aws_template.Sources.{ParsedDoc, doc_id}
use graphrag_aws_template.Chunk.{Chunk}
use graphrag_aws_template.Chunk.Corpus.{chunk_corpus, default_chunk_size, default_overlap}
use graphrag_aws_template.Chunk.Windows.{is_of, chunk_corpus-is_of}
use graphrag_aws_template.Store.{GraphStore, IsLawful}
use graphrag_aws_template.Labels.{Labels, label_chunk, label_chunks}
use graphrag_aws_template.Delta.{Manifest, diff_manifests, added_doc_ids, removed_doc_ids}
use graphrag_aws_template.Delta.Classify.{has}
use graphrag_aws_template.GraphDelta.{NodeOrder, EdgeOrder}
use graphrag_aws_template.VectorStore.{
  Floats, Items, memory_vector_store, doc_id as chunk_doc_id, clear,
}
use graphrag_aws_template.VectorStore.Rows.{IsIndex}
use graphrag_aws_template.Retrieval.{Embedder}
use graphrag_aws_template.Ingest.{Extract, DeltaReport, Ingested, done, manifest_from_docs, rebuild}
use graphrag_aws_template.Ingest.Runs
use graphrag_aws_template.Ingest.Documents.{known, kept_document}
use graphrag_aws_template.Ingest.Nodes.{
  NodesCite, Cites, reconciled-NodesCite, apply_graph_delta-IsValid,
}
use graphrag_aws_template.Ingest.Edges.{EdgesCite, CitesEdges, reconciled-EdgesCite}
use graphrag_aws_template.Ingest.Chunks.{ChunksCite, all_of_docs, reindex-ChunksCite}

pub all_of_docs-label_chunks :
    (F : Floats) (d : String → Bool) (docs : List ParsedDoc) (labels : Labels) (U : Unicode)
    (chunks : List Chunk)
    → ((p : String) → contains (map doc_id docs) p ≡ true → d p ≡ true)
    → all (is_of U default_chunk_size default_overlap docs) chunks ≡ true
    → all_of_docs F d (label_chunks chunks labels) ≡ true
unfolding all label_chunks label_chunk chunk_doc_id
all_of_docs-label_chunks F d docs labels U [] h k = refl
all_of_docs-label_chunks F d docs labels U (c ∷ chunks) h k = ground (
  arith,
  h (c.source <> ("/" <> c.doc_path)),
  all_of_docs-label_chunks F d docs labels U chunks h,
)

-- The nodes and edges of the graph store name only documents of the manifest, the chunks of the
-- vector store are of such documents, and each store is in a state that it can be in.
pub record IsConsistent (S : GraphStore) (L : IsLawful S) (F : Floats) (manifest : Option Manifest)
    (s : S.State) (v : Items F) : Type 0 where
  pub valid : L.IsValid s
  pub index : IsIndex F v
  pub nodes : NodesCite S s (known manifest)
  pub edges : EdgesCite S s (known manifest)
  pub chunks : ChunksCite F v (known manifest)

module _ (S : GraphStore) (L : IsLawful S) (F : Floats) (U : Unicode)
    (order : IterationOrder string_eq) (node_order : NodeOrder) (edge_order : EdgeOrder)
    (extract : Extract) (embedder : Embedder F) (labels : Labels) (hash : ParsedDoc → String) where
  abbrev pub rebuilt :
      List ParsedDoc → S.State → Items F → Ingested (S.State × Items F × DeltaReport)
  rebuilt docs s v =
      rebuild S F (memory_vector_store F) U order node_order edge_order extract embedder labels hash
        docs s v

  -- Over a lawful graph store and the in-memory vector store, with an extraction whose node and edge
  -- rows name only the documents that they come from: if the nodes and edges of the graph store name
  -- only documents of the old manifest, and the chunks of the vector store are of such documents, then
  -- after an ingestion that returns both hold of the reported new manifest, and each store is again in
  -- a state that it can be in.
  pub ingest_delta-IsConsistent :
      (prev : Option Manifest) (docs : List ParsedDoc) (s t : S.State) (v w : Items F)
      (r : DeltaReport)
      → Cites extract
      → CitesEdges extract
      → IsConsistent S L F prev s v
      → Runs.run S F
          (memory_vector_store F)
          U
          order
          node_order
          edge_order
          extract
          embedder
          labels
          hash
          prev
          docs
          s
          v
        ≡ done (t, w, r)
      → IsConsistent S L F (some r.new_manifest) t w
  ingest_delta-IsConsistent prev docs s t v w r cites edges_cite c h =
      let (g, built, ran) =
        Runs.ingest_delta_lem S F (memory_vector_store F) U order node_order edge_order extract
          embedder labels hash prev docs s v (t, w, r) h in
      let (plan, planned, same_t, same_w, same_m) =
        Runs.resolved_lem S F (memory_vector_store F) U order node_order edge_order extract embedder
          labels hash prev docs g s t v w r ran in
      let new = manifest_from_docs hash docs in
      let delta = diff_manifests order prev new in
      let again =
        Runs.docs_again S F (memory_vector_store F) U order node_order edge_order extract embedder
          labels hash prev docs in
      let again_new =
        Runs.documents_again S F (memory_vector_store F) U order node_order edge_order extract
          embedder labels hash prev docs in
      let graph =
        reconciled-NodesCite S L order node_order edge_order s c.valid extract labels prev new again
          g plan cites again_new c.nodes built planned in
      let graph_edges =
        reconciled-EdgesCite S L order node_order edge_order s c.valid extract labels prev new again
          g plan edges_cite again_new c.edges built planned in
      let vectors =
        reindex-ChunksCite F embedder v (union (removed_doc_ids delta) (added_doc_ids delta))
          (label_chunks (chunk_corpus U default_chunk_size default_overlap again) labels)
          (known prev) (has new) c.index c.chunks
          (λ p old out.
            kept_document order prev new p old
              (ground (arith, contains-union (removed_doc_ids delta) (added_doc_ids delta) p)))
          (all_of_docs-label_chunks F (has new) again labels U _ again_new
            (chunk_corpus-is_of U default_chunk_size default_overlap again)) in
      rw (same_t, same_w, same_m)
        (record {
          valid = apply_graph_delta-IsValid S L order node_order edge_order s c.valid plan;
          index = vectors.0;
          nodes = graph;
          edges = graph_edges;
          chunks = vectors.1;
        })

  -- The same of a rebuild that returns, whatever the stores held.
  pub rebuild-IsConsistent :
      (docs : List ParsedDoc) (s t : S.State) (v w : Items F) (r : DeltaReport)
      → Cites extract
      → CitesEdges extract
      → rebuilt docs s v ≡ done (t, w, r)
      → IsConsistent S L F (some r.new_manifest) t w
  unfolding rebuild clear
  rebuild-IsConsistent docs s t v w r cites edges_cite h =
      ingest_delta-IsConsistent none docs (S.clear s) t [] w r cites edges_cite
        (record {
          valid = L.clear-IsValid s;
          index = unfold keys get in record { once = tt; named = λ k ec p. absurd (ground arith) };
          nodes = λ id p k. unfold contains in absurd (ground (arith, L.get-clear s id));
          edges = λ k p m. unfold contains in absurd (ground (arith, L.edge_at-clear s k));
          chunks = λ id ec p. unfold get in absurd (ground arith);
        })
        h
