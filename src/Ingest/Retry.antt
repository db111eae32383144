-- ===== src/Ingest/Retry.antt =====
-- ingest.py, `ingest_delta`: a run after one that stopped half-way through its vector part, over a
-- store that files every chunk it is given under a new id, as store/opensearch.py does, which posts each
-- chunk without an id and deletes by a query on the documents.
use graphrag_aws_template.Prelude.{
  ◌≡◌, refl, ◌∙◌, String, Bool, true, Option, List, [], ◌∷◌, map, ◌++◌, ℕ, zero, suc, sym, ap, not,
  keep, take, loop, all, contains, arith, string_eq,
}
use graphrag_aws_template.Prelude.Keeping.{
  append-nil, append_assoc, keep-ext, keep-append, keep_idem, keep_all, kept-passes,
}
use graphrag_aws_template.Prelude.Sorting.{sorted, contains-sorted, text_order}
use graphrag_aws_template.Ingest.{index_chunks}
use graphrag_aws_template.Ingest.Invariant.{all_of_docs-label_chunks}
use graphrag_aws_template.Prelude.Sets.{IterationOrder}
use graphrag_aws_template.Normalize.{Unicode}
use graphrag_aws_template.Sources.{ParsedDoc, doc_id}
use graphrag_aws_template.Chunk.{Chunk}
use graphrag_aws_template.Chunk.Corpus.{default_chunk_size, default_overlap}
use graphrag_aws_template.Chunk.Windows.{chunk_corpus-is_of}
use graphrag_aws_template.Store.{GraphStore}
use graphrag_aws_template.Labels.{Labels}
use graphrag_aws_template.Delta.{Manifest, diff_manifests, added_doc_ids}
use graphrag_aws_template.GraphDelta.{NodeOrder, EdgeOrder}
use graphrag_aws_template.VectorStore.{Floats, VectorStore, doc_id as chunk_doc_id}
use graphrag_aws_template.Retrieval.{Embedder}
use graphrag_aws_template.Ingest.{
  Extract, DeltaReport, Ingested, done, manifest_from_docs, delta_docs, reindex,
}
use graphrag_aws_template.Ingest.Documents.{touched, contains-added}
use graphrag_aws_template.VectorStore.{EmbeddedChunk}
use graphrag_aws_template.Ingest.Runs

-- The store holds a list of chunks: one that is indexed comes behind the others, whatever its id, and a
-- deletion by documents takes away exactly the chunks of those documents.
pub record IsBag (F : Floats) (V : VectorStore F) (contents : V.State → List (EmbeddedChunk F))
    : Type 0 where
  pub index_chunk :
      (v : V.State) (ec : EmbeddedChunk F) → contents (V.index_chunk v ec) ≡ contents v ++ ec ∷ []
  pub delete_by_doc :
      (v : V.State) (ids : List String)
      → contents (V.delete_by_doc v ids)
        ≡ keep (λ (ec : EmbeddedChunk F). not (contains ids (chunk_doc_id F ec.chunk))) (contents v)

module _ (F : Floats) (embedder : Embedder F) where
  -- a chunk with the embedding of its text
  abbrev pub embedded : Chunk → EmbeddedChunk F
  embedded c = record { chunk = c; vector = embedder.embed_text c.text }

  none_kept :
      (q : String → Bool) (n : ℕ) (chunks : List Chunk)
      → all (λ (c : Chunk). q (chunk_doc_id F c)) chunks ≡ true
      → keep
          (λ (ec : EmbeddedChunk F). not (q (chunk_doc_id F ec.chunk)))
          (map embedded (take n chunks))
        ≡ []
  unfolding keep take all
  none_kept q zero chunks h = refl
  none_kept q (suc n) [] h = refl
  none_kept q (suc n) (c ∷ chunks) h = ground (arith, none_kept q n chunks)

  module _ (V : VectorStore F) (contents : V.State → List (EmbeddedChunk F))
      (bag : IsBag F V contents) where
    contents-index_chunks :
        (v : V.State) (chunks : List Chunk)
        → contents (index_chunks F V embedder v chunks) ≡ contents v ++ map embedded chunks
    unfolding index_chunks loop
    contents-index_chunks v [] = sym (append-nil (contents v))
    contents-index_chunks v (c ∷ chunks) =
        contents-index_chunks (V.index_chunk v (embedded c)) chunks
        ∙ ap (λ xs. xs ++ map embedded chunks) (bag.index_chunk v (embedded c))
        ∙ append_assoc (contents v) (embedded c ∷ []) (map embedded chunks)

    contents-reindex :
        (v : V.State) (ids : List String) (chunks : List Chunk)
        → contents (reindex F V embedder v ids chunks)
          ≡ keep
              (λ (ec : EmbeddedChunk F). not (contains ids (chunk_doc_id F ec.chunk)))
              (contents v)
            ++ map embedded chunks
    unfolding reindex
    contents-reindex v [] chunks =
        contents-index_chunks v chunks
        ∙ ap (λ xs. xs ++ map embedded chunks)
            (sym (
              keep_all (λ (ec : EmbeddedChunk F). not (contains [] (chunk_doc_id F ec.chunk)))
                (contents v) (λ ec. unfold contains in refl)))
    contents-reindex v (id ∷ ids) chunks =
        contents-index_chunks _ chunks
        ∙ ap (λ xs. xs ++ map embedded chunks)
            (bag.delete_by_doc v (sorted (id ∷ ids))
              ∙ keep-ext _ _ (contents v)
                  (λ ec. ap not (contains-sorted (id ∷ ids) (chunk_doc_id F ec.chunk))))

module _ (S : GraphStore) (F : Floats) (V : VectorStore F)
    (contents : V.State → List (EmbeddedChunk F)) (bag : IsBag F V contents) (U : Unicode)
    (order : IterationOrder string_eq) (node_order : NodeOrder) (edge_order : EdgeOrder)
    (extract : Extract) (embedder : Embedder F) (labels : Labels) (hash : ParsedDoc → String) where
  abbrev run :
      Option Manifest
      → List ParsedDoc
      → S.State
      → V.State
      → Ingested (S.State × V.State × DeltaReport)
  run = Runs.run S F V U order node_order edge_order extract embedder labels hash

  -- the chunks of documents that the ingestion does not touch
  abbrev pub untouched :
      Option Manifest → List ParsedDoc → List (EmbeddedChunk F) → List (EmbeddedChunk F)
  untouched prev docs = keep (λ (ec : EmbeddedChunk F).
      not (touched prev (manifest_from_docs hash docs) (chunk_doc_id F ec.chunk)))

  -- the embedded chunks of the documents to ingest again
  abbrev pub new_chunks : Option Manifest → List ParsedDoc → List Chunk
  new_chunks prev docs =
      Runs.chunks_again S F V U order node_order edge_order extract embedder labels hash prev docs

  contents_after :
      (prev : Option Manifest) (docs : List ParsedDoc) (s t : S.State) (v w : V.State)
      (r : DeltaReport)
      → run prev docs s v ≡ done (t, w, r)
      → contents w
        ≡ untouched prev docs (contents v) ++ map (embedded F embedder) (new_chunks prev docs)
  contents_after prev docs s t v w r h =
      let (g, built, ran) =
        Runs.ingest_delta_lem S F V U order node_order edge_order extract embedder labels hash prev
          docs s v (t, w, r) h in
      let (plan, planned, same_t, same_w, same_m) =
        Runs.resolved_lem S F V U order node_order edge_order extract embedder labels hash prev docs
          g s t v w r ran in
      ap contents same_w
      ∙ contents-reindex F embedder V contents bag v _ (new_chunks prev docs)
      ∙ ap (λ xs. xs ++ map (embedded F embedder) (new_chunks prev docs))
          (keep-ext _ _ (contents v) (λ ec. ap not (
            Runs.touched_lem S F V U order node_order edge_order extract embedder labels hash prev
              docs (chunk_doc_id F ec.chunk))))

  new_chunks-touched :
      (prev : Option Manifest) (docs : List ParsedDoc)
      → all
          (λ (c : Chunk). touched prev (manifest_from_docs hash docs) (chunk_doc_id F c))
          (new_chunks prev docs)
        ≡ true
  unfolding delta_docs
  new_chunks-touched prev docs =
      let new = manifest_from_docs hash docs in
      let again =
        Runs.docs_again S F V U order node_order edge_order extract embedder labels hash prev
          docs in
      all_of_docs-label_chunks F (touched prev new) again labels U _
        (λ p h.
          let added =
            kept-passes doc_id (contains (added_doc_ids (diff_manifests order prev new))) docs p
              h in
          ground (arith, contains-added order prev new p))
        (chunk_corpus-is_of U default_chunk_size default_overlap again)

  -- Over a vector store that keeps a chunk for every time it is indexed, whatever its id. A run that
  -- returns leaves the chunks of the documents that are neither gone nor changed nor new, and behind
  -- them each new chunk once. If an earlier run of the same ingestion stopped after the deletion and
  -- the first `n` new chunks, then a run that starts from there and returns leaves the same: no chunk
  -- is there twice.
  pub ingest_delta-retry :
      (prev : Option Manifest) (docs : List ParsedDoc) (s t s' t' : S.State)
      (v w crashed w' : V.State) (r r' : DeltaReport) (n : ℕ)
      → run prev docs s v ≡ done (t, w, r)
      → contents crashed
        ≡ untouched prev docs (contents v)
          ++ map (embedded F embedder) (take n (new_chunks prev docs))
      → run prev docs s' crashed ≡ done (t', w', r')
      → (contents w
          ≡ untouched prev docs (contents v) ++ map (embedded F embedder) (new_chunks prev docs))
        × (contents w' ≡ contents w)
  ingest_delta-retry prev docs s t s' t' v w crashed w' r r' n h stopped k =
      let new = manifest_from_docs hash docs in
      let first = contents_after prev docs s t v w r h in
      let chunks = new_chunks prev docs in
      let again : untouched prev docs (contents crashed) ≡ untouched prev docs (contents v) =
        ap (untouched prev docs) stopped
        ∙ keep-append _ (untouched prev docs (contents v))
            (map (embedded F embedder) (take n chunks))
        ∙ ap (λ xs. untouched prev docs (untouched prev docs (contents v)) ++ xs)
            (none_kept F embedder (touched prev new) n chunks (new_chunks-touched prev docs))
        ∙ append-nil (untouched prev docs (untouched prev docs (contents v)))
        ∙ keep_idem _ (contents v) in
      (
        first,
        contents_after prev docs s' t' crashed w' r' k
            ∙ ap (λ xs. xs ++ map (embedded F embedder) chunks) again
            ∙ sym first,
      )
