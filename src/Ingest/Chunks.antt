-- ===== src/Ingest/Chunks.antt =====
-- ingest.py, `ingest_delta`: the chunks of the in-memory vector store, which are deleted by document
-- and indexed again.
use graphrag_aws_template.Prelude.{
  ◌≡◌, refl, ◌∙◌, ap, String, Bool, true, false, not, ◌==◌, Option-cases, some, List, [], ◌∷◌, all,
  contains, map, is_empty, loop, arith, string_eq, Bool-cases, inl, inr, if◌then◌else◌,
}
use graphrag_aws_template.Prelude.Dicts.{get, put, get-put}
use graphrag_aws_template.Prelude.Dicts.Entries.{filter_some}
use graphrag_aws_template.Prelude.Sorting.{sorted, contains-sorted, text_order}
use graphrag_aws_template.Chunk.{Chunk}
use graphrag_aws_template.VectorStore.{
  Floats, EmbeddedChunk, Items, index_chunk, delete_by_doc, doc_id, memory_vector_store,
}
use graphrag_aws_template.VectorStore.Rows.{
  IsIndex, operations_lem, operations-IsIndex, filter_some-ext,
}
use graphrag_aws_template.Retrieval.{Embedder}
use graphrag_aws_template.Ingest.{index_chunks, reindex}

module _ (F : Floats) where
  -- Every chunk of the store is of one of these documents.
  abbrev pub ChunksCite : Items F → (String → Bool) → Type 0
  ChunksCite v d =
      (id : String) (ec : EmbeddedChunk F) → get v id ≡ some ec → d (doc_id F ec.chunk) ≡ true

  abbrev pub all_of_docs : (String → Bool) → List Chunk → Bool
  all_of_docs d chunks = all (λ (c : Chunk). d (doc_id F c)) chunks

  module _ (embedder : Embedder F) where
    abbrev pub indexed : Items F → List Chunk → Items F
    indexed v chunks = index_chunks F (memory_vector_store F) embedder v chunks

    pub index_chunks_lem :
        (chunks : List Chunk) (v : Items F) (d : String → Bool)
        → IsIndex F v
        → ChunksCite v d
        → all_of_docs d chunks ≡ true
        → IsIndex F (indexed v chunks) × ChunksCite (indexed v chunks) d
    unfolding index_chunks loop all
    index_chunks_lem [] v d w h k = (w, h)
    index_chunks_lem (c ∷ chunks) v d w h k =
        let ec : EmbeddedChunk F = record { chunk = c; vector = embedder.embed_text c.text } in
        let next = index_chunk F v ec in
        index_chunks_lem chunks next d ((operations-IsIndex F v w).0 ec)
          (λ id e p.
            let found = (operations_lem F v id w).0 ec in
            elim (Bool-cases (c.id == id)) [
              | inl same ↦ ground arith
              | inr other ↦ h id e (ground arith)
            ])
          (ground arith)

    pub get-indexed_other :
        (chunks : List Chunk) (a : Items F) (id : String)
        → contains (map (λ (c : Chunk). c.id) chunks) id ≡ false
        → get (indexed a chunks) id ≡ get a id
    unfolding index_chunks index_chunk loop contains
    get-indexed_other [] a id h = refl
    get-indexed_other (c ∷ chunks) a id h =
        let ec : EmbeddedChunk F = record { chunk = c; vector = embedder.embed_text c.text } in
        get-indexed_other chunks (put a c.id ec) id (ground arith)
        ∙ ground (arith, get-put a c.id id ec)

    -- what is left after the deletion
    abbrev pub cleared : Items F → List String → Items F
    cleared v touched = if is_empty touched then v else delete_by_doc F v (sorted touched)

    pub get-cleared :
        (v : Items F) (touched : List String) (id : String)
        → IsIndex F v
        → get (cleared v touched) id
          ≡ filter_some (λ ec. not (contains touched (doc_id F ec.chunk))) (get v id)
    get-cleared v [] id w = elim (Option-cases (get v id)) [
      | inl p ↦ rw p refl
      | inr (ec, p) ↦ rw p (unfold contains in refl)
    ]
    get-cleared v (t ∷ touched) id w =
        (operations_lem F v id w).2 (sorted (t ∷ touched))
        ∙ filter_some-ext _ _ (get v id)
            (λ ec. ap not (contains-sorted (t ∷ touched) (doc_id F ec.chunk)))

    pub cleared-IsIndex :
        (v : Items F) (touched : List String) → IsIndex F v → IsIndex F (cleared v touched)
    cleared-IsIndex v [] w = w
    cleared-IsIndex v (t ∷ touched) w = (operations-IsIndex F v w).2 (sorted (t ∷ touched))

    -- If the new chunks are of these documents, and so is each old one that is not of a touched
    -- document, then all chunks are afterwards.
    pub reindex-ChunksCite :
        (v : Items F) (touched : List String) (chunks : List Chunk) (old new : String → Bool)
        → IsIndex F v
        → ChunksCite v old
        → ((p : String) → old p ≡ true → contains touched p ≡ false → new p ≡ true)
        → all_of_docs new chunks ≡ true
        → IsIndex F (reindex F (memory_vector_store F) embedder v touched chunks)
          × ChunksCite (reindex F (memory_vector_store F) embedder v touched chunks) new
    unfolding reindex
    reindex-ChunksCite v touched chunks old new w h keeps k =
        index_chunks_lem chunks (cleared v touched) new (cleared-IsIndex v touched w)
          (λ id ec p. elim (Option-cases (get v id)) [
            | inl q ↦ absurd (ground (arith, get-cleared v touched id w))
            | inr (e, q) ↦
                ground (arith, get-cleared v touched id w, h id e q, keeps (doc_id F e.chunk))
          ])
          k
