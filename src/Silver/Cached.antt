-- ===== src/Silver/Cached.antt =====
-- silver.py, `materialize_silver`: what comes out of the cache, and for which document.
use graphrag_aws_template.Prelude.{
  ◌≡◌, refl, String, false, ◌==◌, Option, none, some, List, string_eq, arith, inl, inr, ◌⊎◌,
}
use graphrag_aws_template.Prelude.Dicts.{get, put, get-put}
use graphrag_aws_template.Normalize.{Unicode}
use graphrag_aws_template.Sources.{ParsedDoc}
use graphrag_aws_template.Chunk.{Chunk}
use graphrag_aws_template.VectorStore.{Floats, Vector}
use graphrag_aws_template.Retrieval.{Embedder}
use graphrag_aws_template.Silver.{
  silver_key, Body, chunks_body, Artifacts, compute_chunks, chunks_from, cached_chunks,
  materialize_chunks,
}

module _ (F : Floats) (U : Unicode) (embedder : Embedder F) where
  -- `materialize_chunks` at the embedder's fingerprint
  abbrev pub materialized :
      ParsedDoc → Artifacts F → String → String → Option (Artifacts F × List (Chunk × Vector F))
  materialized doc artifacts content_hash embedder_fp =
      materialize_chunks F U embedder doc artifacts content_hash embedder_fp

  abbrev pub own_body : ParsedDoc → Body F
  own_body doc = chunks_body (compute_chunks F U embedder doc)

  -- The cache holds nothing for the key, or the chunks that the document has.
  abbrev pub IsFresh : ParsedDoc → Artifacts F → String → Type 0
  IsFresh doc artifacts key = (get artifacts key ≡ none) ⊎ (get artifacts key ≡ some (own_body doc))

  -- For a hexadecimal hash and fingerprint, and a cache that holds nothing for the key or the chunks
  -- that the document has: the chunks are those that the document has, whether they come from the
  -- cache or not, and the cache then holds them; under every other key it is as it was.
  pub materialize_chunks-transparent :
      (doc : ParsedDoc) (artifacts : Artifacts F) (content_hash embedder_fp key : String)
      → silver_key embedder_fp content_hash "chunks" ≡ some key
      → IsFresh doc artifacts key
      → (after : Artifacts F) × (materialized doc artifacts content_hash embedder_fp
          ≡ some (after, compute_chunks F U embedder doc))
        × (get after key ≡ some (own_body doc))
        × ((j : String) → (key == j) ≡ false → get after j ≡ get artifacts j)
  unfolding materialize_chunks cached_chunks chunks_from
  materialize_chunks-transparent doc artifacts content_hash embedder_fp key k (inl cold) = (
    put artifacts key (own_body doc),
    ground arith,
    ground (arith, get-put artifacts key key (own_body doc), string_eq.beq_iff key key),
    λ j other. ground (arith, get-put artifacts key j (own_body doc)),
  )
  materialize_chunks-transparent doc artifacts content_hash embedder_fp key k (inr warm) =
      (artifacts, ground arith, warm, λ j other. refl)

  -- For a hexadecimal hash and fingerprint, and a cache that holds nothing at the key: of two
  -- documents with one content hash, the one that is materialized second gets the chunks of the first.
  pub materialize_chunks-shared :
      (first second : ParsedDoc) (artifacts : Artifacts F) (content_hash embedder_fp key : String)
      → silver_key embedder_fp content_hash "chunks" ≡ some key
      → get artifacts key ≡ none
      → (after : Artifacts F) × (materialized first artifacts content_hash embedder_fp
          ≡ some (after, compute_chunks F U embedder first))
        × (materialized second after content_hash embedder_fp
            ≡ some (after, compute_chunks F U embedder first))
  materialize_chunks-shared first second artifacts content_hash embedder_fp key k cold =
      let (after, ran, held, rest) =
        materialize_chunks-transparent first artifacts content_hash embedder_fp key k (inl cold) in
      (after, ran, unfold materialize_chunks cached_chunks chunks_from in ground arith)
