-- ===== src/Silver.antt =====
-- packages/graphrag/src/graphrag/silver.py: the cache of what the models have computed, per content of
-- a document. A body is the value that its JSON text holds; `none` is a `ValueError`.
pub mod Cached
use Prim.Native.Nat.{ℕ}
use graphrag_aws_template.Prelude.{
  leb, String, ◌<>◌, Bool, true, false, not, ◌&&◌, ◌||◌, ◌==◌, Option, none, some, List, [], ◌∷◌,
  map, contains, string_eq, if◌then◌else◌, ◌>>=◌,
}
use graphrag_aws_template.Prelude.Dicts.{Dict, get, put}
use graphrag_aws_template.Prelude.Text.{every}
use graphrag_aws_template.Normalize.{Unicode}
use graphrag_aws_template.Sources.{ParsedDoc, doc_id}
use graphrag_aws_template.Chunk.{Chunk}
use graphrag_aws_template.Chunk.Corpus.{chunk_corpus, default_chunk_size, default_overlap}
use graphrag_aws_template.VectorStore.{Floats, Vector}
use graphrag_aws_template.Retrieval.{Embedder}
use graphrag_aws_template.Extraction.{ExtractionSchema, CandidateTriple}
use graphrag_aws_template.Extraction.Guided.{TripleExtractor}

-- `_ARTIFACT_NAMES`
abbrev pub artifact_names : List String
artifact_names = "chunks" ∷ "candidates" ∷ []

-- `_HEX_RE`
unfoldable pub is_hex : String → Bool
unfolding every
is_hex s = not (s == "") && every (λ c. (leb 48 c && leb c 57) || (leb 97 c && leb c 102)) s

unfoldable pub silver_key : String → String → String → Option String
unfolding is_hex contains
silver_key fingerprint content_hash artifact =
    if not (contains artifact_names artifact)
    then none
    else if is_hex fingerprint && is_hex content_hash
    then some
        ("silver/" <> (fingerprint <> ("/" <> (content_hash <> ("/" <> (artifact <> ".json"))))))
    else none

module _ (F : Floats) where
  -- the body of a chunks artifact, or of a candidates artifact
  pub data Body : Type 0 where
    chunks_body : List (Chunk × Vector F) → Body
    candidates_body : List CandidateTriple → Body

  -- `MemoryArtifactStore`
  abbrev pub Artifacts : Type 0
  Artifacts = Dict String Body

  -- `chunks_from_json`, `candidates_from_json`: another body is an error
  unfoldable pub chunks_from : Body → Option (List (Chunk × Vector F))
  chunks_from (chunks_body chunks) = some chunks
  chunks_from (candidates_body candidates) = none

  unfoldable pub candidates_from : Body → Option (List CandidateTriple)
  candidates_from (chunks_body chunks) = none
  candidates_from (candidates_body candidates) = some candidates

  pub record SilverArtifact : Type 0 where
    pub doc_id : String
    pub chunks : List (Chunk × Vector F)
    pub candidates : List CandidateTriple

  module _ (U : Unicode) (embedder : Embedder F) where
    -- the chunks of a document with their vectors
    unfoldable pub compute_chunks : ParsedDoc → List (Chunk × Vector F)
    unfolding chunk_corpus
    compute_chunks doc =
        map (λ (c : Chunk). (c, embedder.embed_text c.text))
          (chunk_corpus U default_chunk_size default_overlap (doc ∷ []))

    -- the cached chunks, or the computed ones, which are then written
    unfoldable pub cached_chunks :
        Option Body → String → ParsedDoc → Artifacts → Option (Artifacts × List (Chunk × Vector F))
    unfolding chunks_from compute_chunks put
    cached_chunks (some body) key doc artifacts =
        chunks_from body >>= λ chunks. some (artifacts, chunks)
    cached_chunks none key doc artifacts =
        let chunks = compute_chunks doc in some (put artifacts key (chunks_body chunks), chunks)

    -- the first half of `materialize_silver`
    unfoldable pub materialize_chunks :
        ParsedDoc → Artifacts → String → String → Option (Artifacts × List (Chunk × Vector F))
    unfolding silver_key cached_chunks get
    materialize_chunks doc artifacts content_hash embedder_fp =
        silver_key embedder_fp content_hash "chunks" >>= λ key.
        cached_chunks (get artifacts key) key doc artifacts

    unfoldable pub cached_candidates :
        Option Body
        → String
        → List CandidateTriple
        → Artifacts
        → Option (Artifacts × List CandidateTriple)
    unfolding candidates_from put
    cached_candidates (some body) key extracted artifacts =
        candidates_from body >>= λ candidates. some (artifacts, candidates)
    cached_candidates none key extracted artifacts =
        some (put artifacts key (candidates_body extracted), extracted)

    -- the second half, only with an extractor and its fingerprint
    unfoldable pub materialize_candidates :
        ParsedDoc
        → Artifacts
        → String
        → Option String
        → Option (TripleExtractor ParsedDoc)
        → ExtractionSchema
        → Option (Artifacts × List CandidateTriple)
    unfolding silver_key cached_candidates get
    materialize_candidates doc artifacts content_hash none extractor schema = some (artifacts, [])
    materialize_candidates doc artifacts content_hash (some fp) none schema = some (artifacts, [])
    materialize_candidates doc artifacts content_hash (some fp) (some extractor) schema =
        silver_key fp content_hash "candidates" >>= λ key.
        cached_candidates (get artifacts key) key (extractor.extract doc schema) artifacts

    unfoldable pub materialize_silver :
        ParsedDoc
        → Artifacts
        → String
        → String
        → Option String
        → Option (TripleExtractor ParsedDoc)
        → ExtractionSchema
        → Option (Artifacts × SilverArtifact)
    unfolding materialize_chunks materialize_candidates doc_id
    materialize_silver doc artifacts content_hash embedder_fp extraction_fp extractor schema =
        materialize_chunks doc artifacts content_hash embedder_fp >>= λ first.
        materialize_candidates doc first.0 content_hash extraction_fp extractor schema >>= λ second.
        some (second.0, record { doc_id = doc_id doc; chunks = first.1; candidates = second.1 })
