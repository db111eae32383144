-- ===== src/Retrieval.antt =====
-- packages/graphrag/src/graphrag/vector.py, embed.py and synthesize.py: `vector_search`, and the
-- protocols of the two models outside the repository. Both embedders of embed.py go through the texts
-- one by one and append a vector for each, so that an embedder is its function on one text, and the
-- lists that `zip(..., strict=True)` is given are of one length.
use graphrag_aws_template.Prelude.{ℕ, String, Bool, true, Option, none, some, List, map}
use graphrag_aws_template.Chunk.{Chunk}
use graphrag_aws_template.Visibility.{Clearance, allows}
use graphrag_aws_template.Model.{Node}
use graphrag_aws_template.Query.{allowed_of}
use graphrag_aws_template.VectorStore.{Floats, Vector, VectorHit, VectorStore}

abbrev pub default_k : ℕ
default_k = 5

-- `clearance is None or clearance.allows(label)`
unfoldable pub sees : Option Clearance → String → Bool
unfolding allows
sees none label = true
sees (some c) label = allows c label

pub record SynthesisResult : Type 0 where
  pub answer : String
  pub citations : List String

module _ (F : Floats) where
  pub record Embedder : Type 0 where
    pub model_id : String
    pub dimensions : ℕ
    pub fingerprint : String
    pub embed_text : String → Vector F

  -- `embedder.embed(texts)`
  abbrev pub embed : Embedder → List String → List (Vector F)
  embed embedder texts = map embedder.embed_text texts

  pub record Synthesizer : Type 0 where
    pub model_id : String
    pub synthesize : String → List (VectorHit F) → List Node → SynthesisResult

  pub record VectorQueryResult : Type 0 where
    pub query : String
    pub model_id : String
    pub dimensions : ℕ
    pub hits : List (VectorHit F)

  module _ (V : VectorStore F) where
    unfoldable pub vector_search :
        V.State
        → Embedder
        → String
        → ℕ
        → Option Clearance
        → Option (Chunk → Bool)
        → VectorQueryResult
    unfolding allowed_of
    vector_search v embedder query k clearance metadata_filter = record {
      query = query;
      model_id = embedder.model_id;
      dimensions = embedder.dimensions;
      hits = V.knn v (embedder.embed_text query) k (allowed_of clearance) metadata_filter;
    }
