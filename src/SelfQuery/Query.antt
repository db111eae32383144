-- ===== src/SelfQuery/Query.antt =====
-- selfquery.py, `selfquery_query`: the query under a filter, in its two modes.
use graphrag_aws_template.Prelude.{ℕ, String, Option, none, some, List, [], string_eq, pair_eq}
use graphrag_aws_template.Visibility.{Clearance}
use graphrag_aws_template.Store.{GraphStore}
use graphrag_aws_template.VectorStore.{Floats, VectorHit, VectorStore}
use graphrag_aws_template.Retrieval.{Embedder, Synthesizer, vector_search}
use graphrag_aws_template.Query.{default_max_hops}
use graphrag_aws_template.Hybrid.{Candidate, HybridResult, hybrid_query, default_seed_cap}
use graphrag_aws_template.SelfQuery.{FilterExtraction, matches}

-- `SelfQueryMode`
pub data SelfQueryMode : Type 0 where
  vector_mode hybrid_mode : SelfQueryMode

module _ (F : Floats) where
  -- `MetadataExtractor`
  pub record MetadataExtractor : Type 0 where
    pub model_id : String
    pub extract : String → FilterExtraction

  pub record SelfQueryResult : Type 0 where
    pub question : String
    pub mode : SelfQueryMode
    pub extraction : FilterExtraction
    pub hits : List (VectorHit F)
    pub answer : String
    pub citations : List String
    pub clearance : Option Clearance
    pub hybrid_result : Option (HybridResult F)

  -- The result, or the `ValueError` of the hybrid mode without a graph store.
  pub data Queried : Type 0 where
    ok : SelfQueryResult → Queried
    requires_graph_store : Queried

module _ (F : Floats) (V : VectorStore F) (S : GraphStore) where
  -- the hybrid branch, at the graph store
  unfoldable pub selfquery_hybrid :
      String
      → FilterExtraction
      → List Candidate
      → V.State
      → S.State
      → Embedder F
      → Synthesizer F
      → ℕ
      → Option Clearance
      → SelfQueryResult F
  unfolding hybrid_query matches
  selfquery_hybrid question extraction links v s embedder synthesizer k clearance =
      let hresult =
        hybrid_query F V S question v s embedder synthesizer links k default_max_hops
          default_seed_cap clearance (some (matches extraction.filter)) in
      record {
        question = question;
        mode = hybrid_mode;
        extraction = extraction;
        hits = hresult.chunks;
        answer = hresult.answer;
        citations = hresult.citations;
        clearance = clearance;
        hybrid_result = some hresult;
      }

  unfoldable pub selfquery_vector :
      String
      → FilterExtraction
      → V.State
      → Embedder F
      → Synthesizer F
      → ℕ
      → Option Clearance
      → SelfQueryResult F
  unfolding vector_search matches
  selfquery_vector question extraction v embedder synthesizer k clearance =
      let vresult =
        vector_search F V v embedder question k clearance (some (matches extraction.filter)) in
      let synthesis = synthesizer.synthesize question vresult.hits [] in
      record {
        question = question;
        mode = vector_mode;
        extraction = extraction;
        hits = vresult.hits;
        answer = synthesis.answer;
        citations = synthesis.citations;
        clearance = clearance;
        hybrid_result = none;
      }

  unfoldable pub selfquery_query :
      String
      → MetadataExtractor F
      → V.State
      → Embedder F
      → Synthesizer F
      → List Candidate
      → SelfQueryMode
      → Option S.State
      → ℕ
      → Option Clearance
      → Queried F
  unfolding selfquery_hybrid selfquery_vector
  selfquery_query question extractor v embedder synthesizer links hybrid_mode none k clearance =
      requires_graph_store
  selfquery_query question extractor v embedder synthesizer links hybrid_mode (some s) k clearance =
      ok (
        selfquery_hybrid question (extractor.extract question) links v s embedder synthesizer k
          clearance)
  selfquery_query question extractor v embedder synthesizer links vector_mode store k clearance =
      ok (selfquery_vector question (extractor.extract question) v embedder synthesizer k clearance)
