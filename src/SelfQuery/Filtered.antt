-- ===== src/SelfQuery/Filtered.antt =====
-- selfquery.py, `selfquery_query`: what the hits of a filtered query are, in both modes.
use graphrag_aws_template.Prelude.{
  ℕ, ◌≡◌, refl, sym, subst, String, Bool, true, ◌&&◌, Option, none, some, List, All,
}
use graphrag_aws_template.Visibility.{Clearance}
use graphrag_aws_template.Store.{GraphStore}
use graphrag_aws_template.VectorStore.{Floats, VectorStore, passes}
use graphrag_aws_template.Retrieval.{Embedder, Synthesizer, sees, vector_search}
use graphrag_aws_template.Query.{default_max_hops, allowed_of}
use graphrag_aws_template.Hybrid.{Candidate, default_seed_cap}
use graphrag_aws_template.Hybrid.Cleared.{Filters, hybrid_query-cleared, sees-in_clearance}
use graphrag_aws_template.SelfQuery.{matches}
use graphrag_aws_template.SelfQuery.Query.{
  MetadataExtractor, SelfQueryMode, vector_mode, hybrid_mode, SelfQueryResult, Queried, ok,
  requires_graph_store, selfquery_hybrid, selfquery_vector, selfquery_query,
}

-- A hybrid query without a graph store is the error; any other one has a result that satisfies P.
abbrev pub Answers :
    {F : Floats} (S : GraphStore)
    → SelfQueryMode
    → Option S.State
    → (SelfQueryResult F → Type 0)
    → Queried F
    → Type 0
Answers S hybrid_mode none P q = q ≡ requires_graph_store
Answers {F} S hybrid_mode (some s) P q = (r : SelfQueryResult F) × (q ≡ ok r) × P r
Answers {F} S vector_mode store P q = (r : SelfQueryResult F) × (q ≡ ok r) × P r

module _ (F : Floats) (V : VectorStore F) (S : GraphStore) (question : String)
    (extractor : MetadataExtractor F) (v : V.State) (embedder : Embedder F)
    (synthesizer : Synthesizer F) (links : List Candidate) (k : ℕ)
    (clearance : Option Clearance) where
  -- each hit's chunk is within the clearance, and matches the extracted filter
  abbrev pub IsFiltered : SelfQueryResult F → Type 0
  IsFiltered r =
      (r.extraction ≡ extractor.extract question)
      × All
          (λ h.
            (sees clearance h.chunk.visibility
              && matches (extractor.extract question).filter h.chunk)
            ≡ true)
          r.hits

  -- If the vector store filters as it documents: the hybrid mode without a graph store is the error,
  -- and every other query has a result, each of whose hits is within the clearance and matches the
  -- filter that the extractor gave.
  pub selfquery_query-IsFiltered :
      (mode : SelfQueryMode) (store : Option S.State)
      → Filters F V
      → Answers S mode store IsFiltered (
          selfquery_query F V S question extractor v embedder synthesizer links mode store k
            clearance)
  unfolding selfquery_query selfquery_hybrid selfquery_vector vector_search passes
  selfquery_query-IsFiltered hybrid_mode none filters = refl
  selfquery_query-IsFiltered hybrid_mode (some s) filters = (
    _,
    refl,
    (
      refl,
      (hybrid_query-cleared F V S question v s embedder synthesizer links k default_max_hops
          default_seed_cap clearance (some (matches (extractor.extract question).filter))
          filters).0,
    ),
  )
  selfquery_query-IsFiltered vector_mode store filters = (
    _,
    refl,
    (
      refl,
      subst {A = String → Bool}
          (λ a.
            All
              (λ h.
                (a h.chunk.visibility && matches (extractor.extract question).filter h.chunk)
                ≡ true)
              (V.knn v (embedder.embed_text question) k (allowed_of clearance)
                (some (matches (extractor.extract question).filter))))
          (λ i label. sym (sees-in_clearance clearance label) i)
          (filters v (embedder.embed_text question) k (allowed_of clearance)
            (some (matches (extractor.extract question).filter))),
    ),
  )
