-- ===== src/Hybrid.antt =====
-- packages/graphrag/src/graphrag/hybrid.py: the query that seeds a search of the graph from two
-- sources. The links of the question (entity_link.py matches them with regular expressions) are an
-- argument, as are the embedder and the synthesizer.
pub mod Cleared
pub mod Seeds
use Prim.Native.Nat.{ℕ, ◌-◌}
use graphrag_aws_template.Prelude.{
  ltb, String, Bool, true, false, not, ◌||◌, ◌==◌, Option, none, some, List, [], ◌∷◌, ◌++◌, map,
  length, take, keep, contains, string_eq, if◌then◌else◌,
}
use graphrag_aws_template.Prelude.Sets.{dedupe}
use graphrag_aws_template.Chunk.{Chunk}
use graphrag_aws_template.Visibility.{Clearance}
use graphrag_aws_template.Model.{Node}
use graphrag_aws_template.Store.{GraphStore, gather, vis}
use graphrag_aws_template.Query.{
  NeighborhoodResult, expand_neighborhood, resolve_nodes, default_frontier_cap,
}
use graphrag_aws_template.VectorStore.{Floats, VectorHit, VectorStore}
use graphrag_aws_template.Retrieval.{SynthesisResult, Embedder, Synthesizer, vector_search, sees}

abbrev pub default_seed_cap : ℕ
default_seed_cap = 8

-- `SeedSource`
pub data SeedSource : Type 0 where
  from_vector from_question : SeedSource

-- `_node_visibility`
unfoldable pub node_visibility : Node → String
unfolding vis
node_visibility node = vis node.props

pub record Seed : Type 0 where
  pub entity_id : String
  pub source : SeedSource
  pub surface : Option String

-- `Candidate` of entity_link.py
pub record Candidate : Type 0 where
  pub surface : String
  pub entity_id : String
  pub kind : String
  pub via : String

-- `_dedupe` of entity_link.py
unfoldable pub dedupe_candidates : List String → List Candidate → List Candidate
unfolding contains
dedupe_candidates seen [] = []
dedupe_candidates seen (c ∷ cs) =
    let old = contains seen c.entity_id in
    let rest = dedupe_candidates (if old then seen else c.entity_id ∷ seen) cs in
    if old then rest else c ∷ rest

-- the lists that the loop over the candidates fills
pub record Linked : Type 0 where
  pub question_seeds : List Seed
  pub dropped : List Candidate
  pub filtered : List Candidate

-- the branches of a round of the loop
pub data Fate : Type 0 where
  unconfirmed above_clearance confirmed : Fate

abbrev pub is_unconfirmed : Fate → Bool
is_unconfirmed unconfirmed = true
is_unconfirmed _ = false

abbrev pub is_above : Fate → Bool
is_above above_clearance = true
is_above _ = false

abbrev pub is_confirmed : Fate → Bool
is_confirmed confirmed = true
is_confirmed _ = false

unfoldable pub vector_seed : String → Seed
vector_seed entity_id = record { entity_id = entity_id; source = from_vector; surface = none }

unfoldable pub question_seed : Candidate → Seed
question_seed c = record {
  entity_id = c.entity_id;
  source = from_question;
  surface = some c.surface;
}

-- what a round appends, where the id may be a seed already
unfoldable pub link_round : Fate → Bool → Candidate → Linked → Linked
unfolding question_seed
link_round unconfirmed old c rest = record rest { dropped = c ∷ rest.dropped }
link_round above_clearance old c rest = record rest { filtered = c ∷ rest.filtered }
link_round confirmed true c rest = rest
link_round confirmed false c rest = record rest {
  question_seeds = question_seed c ∷ rest.question_seeds;
}

-- the two parts of the capped seed set, with what was cut off
pub record CappedSeeds : Type 0 where
  pub kept_vector : List Seed
  pub kept_question : List Seed
  pub vector_truncated : Bool
  pub question_truncated : Bool

unfoldable pub cap_seeds : ℕ → List Seed → List Seed → CappedSeeds
unfolding take
cap_seeds seed_cap vector_seeds question_seeds =
    let kept_question = take seed_cap question_seeds in
    let vector_budget = seed_cap - length kept_question in
    record {
      kept_vector = take vector_budget vector_seeds;
      kept_question = kept_question;
      vector_truncated = ltb vector_budget (length vector_seeds);
      question_truncated = ltb seed_cap (length question_seeds);
    }

abbrev pub seed_id : Seed → String
seed_id seed = seed.entity_id

module _ (F : Floats) where
  -- `_dedupe_chunks`, from the ids it has seen
  unfoldable pub dedupe_chunks : List String → List (VectorHit F) → List (VectorHit F)
  unfolding contains
  dedupe_chunks seen [] = []
  dedupe_chunks seen (h ∷ hits) =
      let old = contains seen h.chunk.id in
      let rest = dedupe_chunks (if old then seen else h.chunk.id ∷ seen) hits in
      if old then rest else h ∷ rest

  -- the owners of the chunks, each once
  unfoldable pub owners : List (VectorHit F) → List String
  unfolding dedupe gather
  owners chunks = dedupe (gather (λ hit. hit.chunk.entity_ids) chunks)

  pub record HybridResult : Type 0 where
    pub question : String
    pub seeds : List Seed
    pub dropped_candidates : List Candidate
    pub hop_trace : NeighborhoodResult
    pub chunks : List (VectorHit F)
    pub graph_nodes : List Node
    pub answer : String
    pub citations : List String
    pub seed_cap : ℕ
    pub max_hops : ℕ
    pub vector_truncated : Bool
    pub question_truncated : Bool
    pub clearance : Option Clearance
    pub filtered_seeds : List Candidate

  -- the property `HybridResult.seed_cap_truncated`
  unfoldable pub seed_cap_truncated : HybridResult → Bool
  seed_cap_truncated r = r.vector_truncated || r.question_truncated

module _ (S : GraphStore) where
  unfoldable pub fate : S.State → Option Clearance → Candidate → Fate
  unfolding sees node_visibility
  fate s clearance c = elim (S.get_node s c.entity_id) [
    | none ↦ unconfirmed
    | some node ↦ if sees clearance (node_visibility node) then confirmed else above_clearance
  ]

  -- the loop over the candidates, from the ids that are seeds already
  unfoldable pub link_seeds : S.State → Option Clearance → List String → List Candidate → Linked
  unfolding fate link_round contains
  link_seeds s clearance seen [] = record { question_seeds = []; dropped = []; filtered = [] }
  link_seeds s clearance seen (c ∷ cs) =
      let f = fate s clearance c in
      let seeded = is_confirmed f in
      let old = contains seen c.entity_id in
      let rest =
        link_seeds s clearance (if seeded then if old then seen else c.entity_id ∷ seen else seen)
          cs in
      link_round f old c rest

  -- the nodes of the ids, each once, and the final guard on them
  unfoldable pub merge_nodes : S.State → Option Clearance → List String → List Node
  unfolding dedupe resolve_nodes keep sees node_visibility
  merge_nodes s clearance ids =
      keep (λ n. sees clearance (node_visibility n)) (resolve_nodes S s (dedupe ids))

module _ (F : Floats) (V : VectorStore F) (S : GraphStore) where
  unfoldable pub hybrid_query :
      String
      → V.State
      → S.State
      → Embedder F
      → Synthesizer F
      → List Candidate
      → ℕ
      → ℕ
      → ℕ
      → Option Clearance
      → Option (Chunk → Bool)
      → HybridResult F
  unfolding vector_search dedupe_chunks owners link_seeds cap_seeds vector_seed expand_neighborhood
      merge_nodes
  hybrid_query question v s embedder synthesizer linked k max_hops seed_cap clearance
        metadata_filter =
      let vresult = vector_search F V v embedder question k clearance metadata_filter in
      let chunks = dedupe_chunks F [] vresult.hits in
      let vector_ids = owners F chunks in
      let links = link_seeds S s clearance vector_ids linked in
      let capped = cap_seeds seed_cap (map vector_seed vector_ids) links.question_seeds in
      let seeds = capped.kept_vector ++ capped.kept_question in
      let seed_ids = map seed_id seeds in
      let hop_trace = expand_neighborhood S s seed_ids max_hops default_frontier_cap clearance in
      let graph_nodes = merge_nodes S s clearance (seed_ids ++ hop_trace.result_ids) in
      let synth = synthesizer.synthesize question chunks graph_nodes in
      record {
        question = question;
        seeds = seeds;
        dropped_candidates = links.dropped;
        hop_trace = hop_trace;
        chunks = chunks;
        graph_nodes = graph_nodes;
        answer = synth.answer;
        citations = synth.citations;
        seed_cap = seed_cap;
        max_hops = max_hops;
        vector_truncated = capped.vector_truncated;
        question_truncated = capped.question_truncated;
        clearance = clearance;
        filtered_seeds = links.filtered;
      }
