-- ===== src/Tests/Answers.antt =====
-- Queries over the fixtures' graph and two chunks, for a member.
use graphrag_aws_template.Store.Memory.{neighbors}
use graphrag_aws_template.VectorStore.{knn}
use graphrag_aws_template.Prelude.Dicts.{put}
use graphrag_aws_template.Model.{set_node}
use graphrag_aws_template.Model.{set_edge}
use graphrag_aws_template.Model.{get_node}
use Prim.Native.Nat.{◌≤◌}
use graphrag_aws_template.Prelude.{
  ◌≡◌, refl, ◌↔◌, String, string_eq, pair_eq, true, false, not, ◌&&◌, ◌||◌, ◌==◌, all, any, All,
  List, [], ◌∷◌, ◌++◌, some, none, Option, contains, length, is_empty, arith, Bool-cases, inl, inr,
}
use graphrag_aws_template.Prelude.Dicts.{Dict, get, put, index_by}
use graphrag_aws_template.Visibility.{allows, public, internal, value}
use graphrag_aws_template.Model.{Node, Value, text}
use graphrag_aws_template.Model.WellFormed.{id_of}
use graphrag_aws_template.Store.Memory.{memory_store}
use graphrag_aws_template.Store.Memory.Lawful.{memory_laws, memory-IsValid}
use graphrag_aws_template.Query.Links.{linked}
use graphrag_aws_template.Query.Walks.{Within}
use graphrag_aws_template.VectorStore.{memory_vector_store, passes}
use graphrag_aws_template.VectorStore.Search
use graphrag_aws_template.Retrieval.{Embedder, Synthesizer, sees}
use graphrag_aws_template.Hybrid.{
  Candidate, vector_seed, question_seed, cap_seeds, hybrid_query, HybridResult, node_visibility,
}
use graphrag_aws_template.Hybrid.Cleared
use graphrag_aws_template.Hybrid.Cleared.{Filters, seed_cleared, shows}
use graphrag_aws_template.Hybrid.Seeds
use graphrag_aws_template.SelfQuery.{RawValue, raw_text, raw_list, raw_other, validate_filter}
use graphrag_aws_template.SelfQuery.Query.{MetadataExtractor, hybrid_mode, selfquery_query}
use graphrag_aws_template.SelfQuery.Validation
use graphrag_aws_template.SelfQuery.Validation.{declared}
use graphrag_aws_template.SelfQuery.Filtered
use graphrag_aws_template.SelfQuery.Filtered.{Answers, IsFiltered}
use graphrag_aws_template.Route.{
  engines, engine_global, rule_route, bedrock_route, converse_engine, is_cued, is_anchored,
}
use graphrag_aws_template.Route.Engines
use graphrag_aws_template.Communities.{
  Community, detect_communities, summarize_communities, visibility_in,
}
use graphrag_aws_template.Communities.Gated
use graphrag_aws_template.Communities.Gated.{allows_members}
use graphrag_aws_template.Visibility.Compose.{IsTier}
use graphrag_aws_template.Tests.Fixtures.{
  organisation, organisation-IsWellFormed, sig_node, alice, kep_one,
}
use graphrag_aws_template.Tests.Vectors.{whole, stored}
use graphrag_aws_template.Tests.Clearances.{member, member_closed}

abbrev pub counting : Embedder whole
counting = record {
  model_id = "ones";
  dimensions = 1;
  fingerprint = "0a";
  embed_text = λ s. 1 ∷ [];
}

abbrev silent : Synthesizer whole
silent = record {
  model_id = "silent";
  synthesize = λ q hits nodes. record { answer = ""; citations = [] };
}

abbrev alice_named : Candidate
alice_named = record {
  surface = "@alice";
  entity_id = "person:alice";
  kind = "person";
  via = "handle";
}

abbrev unknown_named : Candidate
unknown_named = record alice_named { entity_id = "person:bob" }

abbrev named : List Candidate
named = unknown_named ∷ alice_named ∷ []

stored-Filters : Filters whole (memory_vector_store whole)
stored-Filters v vector k allowed f = Search.knn-Permitted whole vector k f v allowed

abbrev answer : HybridResult whole
answer =
    hybrid_query whole (memory_vector_store whole) memory_store "who is @alice" stored organisation
      counting silent named 5 2 8 (some member) none

hybrid_query-cleared_example :
    All
      (λ h. (sees (some member) h.chunk.visibility && passes whole none h.chunk) ≡ true)
      answer.chunks
    × All (λ n. sees (some member) (node_visibility n) ≡ true) answer.graph_nodes
    × All (λ seed. seed_cleared memory_store organisation (some member) seed ≡ true) answer.seeds
hybrid_query-cleared_example =
    Cleared.hybrid_query-cleared whole (memory_vector_store whole) memory_store "who is @alice"
      stored organisation counting silent named 5 2 8 (some member) none stored-Filters

hybrid_query-exact_example : (any (λ n. n.id == "kep:1") answer.graph_nodes ≡ true) ↔ (
    Within
      (linked memory_store organisation (some member.allowed))
      answer.hop_trace.seed_ids
      2
      "kep:1"
    × (shows memory_store organisation (some member) "kep:1" ≡ true))
unfolding all hybrid_query get_node set_edge set_node put knn neighbors
hybrid_query-exact_example =
    Cleared.hybrid_query-exact whole (memory_vector_store whole) memory_store "who is @alice" stored
      organisation counting silent named 5 2 8 (some member) none memory_laws "kep:1"
      (memory-IsValid organisation organisation-IsWellFormed) refl

cap_seeds-bounds_example :
    let c =
      cap_seeds 2
        (vector_seed "sig:node" ∷ vector_seed "kep:1" ∷ [])
        (question_seed alice_named ∷ []) in
    (length (c.kept_vector ++ c.kept_question) ≤ 2)
    × (c.vector_truncated || c.question_truncated ≡ true
        → length (c.kept_vector ++ c.kept_question) ≡ 2)
    × ((c.vector_truncated ≡ false)
        ↔ (c.kept_vector ≡ vector_seed "sig:node" ∷ vector_seed "kep:1" ∷ []))
    × ((c.question_truncated ≡ false) ↔ (c.kept_question ≡ question_seed alice_named ∷ []))
    × (1 ≤ 2 → c.kept_question ≡ question_seed alice_named ∷ [])
cap_seeds-bounds_example =
    Seeds.cap_seeds-bounds 2 (vector_seed "sig:node" ∷ vector_seed "kep:1" ∷ [])
      (question_seed alice_named ∷ [])

-- every text names Alice
abbrev link_alice : String → List Candidate
link_alice s = alice_named ∷ []

abbrev raw_filter : Dict String RawValue
raw_filter =
    ("source", raw_list (some "community" ∷ none ∷ some "elsewhere" ∷ []) "")
    ∷ ("entity_ids", raw_text "@alice")
    ∷ ("visibility", raw_other "3")
    ∷ []

validate_filter-declared_example :
    all
      (λ term. not (is_empty term.1) && declared (λ id. id == "person:alice") term)
      (validate_filter link_alice raw_filter).filter.terms
    ≡ true
validate_filter-declared_example =
    Validation.validate_filter-declared link_alice (λ id. id == "person:alice")
      (λ s. unfold all in refl) raw_filter

abbrev extractor : MetadataExtractor whole
extractor = record { model_id = "fixed"; extract = λ q. validate_filter link_alice raw_filter }

selfquery_query-IsFiltered_example :
    Answers memory_store hybrid_mode
      (some organisation)
      (IsFiltered whole
        (memory_vector_store whole)
        memory_store
        "who is @alice"
        extractor
        stored
        counting
        silent
        named
        5
        (some member))
      (selfquery_query whole
        (memory_vector_store whole)
        memory_store
        "who is @alice"
        extractor
        stored
        counting
        silent
        named
        hybrid_mode
        (some organisation)
        5
        (some member))
selfquery_query-IsFiltered_example =
    Filtered.selfquery_query-IsFiltered whole (memory_vector_store whole) memory_store
      "who is @alice" extractor stored counting silent named 5 (some member) hybrid_mode
      (some organisation) stored-Filters

abbrev mistaken : String → Option Value
mistaken q = some (text "sparql")

route-engines_example :
    (contains engines (rule_route link_alice (λ s. s) "what are the themes").engine ≡ true)
    × (contains engines
          (bedrock_route link_alice (λ s. s) "a-model" mistaken "what are the themes").engine
        ≡ true)
    × (((rule_route link_alice (λ s. s) "what are the themes").engine == engine_global) ≡ (
        is_cued link_alice (λ s. s) "what are the themes"
        && not (is_anchored link_alice (λ s. s) "what are the themes")))
    × (converse_engine link_alice (λ s. s) "a-model" mistaken "what are the themes" ≡ none
        → bedrock_route link_alice (λ s. s) "a-model" mistaken "what are the themes"
          ≡ rule_route link_alice (λ s. s) "what are the themes")
route-engines_example =
    Engines.route-engines link_alice (λ s. s) "a-model" mistaken "what are the themes"

-- one community of all the nodes
abbrev together : List String → List (String × String) → List (List String)
together ids pairs = ids ∷ []

abbrev nodes : List Node
nodes = sig_node ∷ alice ∷ kep_one ∷ []

nodes_tiered : (id : String) → IsTier (visibility_in (index_by id_of nodes) id)
unfolding visibility_in index_by get put value
nodes_tiered id = elim (Bool-cases ("sig:node" == id)) [
  | inl p ↦ (public, ground arith)
  | inr p ↦ elim (Bool-cases ("person:alice" == id)) [
    | inl q ↦ (internal, ground arith)
    | inr q ↦ elim (Bool-cases ("kep:1" == id)) [
      | inl r ↦ (public, ground arith)
      | inr r ↦ (public, ground arith)
    ]
  ]
]

summarize_communities-tier_example :
    All
      (λ (m : Community). allows member m.tier ≡ allows_members member nodes m.entity_ids)
      (summarize_communities
        (λ type_name s. not (s == "0"))
        (λ q members. q)
        (detect_communities together nodes [])
        nodes
        [])
summarize_communities-tier_example =
    Gated.summarize_communities-tier member nodes together [] (λ type_name s. not (s == "0"))
      (λ q members. q) nodes_tiered member_closed (unfold allows contains value in refl)
