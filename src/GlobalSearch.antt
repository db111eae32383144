-- ===== src/GlobalSearch.antt =====
-- packages/graphrag/src/graphrag/globalsearch.py: the map-reduce of an answer over the communities
-- within the clearance. The score that the prompts' hits carry is an argument.
use graphrag_aws_template.Prelude.{
  ℕ, String, ◌<>◌, Bool, not, ◌==◌, Option, List, [], ◌∷◌, ◌++◌, map, take, keep, string_eq,
}
use graphrag_aws_template.Prelude.Sets.{dedupe}
use graphrag_aws_template.Prelude.Sorting.{sorted, text_order}
use graphrag_aws_template.Prelude.Text.{strip}
use graphrag_aws_template.Visibility.{Clearance, default_visibility}
use graphrag_aws_template.Store.{gather}
use graphrag_aws_template.Query.{allowed_of}
use graphrag_aws_template.VectorStore.{Floats, VectorHit}
use graphrag_aws_template.Retrieval.{Synthesizer}
use graphrag_aws_template.Communities.{Community, CommunityStore, all_communities}

abbrev pub not_relevant : String
not_relevant = "NOT RELEVANT"

abbrev pub default_top_n : ℕ
default_top_n = 16

-- `_MAP_DIRECTIVE`
abbrev pub map_directive : String
map_directive =
    "\n\nUsing ONLY the community summary provided as context above, state in one or two "
    <> ("sentences what this community contributes to answering the question. If the community "
        <> ("contributes nothing to the question, reply with exactly: " <> not_relevant))

pub record MapVerdict : Type 0 where
  pub community_id : String
  pub tier : String
  pub size : ℕ
  pub relevant : Bool
  pub partial : String

pub record GlobalSearchResult : Type 0 where
  pub question : String
  pub communities_considered : List Community
  pub map_verdicts : List MapVerdict
  pub answer : String
  pub citations : List String
  pub clearance : Option Clearance

module _ (F : Floats) (score : F.Float) where
  -- `_summary_hit`
  unfoldable pub summary_hit : Community → String → VectorHit F
  unfolding default_visibility
  summary_hit c summary = record {
    chunk = record {
      id = c.id;
      text = summary;
      source = "community";
      doc_path = c.id;
      heading = c.title;
      entity_ids = [];
      visibility = default_visibility;
    };
    score = score;
  }

  module _ (synthesizer : Synthesizer F) where
    -- the answer of the map step to one community
    unfoldable pub partial_of : String → Community → String
    unfolding summary_hit
    partial_of question c =
        (synthesizer.synthesize
          ("QUESTION: "
            <> (question <> ("\n\nCOMMUNITY SUMMARY:\n" <> (c.summary <> map_directive))))
          (summary_hit c c.summary ∷ []) []).answer

    unfoldable pub is_relevant : String → Community → Bool
    unfolding partial_of strip
    is_relevant question c = not (strip (partial_of question c) == not_relevant)

    unfoldable pub verdict : String → Community → MapVerdict
    unfolding partial_of is_relevant
    verdict question c = record {
      community_id = c.id;
      tier = c.tier;
      size = c.size;
      relevant = is_relevant question c;
      partial = partial_of question c;
    }

    -- the communities that the loop appends to `survivors`
    unfoldable pub survivors : String → List Community → List Community
    unfolding is_relevant keep
    survivors question considered = keep (is_relevant question) considered

    unfoldable pub reduce : String → List Community → String
    unfolding summary_hit partial_of
    reduce question [] =
        "No community summaries in scope contribute to this corpus-wide question "
        <> "(none were retrieved, or none cleared the persona's visibility)."
    reduce question (c ∷ cs) =
        (synthesizer.synthesize question (map (λ d. summary_hit d (partial_of question d)) (c ∷ cs))
          []).answer

    unfoldable pub citations_of : List Community → List String
    unfolding sorted dedupe gather
    citations_of cs =
        map (λ (c : Community). "community:" <> c.id) cs
        ++ sorted (dedupe (gather (λ (c : Community). c.doc_paths) cs))

    unfoldable pub global_query :
        String → CommunityStore → Option Clearance → ℕ → GlobalSearchResult
    unfolding all_communities take verdict survivors reduce citations_of allowed_of
    global_query question store clearance top_n =
        let considered = take top_n (all_communities store (allowed_of clearance)) in
        let contributing = survivors question considered in
        record {
          question = question;
          communities_considered = considered;
          map_verdicts = map (verdict question) considered;
          answer = reduce question contributing;
          citations = citations_of contributing;
          clearance = clearance;
        }
