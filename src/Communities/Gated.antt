-- ===== src/Communities/Gated.antt =====
-- community_detect.py and globalsearch.py: the tiers of communities against their members, and the
-- communities that an answer rests on.
use graphrag_aws_template.Prelude.{
  ℕ, suc, ◌≡◌, refl, ◌∙◌, ap, String, Bool, true, ◌&&◌, Option, List, [], ◌∷◌, map, all, All,
  All-keep, All-map, All-take, string_eq,
}
use graphrag_aws_template.Prelude.Dicts.{index_by, values}
use graphrag_aws_template.Visibility.{Clearance, allows, value, public}
use graphrag_aws_template.Visibility.Compose.{IsTier, IsDownwardClosed, allows-compose}
use graphrag_aws_template.Model.{Node, Edge}
use graphrag_aws_template.Model.WellFormed.{id_of}
use graphrag_aws_template.Store.{in_clearance}
use graphrag_aws_template.Query.{allowed_of}
use graphrag_aws_template.VectorStore.{Floats}
use graphrag_aws_template.VectorStore.Search.{All-sorted}
use graphrag_aws_template.Retrieval.{Synthesizer, sees}
use graphrag_aws_template.Hybrid.Cleared.{sees-in_clearance}
use graphrag_aws_template.Communities.{
  Community, CommunityStore, by_size, all_communities, CommunitySpec, visibility_in, specs_from,
  detect_communities, summarize_community, summarize_communities,
}
use graphrag_aws_template.GlobalSearch.{global_query, GlobalSearchResult}

all-map {ℓ κ} :
    {A : Type ℓ} {B : Type κ} (p : B → Bool) (f : A → B) (xs : List A)
    → all p (map f xs) ≡ all (λ x. p (f x)) xs
unfolding all
all-map p f [] = refl
all-map p f (x ∷ xs) = ap (λ b. p (f x) && b) (all-map p f xs)

module _ (c : Clearance) (nodes : List Node) where
  -- The clearance allows the label of each member.
  abbrev pub allows_members : List String → Bool
  allows_members members = all (λ id. allows c (visibility_in (index_by id_of nodes) id)) members

  tiers_of :
      (tiered : (id : String) → IsTier (visibility_in (index_by id_of nodes) id))
      (ids : List String)
      → All IsTier (map (visibility_in (index_by id_of nodes)) ids)
  tiers_of tiered [] = tt
  tiers_of tiered (id ∷ ids) = (tiered id, tiers_of tiered ids)

  specs_from-tier :
      (index : ℕ) (parts : List (List String))
      → ((id : String) → IsTier (visibility_in (index_by id_of nodes) id))
      → IsDownwardClosed c
      → allows c (value public) ≡ true
      → All
          (λ (s : CommunitySpec). allows c s.tier ≡ allows_members s.entity_ids)
          (specs_from (index_by id_of nodes) index parts)
  unfolding specs_from
  specs_from-tier index [] tiered closed open_public = tt
  specs_from-tier index (members ∷ parts) tiered closed open_public = (
    allows-compose c closed (map (visibility_in (index_by id_of nodes)) members)
          (tiers_of tiered members) open_public
        ∙ all-map (allows c) (visibility_in (index_by id_of nodes)) members,
    specs_from-tier (suc index) parts tiered closed open_public,
  )

  -- For a clearance closed downwards that allows the public tier, and nodes whose labels are tiers:
  -- whatever the partition, a summarized community is allowed exactly if all its members are.
  pub summarize_communities-tier :
      (louvain : List String → List (String × String) → List (List String)) (edges : List Edge)
      (truthy : String → String → Bool) (summarize : String → List Node → String)
      → ((id : String) → IsTier (visibility_in (index_by id_of nodes) id))
      → IsDownwardClosed c
      → allows c (value public) ≡ true
      → All
          (λ (m : Community). allows c m.tier ≡ allows_members m.entity_ids)
          (summarize_communities truthy summarize
            (detect_communities louvain nodes edges)
            nodes
            edges)
  unfolding summarize_communities summarize_community detect_communities
  summarize_communities-tier louvain edges truthy summarize tiered closed open_public =
      All-map (λ (m : Community). allows c m.tier ≡ allows_members m.entity_ids)
        (summarize_community truthy summarize (index_by id_of nodes) edges) _
        (specs_from-tier 0 _ tiered closed open_public)

module _ (F : Floats) (score : F.Float) (synthesizer : Synthesizer F) (question : String)
    (store : CommunityStore) (clearance : Option Clearance) (top_n : ℕ) where
  abbrev answered : GlobalSearchResult
  answered = global_query F score synthesizer question store clearance top_n

  -- Every community that an answer considers is within the clearance.
  pub global_query-cleared :
      All (λ (c : Community). sees clearance c.tier ≡ true) answered.communities_considered
  unfolding global_query all_communities
  global_query-cleared = All-take _ top_n _ (
      All-sorted ⦃o = by_size⦄ _ _ (
        All-keep _ (λ (c : Community). in_clearance (allowed_of clearance) c.tier)
          (values store.items) (λ c h. sees-in_clearance clearance c.tier ∙ h)))
