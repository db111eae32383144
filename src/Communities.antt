-- ===== src/Communities.antt =====
-- packages/graphrag/src/graphrag/store/community_base.py, store/community_memory.py,
-- community_detect.py and globalsearch.py: the communities with their tiers, and the corpus-wide
-- query over their summaries. The partition that `louvain_communities` gives is an argument.
pub mod Gated
use Prim.Native.Nat.{ℕ, suc, ◌+◌}
use graphrag_aws_template.Prelude.{
  ltb, leb, ltb→lt, ltb→le, String, ◌<>◌, Bool, true, false, not, ◌&&◌, ◌||◌, ◌==◌, ◌≡◌, Option,
  none, some, List, [], ◌∷◌, ◌++◌, map, length, take, keep, contains, string_eq, if◌then◌else◌,
  is_some, arith,
}
use graphrag_aws_template.Prelude.Sets.{dedupe, union}
use graphrag_aws_template.Prelude.Dicts.{Dict, get, put, values, keys, index_by}
use graphrag_aws_template.Prelude.Sorting.{
  Order, sorted, text_order, text_le, text_le_total, text_le_trans,
}
use graphrag_aws_template.Prelude.Text.{strip, decimal, join}
use graphrag_aws_template.Chunk.{Chunk}
use graphrag_aws_template.Visibility.{Clearance, compose, default_visibility}
use graphrag_aws_template.Model.{Node, Edge, edge_value, Value, null, text, other, str}
use graphrag_aws_template.Model.WellFormed.{id_of}
use graphrag_aws_template.Store.{Allowed, in_clearance, vis, gather}
use graphrag_aws_template.Store.Memory.{collect}
use graphrag_aws_template.Query.{allowed_of}

pub record Community : Type 0 where
  pub id : String
  pub title : String
  pub summary : String
  pub entity_ids : List String
  pub tier : String
  pub size : ℕ
  pub doc_paths : List String

-- the state of `MemoryCommunityStore`
pub record CommunityStore : Type 0 where
  pub items : Dict String Community
  pub entity_community : Dict String String

unfoldable pub upsert_community : CommunityStore → Community → CommunityStore
unfolding put
upsert_community store c = record store { items = put store.items c.id c }

unfoldable pub set_community_id : CommunityStore → String → String → CommunityStore
unfolding put
set_community_id store entity_id community_id = record store {
  entity_community = put store.entity_community entity_id community_id;
}

unfoldable pub community_of : CommunityStore → String → Option String
unfolding get
community_of store entity_id = get store.entity_community entity_id

unfoldable pub clear : CommunityStore → CommunityStore
clear store = record { items = []; entity_community = [] }

unfoldable pub count : CommunityStore → ℕ
count store = length store.items

-- key=lambda c: (-c.size, c.id)
abbrev pub larger : ℕ × String → ℕ × String → Bool
larger (m, i) (n, j) = if ltb n m then true else if ltb m n then false else text_le i j

pub larger_total : (p q : ℕ × String) → larger p q ≡ false → larger q p ≡ true
larger_total (m, i) (n, j) h = ground (arith, text_le_total i j)

pub larger_trans : (p q r : ℕ × String) → larger p q ≡ true → larger q r ≡ true → larger p r ≡ true
larger_trans (m, i) (n, j) (l, k) h g = ground (arith, text_le_trans i j k)

abbrev pub sort_key : Community → ℕ × String
sort_key c = (c.size, c.id)

instance abbrev pub by_size : Order Community
by_size = record {
  le = λ c d. larger (sort_key c) (sort_key d);
  total = λ c d. larger_total (sort_key c) (sort_key d);
  trans = λ c d e. larger_trans (sort_key c) (sort_key d) (sort_key e);
}

unfoldable pub all_communities : CommunityStore → Allowed → List Community
unfolding in_clearance keep values sorted
all_communities store allowed =
    sorted (keep (λ (c : Community). in_clearance allowed c.tier) (values store.items))

pub record CommunitySpec : Type 0 where
  pub id : String
  pub entity_ids : List String
  pub size : ℕ
  pub tier : String

-- key=lambda members: (-len(members), members[0]); a part of a partition is not empty
abbrev first_or_blank : List String → String
first_or_blank [] = ""
first_or_blank (m ∷ members) = m

abbrev pub part_key : List String → ℕ × String
part_key members = (length members, first_or_blank members)

instance abbrev pub by_members : Order (List String)
by_members = record {
  le = λ c d. larger (part_key c) (part_key d);
  total = λ c d. larger_total (part_key c) (part_key d);
  trans = λ c d e. larger_trans (part_key c) (part_key d) (part_key e);
}

-- by_id[member_id], which is there for a partition of the ids
unfoldable pub visibility_in : Dict String Node → String → String
unfolding vis get default_visibility
visibility_in by_id id = elim (get by_id id) [ none ↦ default_visibility | some n ↦ vis n.props ]

unfoldable pub specs_from : Dict String Node → ℕ → List (List String) → List CommunitySpec
unfolding compose visibility_in decimal
specs_from by_id index [] = []
specs_from by_id index (members ∷ parts) =
    record {
      id = "community-" <> decimal index;
      entity_ids = members;
      size = length members;
      tier = compose (map (visibility_in by_id) members);
    }
    ∷ specs_from by_id (suc index) parts

-- `detect_communities`: the graph of the known endpoints goes to `louvain`
unfoldable pub detect_communities :
    (List String → List (String × String) → List (List String))
    → List Node
    → List Edge
    → List CommunitySpec
unfolding index_by get specs_from sorted keys keep
detect_communities louvain nodes edges =
    let by_id = index_by id_of nodes in
    let known =
      keep (λ (e : Edge). is_some (get by_id e.src_id) && is_some (get by_id e.dst_id)) edges in
    let partition = louvain (keys by_id) (map (λ (e : Edge). (e.src_id, e.dst_id)) known) in
    specs_from by_id 0 (sorted ⦃o = by_members⦄ (map (λ part. sorted part) partition))

-- `bool(x)` of a value: no text that is empty, and of another object what `truthy` says of its type and
-- its `str`
unfoldable pub is_truthy : (String → String → Bool) → Value → Bool
is_truthy truthy null = false
is_truthy truthy (text s) = not (s == "")
is_truthy truthy (other type_name s) = truthy type_name s

-- a or b, of which the props may have neither
unfoldable pub first_truthy : (String → String → Bool) → Option Value → Option Value → Option Value
unfolding is_truthy
first_truthy truthy none o = o
first_truthy truthy (some v) o = if is_truthy truthy v then some v else o

unfoldable pub shown_or : (String → String → Bool) → Option Value → String → String
unfolding is_truthy str
shown_or truthy none id = id
shown_or truthy (some v) id = if is_truthy truthy v then str v else id

-- `_entity_label`
unfoldable pub entity_label : (String → String → Bool) → Node → String
unfolding get first_truthy shown_or
entity_label truthy node =
    shown_or truthy (first_truthy truthy (get node.props "title") (get node.props "name")) node.id

-- `_community_title`
unfoldable pub community_title : (String → String → Bool) → List Node → String
unfolding entity_label decimal
community_title truthy [] = "(empty community)"
community_title truthy (node ∷ []) = entity_label truthy node
community_title truthy (node ∷ next ∷ nodes) =
    entity_label truthy node <> (" +" <> (decimal (suc (length nodes)) <> " more"))

-- the relationships within a community, as the question names them
unfoldable pub relationships : List String → List Edge → String
unfolding join keep contains edge_value
relationships members edges =
    let intra_edges =
      keep (λ (e : Edge). contains members e.src_id && contains members e.dst_id) edges in
    let rels = join "; " (
      map (λ (e : Edge). e.src_id <> (" -" <> (edge_value e.kind <> ("-> " <> e.dst_id))))
        intra_edges) in
    if rels == "" then "(no internal relationships)" else rels

-- one round of `summarize_communities`; `summarize` is the synthesizer's answer
unfoldable pub summarize_community :
    (String → String → Bool)
    → (String → List Node → String)
    → Dict String Node
    → List Edge
    → CommunitySpec
    → Community
unfolding relationships community_title collect get gather dedupe sorted
summarize_community truthy summarize by_id edges spec =
    let member_nodes = collect (get by_id) spec.entity_ids in
    record {
      id = spec.id;
      title = community_title truthy member_nodes;
      summary =
          summarize
            ("Summarize this community of related Kubernetes organizational entities for a "
              <> ("corpus-wide overview: describe what the group is about and how its members "
                  <> ("relate. Relationships within the community: "
                      <> relationships spec.entity_ids edges)))
            member_nodes;
      entity_ids = spec.entity_ids;
      tier = spec.tier;
      size = spec.size;
      doc_paths = sorted (dedupe (gather (λ (n : Node). n.doc_paths) member_nodes));
    }

unfoldable pub summarize_communities :
    (String → String → Bool)
    → (String → List Node → String)
    → List CommunitySpec
    → List Node
    → List Edge
    → List Community
unfolding summarize_community index_by
summarize_communities truthy summarize specs nodes edges =
    map (summarize_community truthy summarize (index_by id_of nodes) edges) specs
