-- ===== src/ParentChild.antt =====
-- packages/graphrag/src/graphrag/store/parentchild_base.py and parentchild_memory.py: the store of
-- parents with their children, scored by the best child; and the query of parentchild.py. The float
-- that the search for the best child starts from, float("-inf"), is an argument.
pub mod Best
use graphrag_aws_template.Prelude.{
  ℕ, String, not, Option, none, some, List, [], ◌∷◌, map, length, keep, take, string_eq,
  if◌then◌else◌,
}
use graphrag_aws_template.Prelude.Dicts.{Dict, put, values}
use graphrag_aws_template.Prelude.Sorting.{Order, sorted}
use graphrag_aws_template.Chunk.{Chunk}
use graphrag_aws_template.Visibility.{Clearance}
use graphrag_aws_template.Store.{Allowed, in_clearance}
use graphrag_aws_template.Store.Memory.{collect}
use graphrag_aws_template.Query.{allowed_of}
use graphrag_aws_template.VectorStore.{Floats, Vector, VectorHit, cosine}
use graphrag_aws_template.Retrieval.{Embedder, Synthesizer}

module _ (F : Floats) where
  open F use {Float, order}

  pub record ChildVector : Type 0 where
    pub child_id : String
    pub heading : String
    pub text : String
    pub vector : Vector F

  pub record ParentDoc : Type 0 where
    pub parent_id : String
    pub source : String
    pub doc_path : String
    pub heading : String
    pub entity_ids : List String
    pub visibility : String
    pub body : String
    pub children : List ChildVector

  pub record ParentHit : Type 0 where
    pub parent : ParentDoc
    pub score : Float
    pub matched_child : Option ChildVector

  -- the variables of the inner loop of `search`
  pub record BestChild : Type 0 where
    pub best_child : Option ChildVector
    pub best_score : Float

  abbrev pub Parents : Type 0
  Parents = Dict String ParentDoc

  unfoldable pub index_parent : Parents → ParentDoc → Parents
  unfolding put
  index_parent items parent = put items parent.parent_id parent

  -- the inner loop, with what it has found
  unfoldable pub best_of : Vector F → BestChild → List ChildVector → BestChild
  unfolding cosine
  best_of vector best [] = best
  best_of vector best (child ∷ children) =
      let score = cosine F vector child.vector in
      let next =
        if order.le score best.best_score
        then best
        else record { best_child = some child; best_score = score } in
      best_of vector next children

  -- a parent that has a best child is a hit
  unfoldable pub hit_of : ParentDoc → BestChild → Option ParentHit
  hit_of parent best = elim best.best_child [
    | none ↦ none
    | some child ↦
        some (record { parent = parent; score = best.best_score; matched_child = some child })
  ]

  instance abbrev pub by_best_score : Order ParentHit
  by_best_score = record {
    le = λ h i. order.le i.score h.score;
    total = λ h i. order.total i.score h.score;
    trans = λ h i j p q. order.trans j.score i.score h.score q p;
  }

  module _ (minus_infinity : Float) where
    -- a round of the outer loop that the clearance lets through
    unfoldable pub parent_hit : Vector F → ParentDoc → Option ParentHit
    unfolding best_of hit_of
    parent_hit vector parent =
        hit_of parent (
          best_of vector (record { best_child = none; best_score = minus_infinity })
            parent.children)

    -- `k` is max(0, k)
    unfoldable pub search : Parents → Vector F → ℕ → Allowed → List ParentHit
    unfolding parent_hit in_clearance collect keep values sorted take
    search items vector k allowed = take k (
        sorted ⦃o = by_best_score⦄ (
          collect (parent_hit vector)
            (keep (λ parent. in_clearance allowed parent.visibility) (values items))))

  unfoldable pub count : Parents → ℕ
  unfolding values
  count items = length (values items)

  unfoldable pub clear : Parents → Parents
  clear items = []

  pub record ParentChildResult : Type 0 where
    pub question : String
    pub hits : List ParentHit
    pub answer : String
    pub citations : List String
    pub clearance : Option Clearance

  -- `_parent_as_context`
  unfoldable pub parent_as_context : ParentHit → VectorHit F
  parent_as_context hit = record {
    chunk = record {
      id = hit.parent.parent_id;
      text = hit.parent.body;
      source = hit.parent.source;
      doc_path = hit.parent.doc_path;
      heading = hit.parent.heading;
      entity_ids = hit.parent.entity_ids;
      visibility = hit.parent.visibility;
    };
    score = hit.score;
  }

  -- `parentchild_query` over the in-memory store
  unfoldable pub parentchild_query :
      Float
      → String
      → Parents
      → Embedder F
      → Synthesizer F
      → ℕ
      → Option Clearance
      → ParentChildResult
  unfolding search parent_as_context allowed_of
  parentchild_query minus_infinity question items embedder synthesizer k clearance =
      let hits =
        search minus_infinity items (embedder.embed_text question) k (allowed_of clearance) in
      let synthesis = synthesizer.synthesize question (map parent_as_context hits) [] in
      record {
        question = question;
        hits = hits;
        answer = synthesis.answer;
        citations = synthesis.citations;
        clearance = clearance;
      }
