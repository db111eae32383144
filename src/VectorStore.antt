-- ===== src/VectorStore.antt =====
-- packages/graphrag/src/graphrag/store/vector_memory.py: the in-memory vector store. The arithmetic
-- of floats is a parameter, `Floats`, with their order; the `matches` of a metadata filter is an
-- argument. The parameter assumes vectors whose norms neither underflow in their product, at which the
-- division raises, nor give a NaN, which no order places.
pub mod Search
pub mod Rows
use Prim.Native.String.{◌++◌ as concat}
use graphrag_aws_template.Prelude.{
  ◌≡◌, ℕ, String, Bool, true, false, not, ◌&&◌, Option, none, some, List, [], ◌∷◌, map, length,
  keep, take, contains, string_eq, if◌then◌else◌,
}
use graphrag_aws_template.Prelude.Sets.{dedupe}
use graphrag_aws_template.Prelude.Dicts.{Dict, put, remove, keep_values, values}
use graphrag_aws_template.Prelude.Sorting.{Order, sorted}
use graphrag_aws_template.Chunk.{Chunk}
use graphrag_aws_template.Store.{Allowed, in_clearance}

pub record Floats : Type 1 where
  pub Float : Type 0
  pub zero : Float
  pub times : Float → Float → Float
  pub divided : Float → Float → Float
  pub sqrt : Float → Float
  pub sum : List Float → Float
  -- bool(x): whether x is not zero
  pub truthy : Float → Bool
  -- no product of two floats that are not zero is
  pub truthy_times : (x y : Float) → truthy x ≡ true → truthy y ≡ true → truthy (times x y) ≡ true
  pub order : Order Float

module _ (F : Floats) where
  open F use {Float, zero, times, divided, sqrt, sum, truthy, order}

  abbrev pub Vector : Type 0
  Vector = List Float

  pub record EmbeddedChunk : Type 0 where
    pub chunk : Chunk
    pub vector : Vector

  pub record VectorHit : Type 0 where
    pub chunk : Chunk
    pub score : Float

  -- x * y for x, y in zip(a, b, strict=False)
  unfoldable pub products : Vector → Vector → List Float
  products [] b = []
  products (x ∷ a) [] = []
  products (x ∷ a) (y ∷ b) = times x y ∷ products a b

  unfoldable pub cosine : Vector → Vector → Float
  unfolding products
  cosine a b =
      let dot = sum (products a b) in
      let na = sqrt (sum (map (λ x. times x x) a)) in
      let nb = sqrt (sum (map (λ x. times x x) b)) in
      if truthy na && truthy nb then divided dot (times na nb) else zero

  abbrev pub Items : Type 0
  Items = Dict String EmbeddedChunk

  unfoldable pub index_chunk : Items → EmbeddedChunk → Items
  unfolding put
  index_chunk items embedded = put items embedded.chunk.id embedded

  -- `metadata_filter is None or metadata_filter.matches(chunk)`
  unfoldable pub passes : Option (Chunk → Bool) → Chunk → Bool
  passes none chunk = true
  passes (some matches) chunk = matches chunk

  -- the condition of the comprehension
  unfoldable pub candidate : Allowed → Option (Chunk → Bool) → EmbeddedChunk → Bool
  unfolding in_clearance passes
  candidate allowed metadata_filter ec =
      in_clearance allowed ec.chunk.visibility && passes metadata_filter ec.chunk

  unfoldable pub hit : Vector → EmbeddedChunk → VectorHit
  unfolding cosine
  hit vector ec = record { chunk = ec.chunk; score = cosine vector ec.vector }

  -- key=lambda h: h.score, reverse=True: the higher score comes first
  abbrev pub higher : VectorHit → VectorHit → Bool
  higher h i = order.le i.score h.score

  instance abbrev pub by_score : Order VectorHit
  by_score = record {
    le = higher;
    total = λ h i. order.total i.score h.score;
    trans = λ h i j p q. order.trans j.score i.score h.score q p;
  }

  -- the hits before the cut
  unfoldable pub ranked : Items → Vector → Allowed → Option (Chunk → Bool) → List VectorHit
  unfolding candidate hit keep values sorted
  ranked items vector allowed metadata_filter =
      sorted ⦃o = by_score⦄
        (map (hit vector) (keep (candidate allowed metadata_filter) (values items)))

  -- `k` is max(0, k)
  unfoldable pub knn : Items → Vector → ℕ → Allowed → Option (Chunk → Bool) → List VectorHit
  unfolding ranked take
  knn items vector k allowed metadata_filter = take k (ranked items vector allowed metadata_filter)

  unfoldable pub count : Items → ℕ
  unfolding values
  count items = length (values items)

  unfoldable pub delete : Items → List String → Items
  unfolding remove
  delete items [] = items
  delete items (id ∷ ids) = delete (remove items id) ids

  -- f"{chunk.source}/{chunk.doc_path}"
  unfoldable pub doc_id : Chunk → String
  doc_id chunk = concat chunk.source (concat "/" chunk.doc_path)

  -- the chunk is of none of the documents
  unfoldable pub of_other : List String → EmbeddedChunk → Bool
  unfolding doc_id contains
  of_other targets ec = not (contains targets (doc_id ec.chunk))

  unfoldable pub delete_by_doc : Items → List String → Items
  unfolding of_other keep_values dedupe
  delete_by_doc items doc_ids = keep_values (of_other (dedupe doc_ids)) items

  unfoldable pub clear : Items → Items
  clear items = []

  -- the interface `VectorStore` of store/vector_base.py
  pub record VectorStore : Type 1 where
    pub State : Type 0
    pub index_chunk : State → EmbeddedChunk → State
    pub knn : State → Vector → ℕ → Allowed → Option (Chunk → Bool) → List VectorHit
    pub count : State → ℕ
    pub delete : State → List String → State
    pub delete_by_doc : State → List String → State
    pub clear : State → State

  -- `MemoryVectorStore`
  abbrev pub memory_vector_store : VectorStore
  memory_vector_store = record {
    State = Items;
    index_chunk = index_chunk;
    knn = knn;
    count = count;
    delete = delete;
    delete_by_doc = delete_by_doc;
    clear = clear;
  }
