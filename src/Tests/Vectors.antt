-- ===== src/Tests/Vectors.antt =====
-- The vector store over whole numbers in place of floats, with two chunks of one document each.
use graphrag_aws_template.Prelude.Dicts.{keys}
use graphrag_aws_template.Prelude.Dicts.{keep_values}
use native.Mathlib.Nat.{mul-pos}
use Prim.Native.Nat.{ℕ, zero, suc, ◌+◌, ◌*◌}
use graphrag_aws_template.Prelude.{
  ◌≡◌, refl, true, String, string_eq, not, some, none, List, [], ◌∷◌, leb, arith, contains, keep,
  if◌then◌else◌,
}
use graphrag_aws_template.Prelude.Dicts.{get}
use graphrag_aws_template.Store.{in_clearance}
use graphrag_aws_template.VectorStore.{
  Floats, EmbeddedChunk, Items, by_score, knn, index_chunk, delete, delete_by_doc,
}
use graphrag_aws_template.VectorStore.Search
use graphrag_aws_template.Prelude.{All}
use graphrag_aws_template.ParentChild.{ChildVector, ParentDoc, Parents, search}
use graphrag_aws_template.ParentChild.Best
use graphrag_aws_template.ParentChild.Best.{IsBestHit}
use graphrag_aws_template.VectorStore.Rows
use graphrag_aws_template.VectorStore.Rows.{IsIndex}

abbrev pub total_of : List ℕ → ℕ
total_of [] = 0
total_of (x ∷ xs) = x + total_of xs

pub positive_times :
    (x y : ℕ) → not (leb x 0) ≡ true → not (leb y 0) ≡ true → not (leb (x * y) 0) ≡ true
positive_times zero y h k = absurd (ground arith)
positive_times (suc x) zero h k = absurd (ground arith)
positive_times (suc x) (suc y) h k =
    let p = mul-pos {m = suc x} {n = suc y} (omega arith) (omega arith) in ground (arith, p)

abbrev pub whole : Floats
whole = record {
  Float = ℕ;
  zero = 0;
  times = λ x y. x * y;
  divided = λ x y. x;
  sqrt = λ x. x;
  sum = total_of;
  truthy = λ x. not (leb x 0);
  truthy_times = positive_times;
  order = record { le = leb; total = λ a b h. ground arith; trans = λ a b c h k. ground arith };
}

abbrev pub open_chunk : EmbeddedChunk whole
open_chunk = record {
  chunk = record {
    id = "community/a.md#0";
    text = "open";
    source = "community";
    doc_path = "a.md";
    heading = "";
    entity_ids = [];
    visibility = "public";
  };
  vector = 1 ∷ [];
}

abbrev pub secret_chunk : EmbeddedChunk whole
secret_chunk = record {
  chunk = record {
    id = "community/b.md#0";
    text = "secret";
    source = "community";
    doc_path = "b.md";
    heading = "";
    entity_ids = [];
    visibility = "restricted";
  };
  vector = 3 ∷ [];
}

abbrev pub stored : Items whole
stored = ("community/a.md#0", open_chunk) ∷ ("community/b.md#0", secret_chunk) ∷ []

abbrev only_open : Items whole
only_open = ("community/a.md#0", open_chunk) ∷ []

knn-noninterference_example :
    knn whole stored (2 ∷ []) 5 (some ("public" ∷ [])) none
    ≡ knn whole only_open (2 ∷ []) 5 (some ("public" ∷ [])) none
unfolding keep_values keep in_clearance
knn-noninterference_example =
    Search.knn-noninterference whole (2 ∷ []) 5 none stored only_open ("public" ∷ []) refl

abbrev near : ChildVector whole
near = record { child_id = "community/a.md#1"; heading = ""; text = "near"; vector = 3 ∷ [] }

abbrev open_parent : ParentDoc whole
open_parent = record {
  parent_id = "community/a.md";
  source = "community";
  doc_path = "a.md";
  heading = "";
  entity_ids = [];
  visibility = "public";
  body = "open near";
  children = record near { child_id = "community/a.md#0"; vector = 1 ∷ [] } ∷ near ∷ [];
}

abbrev parents : Parents whole
parents =
    ("community/a.md", open_parent)
    ∷ ("community/b.md", record open_parent { visibility = "restricted" })
    ∷ []

search-IsBestHit_example :
    All
      (IsBestHit whole (2 ∷ []) (some ("public" ∷ [])))
      (search whole 0 parents (2 ∷ []) 5 (some ("public" ∷ [])))
search-IsBestHit_example = Best.search-IsBestHit whole (2 ∷ []) 0 parents 5 (some ("public" ∷ []))

empty-IsIndex : IsIndex whole []
unfolding get keys
empty-IsIndex = record { once = tt; named = λ k v h. ground arith }

pub open-IsIndex : IsIndex whole (index_chunk whole [] open_chunk)
open-IsIndex = (Rows.operations-IsIndex whole [] empty-IsIndex).0 open_chunk

operations_lem_example :
    ((ec : EmbeddedChunk whole)
      → get (index_chunk whole (index_chunk whole [] open_chunk) ec) "community/b.md#0"
        ≡ (if string_eq.beq ec.chunk.id "community/b.md#0" then some ec else none))
    × ((ids : List String)
        → get (delete whole (index_chunk whole [] open_chunk) ids) "community/b.md#0"
          ≡ (if contains ids "community/b.md#0" then none else none))
    × ((doc_ids : List String)
        → get (delete_by_doc whole (index_chunk whole [] open_chunk) doc_ids) "community/b.md#0"
          ≡ none)
unfolding get index_chunk
operations_lem_example =
    Rows.operations_lem whole (index_chunk whole [] open_chunk) "community/b.md#0" open-IsIndex
