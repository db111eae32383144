-- ===== src/VectorStore/Search.antt =====
-- store/vector_memory.py, `knn`: its hits, their order, and the chunks that they depend on.
use Prim.Native.Nat.{min}
use graphrag_aws_template.Prelude.{
  ℕ, zero, suc, ◌+◌, ◌≡◌, refl, sym, ◌∙◌, ap, String, Bool, true, ◌&&◌, Option, none, some, List,
  [], ◌∷◌, map, arith, length, take, keep, length-take, All, All-keep, All-take, All-map, string_eq,
  Bool-cases, inl, inr,
}
use graphrag_aws_template.Prelude.Keeping.{keep-ext}
use graphrag_aws_template.Prelude.Dicts.{Dict, values, keep_values}
use graphrag_aws_template.Prelude.Sorting.{
  Order, sorted, insert_sorted, IsSorted, sorted-IsSorted, length-sorted,
}
use graphrag_aws_template.Chunk.{Chunk}
use graphrag_aws_template.Store.{Allowed, in_clearance}
use graphrag_aws_template.VectorStore.{
  Floats, Vector, VectorHit, Items, passes, candidate, hit, by_score, ranked, knn,
}

module _ {ℓ} {A : Type ℓ} where
  keep-keep : (p q : A → Bool) (xs : List A) → keep p (keep q xs) ≡ keep (λ x. q x && p x) xs
  unfolding keep
  keep-keep p q [] = refl
  keep-keep p q (x ∷ xs) = ground (arith, keep-keep p q xs)

  take-take : (k j : ℕ) (xs : List A) → take k (take (k + j) xs) ≡ take k xs
  unfolding take
  take-take zero j xs = refl
  take-take (suc k) j [] = let e : suc k + j ≡ suc (k + j) = omega arith in rw e refl
  take-take (suc k) j (x ∷ xs) =
      let e : suc k + j ≡ suc (k + j) = omega arith in rw e (ap (◌∷◌ x) (take-take k j xs))

  module _ ⦃o : Order A⦄ where
    All-insert_sorted {κ} :
        (P : A → Type κ) (a : A) (xs : List A) → P a → All P xs → All P (insert_sorted a xs)
    unfolding insert_sorted
    All-insert_sorted P a [] p h = (p, tt)
    All-insert_sorted P a (x ∷ xs) p h = elim (Bool-cases (o.le a x)) [
      | inl first ↦ rw first (p, h)
      | inr later ↦ rw later (h.0, All-insert_sorted P a xs p h.1)
    ]

    pub All-sorted {κ} : (P : A → Type κ) (xs : List A) → All P xs → All P (sorted xs)
    unfolding sorted
    All-sorted P [] h = tt
    All-sorted P (x ∷ xs) h = All-insert_sorted P x (sorted xs) h.0 (All-sorted P xs h.1)

    take-IsSorted : (k : ℕ) (xs : List A) → IsSorted xs → IsSorted (take k xs)
    unfolding take
    take-IsSorted zero xs s = tt
    take-IsSorted (suc k) [] s = tt
    take-IsSorted (suc k) (x ∷ xs) s =
        (All-take (λ y. o.le x y ≡ true) k xs s.0, take-IsSorted k xs s.1)

length-map {ℓ κ} :
    {A : Type ℓ} {B : Type κ} (f : A → B) (xs : List A) → length (map f xs) ≡ length xs
length-map f [] = refl
length-map f (x ∷ xs) = omega (arith, length-map f xs)

values-keep_values {ℓ} :
    {V : Type ℓ} (p : V → Bool) (d : Dict String V) → values (keep_values p d) ≡ keep p (values d)
unfolding values keep_values keep
values-keep_values p [] = refl
values-keep_values p ((k, v) ∷ d) = ground (arith, values-keep_values p d)

module _ (F : Floats) (vector : Vector F) (k : ℕ) (metadata_filter : Option (Chunk → Bool)) where
  abbrev Permitted : Allowed → VectorHit F → Type 0
  Permitted allowed h =
      (in_clearance allowed h.chunk.visibility && passes F metadata_filter h.chunk) ≡ true

  -- Every hit shows a chunk within the clearance that passes the metadata filter.
  pub knn-Permitted :
      (items : Items F) (allowed : Allowed)
      → All (Permitted allowed) (knn F items vector k allowed metadata_filter)
  unfolding knn ranked
  knn-Permitted items allowed = All-take (Permitted allowed) k _ (
      All-sorted ⦃o = by_score F⦄ (Permitted allowed) _ (
        All-map (Permitted allowed) (hit F vector) _ (
          All-keep _ (candidate F allowed metadata_filter) (values items)
            (λ ec h. unfold candidate hit in h))))

  -- the stored chunks within the labels
  abbrev pub visible : List String → Items F → Items F
  visible labels items = keep_values (λ ec. in_clearance (some labels) ec.chunk.visibility) items

  knn-visible :
      (items : Items F) (labels : List String)
      → knn F items vector k (some labels) metadata_filter
        ≡ knn F (visible labels items) vector k none metadata_filter
  unfolding knn ranked
  knn-visible items labels =
      ap (λ ecs. take k (sorted ⦃o = by_score F⦄ (map (hit F vector) ecs)))
        (keep-ext _ _ (values items) (λ ec. unfold candidate in_clearance in refl)
          ∙ sym (keep-keep (candidate F none metadata_filter) _ (values items))
          ∙ ap (keep (candidate F none metadata_filter)) (sym (values-keep_values _ items)))

  -- Two stores that hold the same chunks within the labels give the same hits: what lies above the
  -- clearance has no influence on the result.
  pub knn-noninterference :
      (items others : Items F) (labels : List String)
      → visible labels items ≡ visible labels others
      → knn F items vector k (some labels) metadata_filter
        ≡ knn F others vector k (some labels) metadata_filter
  knn-noninterference items others labels same =
      knn-visible items labels
      ∙ ap (λ i. knn F i vector k none metadata_filter) same
      ∙ sym (knn-visible others labels)

  -- The hits go from the highest score to the lowest, there are `k` of them or as many as there are
  -- candidates, and a larger `k` only adds hits behind them.
  pub knn-ranking :
      (items : Items F) (allowed : Allowed)
      → IsSorted ⦃o = by_score F⦄ (knn F items vector k allowed metadata_filter)
        × (length (knn F items vector k allowed metadata_filter)
            ≡ min k (length (keep (candidate F allowed metadata_filter) (values items))))
        × ((j : ℕ)
            → take k (knn F items vector (k + j) allowed metadata_filter)
              ≡ knn F items vector k allowed metadata_filter)
  unfolding knn ranked
  knn-ranking items allowed =
      let hits = map (hit F vector) (keep (candidate F allowed metadata_filter) (values items)) in
      (
        take-IsSorted ⦃o = by_score F⦄ k _ (sorted-IsSorted ⦃o = by_score F⦄ hits),
        length-take k _
            ∙ ap (min k) (
                length-sorted ⦃o = by_score F⦄ hits
                ∙ length-map (hit F vector)
                    (keep (candidate F allowed metadata_filter) (values items))),
        λ j. take-take k j (sorted ⦃o = by_score F⦄ hits),
      )
