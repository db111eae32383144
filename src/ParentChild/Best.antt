-- ===== src/ParentChild/Best.antt =====
-- parentchild_memory.py, `search`: which parents are hits, and with which child.
use graphrag_aws_template.Prelude.{
  ℕ, ◌≡◌, refl, sym, subst, ap, true, Option, Option-cases, none, some, List, [], ◌∷◌, ◌++◌, arith,
  Bool-cases, inl, inr, ◌⊎◌, All, All-keep, All-take, string_eq,
}
use graphrag_aws_template.Prelude.Dicts.{values}
use graphrag_aws_template.Store.{Allowed, in_clearance}
use graphrag_aws_template.Store.Memory.{collect}
use graphrag_aws_template.VectorStore.{Floats, Vector, cosine}
use graphrag_aws_template.VectorStore.Search.{All-sorted}
use graphrag_aws_template.ParentChild.{
  ChildVector, ParentDoc, ParentHit, BestChild, Parents, best_of, hit_of, by_best_score, parent_hit,
  search,
}

All-collect {ℓ κ μ ν} :
    {A : Type ℓ} {B : Type κ} (P : A → Type μ) (Q : B → Type ν) (f : A → Option B)
    → ((a : A) (b : B) → P a → f a ≡ some b → Q b)
    → (xs : List A) → All P xs
    → All Q (collect f xs)
unfolding collect
All-collect P Q f step [] h = tt
All-collect P Q f step (x ∷ xs) (p, h) = elim (Option-cases (f x)) [
  | inl q ↦
      let skipped : collect f (x ∷ xs) ≡ collect f xs = rw (q, collect) refl in
      subst (All Q) (sym skipped) (All-collect P Q f step xs h)
  | inr (b, q) ↦
      let kept : collect f (x ∷ xs) ≡ b ∷ collect f xs = rw (q, collect) refl in
      subst (All Q) (sym kept) (step x b p q, All-collect P Q f step xs h)
]

module _ (F : Floats) (vector : Vector F) where
  open F use {Float, order}

  abbrev score_of : ChildVector F → Float
  score_of child = cosine F vector child.vector

  -- the child is one of the children, with that score
  abbrev IsFoundIn : List (ChildVector F) → BestChild F → Type 0
  IsFoundIn children found =
      (child : ChildVector F) × ((before : List (ChildVector F)) × (after : List (ChildVector F))
        × (children ≡ before ++ child ∷ after))
      × (found.best_child ≡ some child)
      × (found.best_score ≡ score_of child)

  later :
      (c : ChildVector F) (children : List (ChildVector F)) (found : BestChild F)
      → IsFoundIn children found
      → IsFoundIn (c ∷ children) found
  later c children found (child, (before, after, p), q, r) =
      (child, (c ∷ before, after, ap (◌∷◌ c) p), q, r)

  le_same : (x : Float) → order.le x x ≡ true
  le_same x = elim (Bool-cases (order.le x x)) [ inl le ↦ le | inr over ↦ order.total x x over ]

  unchanged :
      (c : ChildVector F) (children : List (ChildVector F)) (best found : BestChild F)
      → (found ≡ best) ⊎ IsFoundIn children found
      → (found ≡ best) ⊎ IsFoundIn (c ∷ children) found
  unchanged c children best found (inl same) = inl same
  unchanged c children best found (inr there) = inr (later c children found there)

  taken :
      (c : ChildVector F) (children : List (ChildVector F)) (found : BestChild F)
      → (found ≡ record { best_child = some c; best_score = score_of c }) ⊎ IsFoundIn children found
      → IsFoundIn (c ∷ children) found
  taken c children found (inl same) =
      (c, ([], children, refl), ap (λ b. b.best_child) same, ap (λ b. b.best_score) same)
  taken c children found (inr there) = later c children found there

  -- what the loop over the children has found, from `best`
  abbrev IsBest : BestChild F → List (ChildVector F) → BestChild F → Type 0
  IsBest best children found =
      (order.le best.best_score found.best_score ≡ true)
      × All (λ c. order.le (score_of c) found.best_score ≡ true) children
      × ((found ≡ best) ⊎ IsFoundIn children found)

  best_of-IsBest :
      (best : BestChild F) (children : List (ChildVector F))
      → IsBest best children (best_of F vector best children)
  unfolding best_of
  best_of-IsBest best [] = (le_same best.best_score, tt, inl refl)
  best_of-IsBest best (c ∷ children) = elim (Bool-cases (order.le (score_of c) best.best_score)) [
    | inl lower ↦
        let (up, all_lower, from) = best_of-IsBest best children in
        let step : best_of F vector best (c ∷ children) ≡ best_of F vector best children =
          rw lower refl in
        let le = order.trans (score_of c) best.best_score _ lower up in
        subst (IsBest best (c ∷ children)) (sym step)
          (up, (le, all_lower), unchanged c children best _ from)
    | inr higher ↦
        let new : BestChild F = record { best_child = some c; best_score = score_of c } in
        let (up, all_lower, from) = best_of-IsBest new children in
        let step : best_of F vector best (c ∷ children) ≡ best_of F vector new children =
          rw higher refl in
        let le = order.total (score_of c) best.best_score higher in
        subst (IsBest best (c ∷ children)) (sym step) (
          order.trans best.best_score (score_of c) _ le up,
          (up, all_lower),
          inr (taken c children _ from),
        )
  ]

  -- The parent is within the clearance, the matched child is one of its children and has the score,
  -- and no child of the parent has a higher one.
  abbrev pub IsBestHit : Allowed → ParentHit F → Type 0
  IsBestHit allowed h =
      (in_clearance allowed h.parent.visibility ≡ true)
      × All (λ c. order.le (score_of c) h.score ≡ true) h.parent.children
      × IsFoundIn h.parent.children (record { best_child = h.matched_child; best_score = h.score })

  hit_of-IsBestHit :
      (allowed : Allowed) (parent : ParentDoc F) (low : Float) (found : BestChild F)
      (h : ParentHit F)
      → in_clearance allowed parent.visibility ≡ true
      → IsBest (record { best_child = none; best_score = low }) parent.children found
      → hit_of F parent found ≡ some h
      → IsBestHit allowed h
  unfolding hit_of
  hit_of-IsBestHit allowed parent low found h open_to (up, all_lower, inl same) p =
      absurd (ground (arith, ap (λ (b : BestChild F). b.best_child) same))
  hit_of-IsBestHit allowed parent low found h open_to (up, all_lower, inr (child, there, q, r)) p =
      let same : record { parent = parent; score = found.best_score; matched_child = some child }
          ≡ h =
        ground (arith, q) in
      subst (IsBestHit allowed) same (open_to, all_lower, (child, there, refl, r))

  -- Every hit is a parent within the clearance that matched by one of its children, with the score of
  -- that child, than which no child of the parent has a higher one.
  pub search-IsBestHit :
      (minus_infinity : Float) (items : Parents F) (k : ℕ) (allowed : Allowed)
      → All (IsBestHit allowed) (search F minus_infinity items vector k allowed)
  unfolding search parent_hit
  search-IsBestHit minus_infinity items k allowed = All-take (IsBestHit allowed) k _ (
      All-sorted ⦃o = by_best_score F⦄ (IsBestHit allowed) _ (
        All-collect (λ parent. in_clearance allowed parent.visibility ≡ true) (IsBestHit allowed)
          (parent_hit F minus_infinity vector)
          (λ parent h open_to p.
            hit_of-IsBestHit allowed parent minus_infinity _ h open_to
              (best_of-IsBest (record { best_child = none; best_score = minus_infinity })
                parent.children)
              p)
          _
          (All-keep _ (λ parent. in_clearance allowed parent.visibility) (values items)
            (λ parent h. h))))
