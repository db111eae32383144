-- ===== src/Delta/Groups.antt =====
-- The documents grouped by hash, and the moves that are paired from two groupings.
use graphrag_aws_template.Prelude.{
  ◌≡◌, String, Bool, true, ◌&&◌, ◌||◌, List, [], ◌∷◌, ◌++◌, arith, ◌==◌, string_eq, pair_eq,
  contains, contains-append, Bool-cases, inl, inr, All,
}
use graphrag_aws_template.Prelude.Dicts.{Dict, get, put, get-put}
use graphrag_aws_template.Prelude.Sorting.{sorted, contains-sorted, text_order}
use graphrag_aws_template.Delta.{Manifest, hash_at, listed_at, group_onto, zip_short, pair_moves}

contains-listed_at-put :
    (d : Dict String (List String)) (h k p q : String)
    → contains (listed_at (put d h (listed_at d h ++ q ∷ [])) k) p
      ≡ (contains (listed_at d k) p || ((h == k) && (q == p)))
unfolding contains
contains-listed_at-put d h k p q = ground (
  arith,
  get-put d h k (listed_at d h ++ q ∷ []),
  contains-append (listed_at d h) (q ∷ []) p,
  string_eq.beq_iff h k,
)

-- A document is under a hash exactly when it is listed with that hash.
pub contains-group_onto :
    (m : Manifest) (paths : List String) (d : Dict String (List String)) (h p : String)
    → contains (listed_at (group_onto m d paths) h) p
      ≡ (contains (listed_at d h) p || (contains paths p && (hash_at m p == h)))
unfolding group_onto contains
contains-group_onto m [] d h p = ground arith
contains-group_onto m (q ∷ paths) d h p = ground (
  arith,
  contains-group_onto m paths (put d (hash_at m q) (listed_at d (hash_at m q) ++ q ∷ [])) h p,
  contains-listed_at-put d (hash_at m q) h p q,
  string_eq.beq_iff q p,
)

pub contains-group :
    (m : Manifest) (paths : List String) (h p : String)
    → contains (listed_at (group_onto m [] paths) h) p ≡ (contains paths p && (hash_at m p == h))
unfolding contains get
contains-group m paths h p = contains-group_onto m paths [] h p

-- Every entry of a grouping lists documents that pass the test, under their hash.
abbrev pub Grouped : Manifest → (String → Bool) → Dict String (List String) → Type 0
Grouped m ok d =
    All
      (λ entry. (p : String) → contains entry.1 p ≡ true → (ok p ≡ true) × (hash_at m p ≡ entry.0))
      d

module _ (m : Manifest) (ok : String → Bool) where
  put-Grouped :
      (d : Dict String (List String)) (h : String) (paths : List String)
      → ((p : String) → contains paths p ≡ true → (ok p ≡ true) × (hash_at m p ≡ h))
      → Grouped m ok d
      → Grouped m ok (put d h paths)
  unfolding put
  put-Grouped [] h paths new g = (new, tt)
  put-Grouped ((j, old) ∷ d) h paths new g = elim (Bool-cases (j == h)) [
    | inl same ↦ rw same (λ p c. ground (arith, new p c, string_eq.beq_iff j h), g.1)
    | inr other ↦ rw other (g.0, put-Grouped d h paths new g.1)
  ]

  get-Grouped :
      (d : Dict String (List String)) (h p : String)
      → Grouped m ok d
      → contains (listed_at d h) p ≡ true
      → (ok p ≡ true) × (hash_at m p ≡ h)
  unfolding get contains
  get-Grouped [] h p g c = cc
  get-Grouped ((j, paths) ∷ d) h p g c = elim (Bool-cases (j == h)) [
    | inl same ↦ ground (arith, g.0 p, string_eq.beq_iff j h)
    | inr other ↦ get-Grouped d h p g.1 (ground arith)
  ]

  pub group_onto-Grouped :
      (paths : List String) (d : Dict String (List String))
      → ((p : String) → contains paths p ≡ true → ok p ≡ true)
      → Grouped m ok d
      → Grouped m ok (group_onto m d paths)
  unfolding group_onto contains
  group_onto-Grouped [] d listed g = g
  group_onto-Grouped (q ∷ paths) d listed g =
      let h = hash_at m q in
      group_onto-Grouped paths (put d h (listed_at d h ++ q ∷ [])) (λ p c. listed p (ground arith))
        (put-Grouped d h (listed_at d h ++ q ∷ [])
          (λ p c. ground (
            arith,
            contains-append (listed_at d h) (q ∷ []) p,
            get-Grouped d h p g,
            listed q,
            string_eq.beq_iff q q,
            string_eq.beq_iff q p,
          ))
          g)

  zip_short-contains :
      (xs ys : List String) (o n : String)
      → contains (zip_short xs ys) (o, n) ≡ true
      → (contains xs o ≡ true) × (contains ys n ≡ true)
  unfolding zip_short contains
  zip_short-contains [] ys o n h = cc
  zip_short-contains (x ∷ xs) [] o n h = cc
  zip_short-contains (x ∷ xs) (y ∷ ys) o n h = ground (arith, zip_short-contains xs ys o n)

  -- The origin of a move passes the test, and its target is listed under the origin's hash.
  pub pair_moves-contains :
      (dg ag : Dict String (List String)) (o n : String)
      → Grouped m ok dg
      → contains (pair_moves dg ag) (o, n) ≡ true
      → (ok o ≡ true) × (contains (listed_at ag (hash_at m o)) n ≡ true)
  unfolding pair_moves contains
  pair_moves-contains [] ag o n g c = cc
  pair_moves-contains ((h, paths) ∷ dg) ag o n g c = ground (
    arith,
    contains-append (zip_short (sorted paths) (sorted (listed_at ag h))) (pair_moves dg ag) (o, n),
    zip_short-contains (sorted paths) (sorted (listed_at ag h)) o n,
    contains-sorted paths o,
    contains-sorted (listed_at ag h) n,
    g.0 o,
    pair_moves-contains dg ag o n g.1,
  )
