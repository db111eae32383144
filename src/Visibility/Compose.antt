-- ===== src/Visibility/Compose.antt =====
-- visibility.py, `compose`: the composed label in terms of ranks and of clearances.
use graphrag_aws_template.Prelude.{
  ℕ, max, tests, All, All_at, all_at, all_of, ◌≤◌, ◌≡◌, refl, ltb, String, true, none, List, [],
  ◌∷◌, arith, ◌==◌, string_eq, contains, all, Bool-ext, Bool-cases, inl, inr, ◌⊎◌,
}
use graphrag_aws_template.Prelude.Dicts.{get}
use graphrag_aws_template.Visibility.{
  Visibility, public, value, rank, ranks, get_or, compose_from, compose, Clearance, allows,
}

-- The label is one of the three tiers.
abbrev pub IsTier : String → Type 0
IsTier label = (v : Visibility) × (label ≡ value v)

-- A clearance that allows a tier allows every tier of no higher rank, as those of the personas do.
abbrev pub IsDownwardClosed : Clearance → Type 0
IsDownwardClosed c =
    (v w : Visibility)
    → rank (value v) ≤ rank (value w)
    → allows c (value w) ≡ true
    → allows c (value v) ≡ true

-- The highest rank among the labels.
abbrev pub max_rank : List String → ℕ
max_rank [] = 0
max_rank (label ∷ labels) = max (rank label) (max_rank labels)

rank-compose_from :
    (best : String) (labels : List String)
    → rank (compose_from best labels) ≡ max (rank best) (max_rank labels)
unfolding compose_from
rank-compose_from best [] = omega arith
rank-compose_from best (label ∷ labels) = elim (Bool-cases (ltb (rank best) (rank label))) [
  | inl h ↦ rw h (omega (tests, rank-compose_from label labels))
  | inr h ↦ rw h (omega (tests, rank-compose_from best labels))
]

rank-public : rank (value public) ≡ 0
unfolding rank value
rank-public = refl

-- The rank of a composed label is the highest rank of its inputs.
pub rank-compose : (labels : List String) → rank (compose labels) ≡ max_rank labels
unfolding compose
rank-compose labels = omega (arith, rank-compose_from (value public) labels, rank-public)

compose_from-mem :
    (best : String) (labels : List String)
    → (compose_from best labels ≡ best) ⊎ (contains labels (compose_from best labels) ≡ true)
unfolding compose_from contains
compose_from-mem best [] = inl refl
compose_from-mem best (label ∷ labels) = elim (Bool-cases (ltb (rank best) (rank label))) [
  | inl h ↦ rw h (
      ground
        (arith, compose_from-mem label labels, string_eq.beq_iff label (compose_from label labels)))
  | inr h ↦ rw h (ground (arith, compose_from-mem best labels))
]

-- A composed label is one of its inputs, or the public tier.
pub compose-mem :
    (labels : List String)
    → (compose labels ≡ value public) ⊎ (contains labels (compose labels) ≡ true)
unfolding compose
compose-mem labels = compose_from-mem (value public) labels

compose-IsTier : (labels : List String) → All IsTier labels → IsTier (compose labels)
compose-IsTier labels h = elim (compose-mem labels) [
  | inl e ↦ (public, e)
  | inr m ↦ All_at IsTier labels (compose labels) h m
]

rank-le-max_rank :
    (labels : List String) (label : String)
    → contains labels label ≡ true
    → rank label ≤ max_rank labels
unfolding contains
rank-le-max_rank [] label h = cc
rank-le-max_rank (l ∷ labels) label h = elim (Bool-cases (l == label)) [
  | inl same ↦ rw (← (string_eq.beq_iff l label).0 same) (omega arith)
  | inr other ↦ omega (arith, rank-le-max_rank labels label (ground arith))
]

module _ (c : Clearance) (closed : IsDownwardClosed c) where
  allows_lower :
      (l m : String) → IsTier l → IsTier m → rank l ≤ rank m → allows c m ≡ true → allows c l ≡ true
  allows_lower l m (v, p) (w, q) h k = rw p (closed v w (rw (← p, ← q) h) (rw q at k))

  -- For a clearance that is closed downwards and allows the public tier, and labels that are tiers,
  -- the composed label is allowed exactly when every input is.
  pub allows-compose :
      (labels : List String)
      → All IsTier labels
      → allows c (value public) ≡ true
      → allows c (compose labels) ≡ all (allows c) labels
  allows-compose labels tiers open_public =
      Bool-ext (allows c (compose labels)) (all (allows c) labels)
        (λ k. all_of (allows c) labels λ l m.
          allows_lower l (compose labels) (All_at IsTier labels l tiers m)
            (compose-IsTier labels tiers) (rw rank-compose (rank-le-max_rank labels l m)) k)
        λ k. elim (compose-mem labels) [
          | inl e ↦ rw e open_public
          | inr m ↦ all_at (allows c) labels (compose labels) k m
        ]

-- A label that is not a tier disappears from the composition with the public tier: the result is
-- the public tier, whether or not the label is allowed.
pub compose-unranked :
    (label : String) → get ranks label ≡ none → compose (label ∷ value public ∷ []) ≡ value public
unfolding compose rank
compose-unranked label h = rw (h, get_or) refl
