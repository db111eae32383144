-- ===== src/Query/Reach.antt =====
-- query.py, `expand_neighborhood`: its result in terms of walks along admitted links.
use graphrag_aws_template.Prelude.{
  ℕ, ◌≡◌, refl, String, true, false, not, ◌||◌, Option, some, List, arith, string_eq, contains, all,
  Option-cases, any_witness, inl, inr, ◌↔◌,
}
use graphrag_aws_template.Visibility.{Clearance}
use graphrag_aws_template.Model.{Node, Edge}
use graphrag_aws_template.Store.{GraphStore, IsLawful, Allowed, admits, vis, in_clearance}
use graphrag_aws_template.Query.{expand_neighborhood, start, allowed_of, NeighborhoodResult}
use graphrag_aws_template.Query.Links.{linked}
use graphrag_aws_template.Query.Bounds.{expand_rounds-IsBounded}
use graphrag_aws_template.Query.Walks.{Walk, seed, step, Within, expand_rounds-IsSound}
use graphrag_aws_template.Query.Complete.{expand_rounds_complete, start-IsComplete}

-- The node is there, and its label is within the clearance.
abbrev pub IsCleared : (S : GraphStore) → S.State → Allowed → String → Type 0
IsCleared S s allowed j =
    (n : Node) × (S.get_node s j ≡ some n) × (in_clearance allowed (vis n.props) ≡ true)

admits-IsCleared :
    (S : GraphStore) (s : S.State) (allowed : Allowed) (j : String) (e : Edge)
    → admits (S.get_node s j) e allowed ≡ true
    → IsCleared S s allowed j
unfolding admits
admits-IsCleared S s allowed j e h = elim (Option-cases (S.get_node s j)) [
  | inl absent ↦ ground arith
  | inr (n, there) ↦ (n, there, ground arith)
]

-- A walk ends at a seed, or at a node that is there and within the clearance.
Walk-IsCleared :
    (S : GraphStore) (s : S.State) (allowed : Allowed) (seeds : List String) (m : ℕ) (j : String)
    → Walk (linked S s allowed) seeds m j
    → contains seeds j ≡ false
    → IsCleared S s allowed j
Walk-IsCleared S s allowed seeds m j (seed h) new = cc
Walk-IsCleared S s allowed seeds m j (step w l) new =
    let (e, h) = any_witness _ (S.all_edges s) l in admits-IsCleared S s allowed j e (ground arith)

module _ (S : GraphStore) (L : IsLawful S) (s : S.State) (valid : L.IsValid s)
    (seed_ids : List String) (max_hops cap : ℕ) (c : Option Clearance) where
  abbrev found_by : NeighborhoodResult
  found_by = expand_neighborhood S s seed_ids max_hops cap c

  -- Over a lawful store in a valid state, every id that `expand_neighborhood` returns ends a walk of at most `max_hops` links from a seed,
  -- each over an edge and to a node within the clearance.
  pub expand_neighborhood_sound :
      (j : String)
      → contains found_by.result_ids j ≡ true
      → Within (linked S s (allowed_of c)) found_by.seed_ids max_hops j
        × IsCleared S s (allowed_of c) j
  unfolding expand_neighborhood
  expand_neighborhood_sound j h =
      let b = expand_rounds-IsBounded S s seed_ids max_hops cap (allowed_of c) in
      let sound =
        expand_rounds-IsSound S L s valid (allowed_of c) (start seed_ids).visited cap seed_ids
          max_hops refl in
      let (m, le, w) = sound.within j (ground (arith, b.visited_lem j)) in
      ((m, le, w), Walk-IsCleared S s (allowed_of c) _ m j w (b.new j h))

  -- Over a lawful store in a valid state, if no hop was truncated, the seeds and the returned ids are exactly the nodes that a walk of at
  -- most `max_hops` admitted links reaches from a seed.
  pub expand_neighborhood-exact :
      (j : String)
      → all (λ t. not t.truncated) found_by.trace ≡ true
      → ((contains found_by.seed_ids j || contains found_by.result_ids j) ≡ true)
        ↔ Within (linked S s (allowed_of c)) found_by.seed_ids max_hops j
  unfolding expand_neighborhood
  expand_neighborhood-exact j full = (
    λ h.
        let b = expand_rounds-IsBounded S s seed_ids max_hops cap (allowed_of c) in
        let sound =
          expand_rounds-IsSound S L s valid (allowed_of c) (start seed_ids).visited cap seed_ids
            max_hops refl in
        sound.within j (ground (arith, b.visited_lem j)),
    λ within.
        let b = expand_rounds-IsBounded S s seed_ids max_hops cap (allowed_of c) in
        let seen =
          expand_rounds_complete S L s valid (allowed_of c) (start seed_ids).visited cap max_hops 0
            1 (start seed_ids) full
            (start-IsComplete S L s valid (allowed_of c) (start seed_ids).visited cap seed_ids refl)
            within.0 j (omega arith) within.2 in
        ground (arith, b.visited_lem j),
  )
