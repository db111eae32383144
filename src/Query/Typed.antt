-- ===== src/Query/Typed.antt =====
-- query.py, `traverse`: its result in terms of paths that follow the steps.
use graphrag_aws_template.Prelude.{
  ℕ, ◌+◌, ◌≡◌, ◌↔◌, refl, ◌∙◌, String, Bool, true, false, not, ◌&&◌, Option, List, [], ◌∷◌, map,
  arith, string_eq, contains, contains-map, contains-take, any, any-ext, any_at, any_of, all,
  length, ltb, ltb→le, ◌≤◌, Bool-cases, inl, inr,
}
use graphrag_aws_template.Prelude.Sets.{contains-dedupe}
use graphrag_aws_template.Visibility.{Clearance}
use graphrag_aws_template.Store.{GraphStore, IsLawful, Allowed, leads, admits, gather}
use graphrag_aws_template.Query.{
  Step, TraceEntry, TraversalResult, ok, allowed_of, reached_along, trace_hop, follow, traverse,
}
use graphrag_aws_template.Query.Links.{contains-gather}

-- An admitted edge of the step's kind, in its direction.
abbrev pub step_linked : (S : GraphStore) → S.State → Allowed → Step → String → String → Bool
step_linked S s allowed (kind, d) i j =
    any (λ e. leads e i kind d j && admits (S.get_node s j) e allowed) (S.all_edges s)

-- A path from `i` to `j` that follows the steps.
abbrev pub Follows : (Step → String → String → Bool) → List Step → String → String → Type 0
Follows link [] i j = i ≡ j
Follows link (step ∷ steps) i j = (k : String) × (link step i k ≡ true) × Follows link steps k j

module _ (S : GraphStore) (L : IsLawful S) (s : S.State) (valid : L.IsValid s)
    (allowed : Allowed) where
  contains-reached_along :
      (frontier : List String) (step : Step) (j : String)
      → contains (reached_along S s allowed frontier step) j
        ≡ any (λ i. step_linked S s allowed step i j) frontier
  unfolding reached_along
  contains-reached_along frontier (kind, d) j =
      contains-dedupe (gather (λ i. map (λ n. n.id) (S.neighbors s i kind d allowed)) frontier) j
      ∙ contains-gather (λ i. map (λ n. n.id) (S.neighbors s i kind d allowed)) frontier j
      ∙ any-ext _ (λ i. step_linked S s allowed (kind, d) i j) frontier
          (λ i.
            contains-map (λ n. n.id) (S.neighbors s i kind d allowed) j
            ∙ L.neighbors_lem s i kind d allowed j valid)

  abbrev link : Step → String → String → Bool
  link = step_linked S s allowed

  module _ (cap hop : ℕ) (frontier : List String) (step : Step) where
    abbrev entry : TraceEntry
    entry = trace_hop S s allowed cap hop frontier step

    entry_linked :
        (j : String) → contains entry.to_ids j ≡ true → any (λ i. link step i j) frontier ≡ true
    unfolding trace_hop
    entry_linked j h = ground (
      arith,
      contains-take cap (reached_along S s allowed frontier step) j,
      contains-reached_along frontier step j,
    )

    linked_entry :
        (j : String)
        → entry.truncated ≡ false
        → any (λ i. link step i j) frontier ≡ true
        → contains entry.to_ids j ≡ true
    unfolding trace_hop
    linked_entry j full h = ground (arith, contains-reached_along frontier step j)

  abbrev pub From : List String → List Step → String → Type 0
  From frontier steps j = (i : String) × (contains frontier i ≡ true) × Follows link steps i j

  follow_sound :
      (cap hop : ℕ) (frontier : List String) (steps : List Step) (j : String)
      → contains (follow S s allowed cap hop frontier steps).1 j ≡ true
      → From frontier steps j
  unfolding follow
  follow_sound cap hop frontier [] j h = (j, h, refl)
  follow_sound cap hop frontier (step ∷ steps) j h =
      let next = (trace_hop S s allowed cap hop frontier step).to_ids in
      let (k, c, path) = follow_sound cap (hop + 1) next steps j h in
      let (i, f, l) =
        any_at (λ i. link step i k) frontier (entry_linked cap hop frontier step k c) in
      (i, f, (k, l, path))

  abbrev complete : List TraceEntry → Bool
  complete trace = all (λ t. not t.truncated) trace

  follow-complete :
      (cap hop : ℕ) (frontier : List String) (steps : List Step) (i j : String)
      → complete (follow S s allowed cap hop frontier steps).0 ≡ true
      → contains frontier i ≡ true
      → Follows link steps i j
      → contains (follow S s allowed cap hop frontier steps).1 j ≡ true
  unfolding follow all
  follow-complete cap hop frontier [] i j full f path = rw (← path) f
  follow-complete cap hop frontier (step ∷ steps) i j full f (k, l, path) =
      let next = (trace_hop S s allowed cap hop frontier step).to_ids in
      follow-complete cap (hop + 1) next steps k j (ground arith)
        (linked_entry cap hop frontier step k (ground arith)
          (any_of (λ i. link step i k) frontier i f l))
        path

-- What a traversal that returns has run.
ok_follow :
    (S : GraphStore) (s : S.State) (seed_ids : List String) (steps : List Step) (max_hops cap : ℕ)
    (c : Option Clearance) (r : TraversalResult)
    → traverse S s seed_ids steps max_hops cap c ≡ ok r
    → (length steps ≤ max_hops)
      × (r.trace ≡ (follow S s (allowed_of c) cap 1 r.seed_ids steps).0)
      × (r.result_ids ≡ (follow S s (allowed_of c) cap 1 r.seed_ids steps).1)
unfolding traverse
ok_follow S s seed_ids steps max_hops cap c r done =
    elim (Bool-cases (ltb max_hops (length steps))) [
      | inl over ↦ let never = rw over at done in cc
      | inr fits ↦ let returned = rw fits at done in (ltb→le max_hops (length steps) fits, cc, cc)
    ]

module _ (S : GraphStore) (L : IsLawful S) (s : S.State) (valid : L.IsValid s)
    (seed_ids : List String) (steps : List Step) (max_hops cap : ℕ) (c : Option Clearance)
    (r : TraversalResult) (j : String) where
  -- Over a lawful store in a valid state, a result of a traversal that returns ends a path from a seed that follows the steps over admitted
  -- edges, and there are at most `max_hops` steps.
  pub traverse_sound :
      traverse S s seed_ids steps max_hops cap c ≡ ok r
      → contains r.result_ids j ≡ true
      → (length steps ≤ max_hops) × From S L s valid (allowed_of c) r.seed_ids steps j
  traverse_sound done h =
      let (fits, _, last) = ok_follow S s seed_ids steps max_hops cap c r done in
      (fits, follow_sound S L s valid (allowed_of c) cap 1 r.seed_ids steps j (rw last at h))

  -- Over a lawful store in a valid state, if no hop of a traversal that returns was truncated, its results are exactly the ends of the paths
  -- from its seeds that follow the steps over admitted edges.
  pub traverse-exact :
      traverse S s seed_ids steps max_hops cap c ≡ ok r
      → all (λ t. not t.truncated) r.trace ≡ true
      → (contains r.result_ids j ≡ true) ↔ From S L s valid (allowed_of c) r.seed_ids steps j
  traverse-exact done full =
      let (_, trace, last) = ok_follow S s seed_ids steps max_hops cap c r done in
      (
        λ h. (traverse_sound done h).1,
        λ (i, f, path). rw last (
            follow-complete S L s valid (allowed_of c) cap 1 r.seed_ids steps i j (rw trace at full)
              f path),
      )
