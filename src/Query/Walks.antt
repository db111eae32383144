-- ===== src/Query/Walks.antt =====
-- query.py, the loop of `expand_neighborhood`: walks along admitted links, and the visited nodes.
use graphrag_aws_template.Prelude.{
  ℕ, zero, suc, ◌+◌, ◌≤◌, ◌≡◌, String, Bool, true, List, arith, string_eq, contains, any, any_at,
  Bool-cases, inl, inr,
}
use graphrag_aws_template.Prelude.Sets.{contains-union}
use graphrag_aws_template.Store.{GraphStore, IsLawful, Allowed, NeighborEdge, neighbors_batch}
use graphrag_aws_template.Query.{Expansion, expand_hop, expand_rounds, start}
use graphrag_aws_template.Query.Links.{linked, contains-batch}
use graphrag_aws_template.Query.Rounds.{
  contains-newly, reached, found_of_reached, expand_rounds_induction,
}

-- A walk of `n` admitted links from a seed to `j`.
pub data Walk (link : String → String → Bool) (seeds : List String) : ℕ → String → Type 0 where
  seed : {j : String} → contains seeds j ≡ true → Walk link seeds zero j
  step : {n : ℕ} {i j : String} → Walk link seeds n i → link i j ≡ true → Walk link seeds (suc n) j

abbrev pub Within : (String → String → Bool) → List String → ℕ → String → Type 0
Within link seeds n j = (m : ℕ) × (m ≤ n) × Walk link seeds m j

module _ (S : GraphStore) (L : IsLawful S) (s : S.State) (valid : L.IsValid s) (allowed : Allowed)
    (seeds : List String) (cap : ℕ) where
  abbrev link : String → String → Bool
  link = linked S s allowed

  -- What was visited lies within the rounds, and the frontier was visited.
  pub record IsSound (n : ℕ) (x : Expansion) : Type 0 where
    pub within : (j : String) → contains x.visited j ≡ true → Within link seeds n j
    pub frontier_visited : (j : String) → contains x.frontier j ≡ true → contains x.visited j ≡ true

  abbrev batch : Expansion → List NeighborEdge
  batch x = neighbors_batch S s x.frontier allowed

  -- A node that a round reaches is linked to the frontier.
  reached_linked :
      (x : Expansion) (j : String)
      → contains (reached (batch x) cap x) j ≡ true
      → any (λ i. link i j) x.frontier ≡ true
  reached_linked x j h = ground (
    arith,
    found_of_reached (batch x) cap x j h,
    contains-newly (batch x) x.visited j,
    contains-batch S L s valid allowed x.frontier j,
  )

  expand_hop-IsSound :
      (n hop : ℕ) (x : Expansion) → IsSound n x → IsSound (suc n) (expand_hop S s allowed cap hop x)
  unfolding expand_hop
  expand_hop-IsSound n hop x h = record {
    within = λ j v. elim (Bool-cases (contains x.visited j)) [
      | inl old ↦ let (m, le, walk) = h.within j old in (m, omega arith, walk)
      | inr new ↦
          let (i, f, l) =
            any_at (λ i. link i j) x.frontier
              (reached_linked x j
                (ground (arith, contains-union x.visited (reached (batch x) cap x) j))) in
          let (m, le, walk) = h.within i (h.frontier_visited i f) in
          (suc m, omega arith, step walk l)
    ];
    frontier_visited = λ j f. ground (arith, contains-union x.visited (reached (batch x) cap x) j);
  }

  start-IsSound :
      (seed_ids : List String) → seeds ≡ (start seed_ids).visited → IsSound 0 (start seed_ids)
  unfolding start
  start-IsSound seed_ids e = record {
    within = λ j v. (0, omega arith, seed (rw e v));
    frontier_visited = λ j f. f;
  }

  IsSound-more : (m n : ℕ) (x : Expansion) → m ≤ n → IsSound m x → IsSound n x
  IsSound-more m n x le h = record {
    within = λ j v. let (k, lk, w) = h.within j v in (k, omega arith, w);
    frontier_visited = h.frontier_visited;
  }

  pub expand_rounds-IsSound :
      (seed_ids : List String) (max_hops : ℕ)
      → seeds ≡ (start seed_ids).visited
      → IsSound max_hops (expand_rounds S s allowed cap max_hops 1 (start seed_ids))
  expand_rounds-IsSound seed_ids max_hops e = IsSound-more (0 + max_hops) max_hops _ (omega arith) (
      expand_rounds_induction S s allowed cap IsSound expand_hop-IsSound IsSound-more max_hops 0 1
        (start seed_ids) (start-IsSound seed_ids e))
