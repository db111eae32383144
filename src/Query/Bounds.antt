-- ===== src/Query/Bounds.antt =====
-- Bounds of `expand_neighborhood`, for any backend.
use graphrag_aws_template.Prelude.{
  ℕ, suc, ◌+◌, ◌*◌, ◌≤◌, ◌≡◌, String, true, false, ◌&&◌, ◌||◌, Option, List, arith, string_eq,
  contains, contains-append, length, length-append, length-take-le, Distinct,
}
use graphrag_aws_template.Prelude.Sets.{contains-union, append-Distinct}
use graphrag_aws_template.Prelude.Sorting.{sorted}
use graphrag_aws_template.Visibility.{Clearance}
use graphrag_aws_template.Store.{GraphStore, Allowed, NeighborEdge, neighbors_batch}
use graphrag_aws_template.Query.{
  Expansion, expand_with, expand_hop, expand_rounds, expand_neighborhood, start, allowed_of,
}
use graphrag_aws_template.Query.Rounds.{
  found, reached, reached-Distinct, reached_new, expand_rounds_induction,
}

-- After `n` rounds: the results are new, each once, and no more than the caps allow.
pub record IsBounded (seeds : List String) (cap n : ℕ) (x : Expansion) : Type 0 where
  pub visited_lem :
      (j : String) → contains x.visited j ≡ (contains seeds j || contains x.result_ids j)
  pub new : (j : String) → contains x.result_ids j ≡ true → contains seeds j ≡ false
  pub once : Distinct x.result_ids
  pub results : length x.result_ids ≤ n * cap
  pub hops : length x.trace ≤ n

expand_with-IsBounded :
    (batch : List NeighborEdge) (seeds : List String) (cap n hop : ℕ) (x : Expansion)
    → IsBounded seeds cap n x
    → IsBounded seeds cap (suc n) (expand_with batch cap hop x)
unfolding expand_with
expand_with-IsBounded batch seeds cap n hop x b = record {
  visited_lem = λ j. ground (
    arith,
    contains-union x.visited (reached batch cap x) j,
    contains-append x.result_ids (reached batch cap x) j,
    b.visited_lem j,
  );
  new = λ j h. ground (
    arith,
    contains-append x.result_ids (reached batch cap x) j,
    reached_new batch cap x j,
    b.visited_lem j,
    b.new j,
  );
  once =
      append-Distinct x.result_ids (reached batch cap x) b.once (reached-Distinct batch cap x)
        λ j h. ground (arith, reached_new batch cap x j, b.visited_lem j);
  results = omega (
    arith,
    length-append {0} x.result_ids (reached batch cap x),
    length-take-le {0} cap (sorted (found batch cap x)),
    b.results,
  );
  hops = omega (arith, length-append {0} x.trace _, b.hops);
}

start-IsBounded :
    (seed_ids : List String) (cap : ℕ) → IsBounded (start seed_ids).visited cap 0 (start seed_ids)
unfolding start contains
start-IsBounded seed_ids cap = record {
  visited_lem = λ j. ground arith;
  new = λ j h. cc;
  once = tt;
  results = omega arith;
  hops = omega arith;
}

IsBounded-more :
    (seeds : List String) (cap m n : ℕ) (x : Expansion)
    → m ≤ n
    → IsBounded seeds cap m x
    → IsBounded seeds cap n x
IsBounded-more seeds cap m n x h b = record {
  visited_lem = b.visited_lem;
  new = b.new;
  once = b.once;
  results = grind (arith, b.results);
  hops = omega (arith, b.hops);
}

pub expand_rounds-IsBounded :
    (S : GraphStore) (s : S.State) (seed_ids : List String) (max_hops cap : ℕ) (allowed : Allowed)
    → IsBounded
        (start seed_ids).visited
        cap
        max_hops
        (expand_rounds S s allowed cap max_hops 1 (start seed_ids))
expand_rounds-IsBounded S s seed_ids max_hops cap allowed =
    let seeds = (start seed_ids).visited in
    IsBounded-more seeds cap (0 + max_hops) max_hops _ (omega arith) (
      expand_rounds_induction S s allowed cap (IsBounded seeds cap)
        (λ n hop x h.
          unfold expand_hop in
          expand_with-IsBounded (neighbors_batch S s x.frontier allowed) seeds cap n hop x h)
        (IsBounded-more seeds cap) max_hops 0 1 (start seed_ids) (start-IsBounded seed_ids cap))

-- Whatever the backend holds: `expand_neighborhood` returns no seed and no id twice, at most
-- `max_hops * frontier_cap` ids, and a trace of at most `max_hops` hops.
pub expand_neighborhood-bounds :
    (S : GraphStore) (s : S.State) (seed_ids : List String) (max_hops cap : ℕ)
    (c : Option Clearance)
    → let r = expand_neighborhood S s seed_ids max_hops cap c in
      Distinct r.result_ids
      × ((j : String) → (contains r.seed_ids j && contains r.result_ids j) ≡ false)
      × (length r.result_ids ≤ max_hops * cap)
      × (length r.trace ≤ max_hops)
unfolding expand_neighborhood
expand_neighborhood-bounds S s seed_ids max_hops cap c =
    let b = expand_rounds-IsBounded S s seed_ids max_hops cap (allowed_of c) in
    (b.once, λ j. ground (arith, b.new j), b.results, b.hops)
