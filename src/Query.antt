-- ===== src/Query.antt =====
-- packages/graphrag/src/graphrag/query.py: `traverse` and `expand_neighborhood` over any backend,
-- with their traces. A loop's variables are a record, and a round is a function on it.
pub mod Links
mod Rounds
pub mod Bounds
pub mod Walks
mod Complete
pub mod Reach
pub mod Typed
use graphrag_aws_template.Prelude.{
  ℕ, zero, suc, ◌+◌, ltb, String, Bool, true, false, not, Option, none, some, List, [], ◌∷◌, ◌++◌,
  map, length, take, keep, contains, is_empty, ◌==◌, string_eq, if◌then◌else◌,
}
use graphrag_aws_template.Prelude.Sets.{dedupe, union}
use graphrag_aws_template.Prelude.Sorting.{
  Order, sorted, text_order, text_le, text_le_total, text_le_trans,
}
use graphrag_aws_template.Visibility.{Clearance}
use graphrag_aws_template.Model.{
  Node, EdgeKind, edge_eq, edge_value, edge_kinds, Direction, extraction_method_for_kind,
}
use graphrag_aws_template.Store.{GraphStore, Allowed, NeighborEdge, neighbors_batch, gather}

abbrev pub default_max_hops : ℕ
default_max_hops = 2

abbrev pub default_frontier_cap : ℕ
default_frontier_cap = 50

abbrev pub Step : Type 0
Step = EdgeKind × Direction

pub record TraceEntry : Type 0 where
  pub hop : ℕ
  pub edge_kind : EdgeKind
  pub direction : Direction
  pub from_ids : List String
  pub to_ids : List String
  pub truncated : Bool

-- the property `TraceEntry.extraction_method`
unfoldable pub extraction_method : TraceEntry → String
unfolding extraction_method_for_kind
extraction_method entry = extraction_method_for_kind entry.edge_kind

pub record TraversalResult : Type 0 where
  pub seed_ids : List String
  pub trace : List TraceEntry
  pub result_ids : List String

-- The result, or the `ValueError` of more hops than are allowed.
pub data Traversed : Type 0 where
  ok : TraversalResult → Traversed
  too_many_hops : ℕ → ℕ → Traversed

-- clearance.allowed if clearance is not None else None
unfoldable pub allowed_of : Option Clearance → Allowed
allowed_of none = none
allowed_of (some c) = some c.allowed

module _ (S : GraphStore) where
  -- the ids that a typed hop reaches, before the cap
  unfoldable pub reached_along : S.State → Allowed → List String → Step → List String
  unfolding gather dedupe
  reached_along s allowed frontier (edge_kind, direction) = dedupe (
      gather (λ node_id. map (λ n. n.id) (S.neighbors s node_id edge_kind direction allowed))
        frontier)

  -- one round of the loop of `traverse`
  unfoldable pub trace_hop : S.State → Allowed → ℕ → ℕ → List String → Step → TraceEntry
  unfolding reached_along take
  trace_hop s allowed frontier_cap hop frontier step =
      let reached = reached_along s allowed frontier step in
      let truncated = ltb frontier_cap (length reached) in
      record {
        hop = hop;
        edge_kind = step.0;
        direction = step.1;
        from_ids = frontier;
        to_ids = if truncated then take frontier_cap reached else reached;
        truncated = truncated;
      }

  -- the loop: the trace from this hop on, and the last frontier
  unfoldable pub follow :
      S.State → Allowed → ℕ → ℕ → List String → List Step → List TraceEntry × List String
  unfolding trace_hop
  follow s allowed frontier_cap hop frontier [] = ([], frontier)
  follow s allowed frontier_cap hop frontier (step ∷ steps) =
      let entry = trace_hop s allowed frontier_cap hop frontier step in
      let (rest, last) = follow s allowed frontier_cap (hop + 1) entry.to_ids steps in
      (entry ∷ rest, last)

  unfoldable pub traverse : S.State → List String → List Step → ℕ → ℕ → Option Clearance → Traversed
  unfolding follow allowed_of dedupe
  traverse s seed_ids steps max_hops frontier_cap clearance =
      if ltb max_hops (length steps)
      then too_many_hops (length steps) max_hops
      else (let frontier = dedupe seed_ids in
          let (trace, last) = follow s (allowed_of clearance) frontier_cap 1 frontier steps in
          ok (record { seed_ids = frontier; trace = trace; result_ids = last }))

  unfoldable pub resolve_nodes : S.State → List String → List Node
  resolve_nodes s [] = []
  resolve_nodes s (i ∷ ids) =
      let rest = resolve_nodes s ids in elim (S.get_node s i) [ none ↦ rest | some n ↦ n ∷ rest ]

pub record NeighborhoodTrace : Type 0 where
  pub hop : ℕ
  pub frontier_in : List String
  pub reached : List String
  pub edge_kinds : List EdgeKind
  pub truncated : Bool

-- the property `NeighborhoodTrace.extraction_methods`
unfoldable pub extraction_methods : NeighborhoodTrace → List String
unfolding sorted dedupe extraction_method_for_kind
extraction_methods entry = sorted (dedupe (map extraction_method_for_kind entry.edge_kinds))

pub record NeighborhoodResult : Type 0 where
  pub seed_ids : List String
  pub trace : List NeighborhoodTrace
  pub result_ids : List String

-- the variables of the loop of `expand_neighborhood`
pub record Expansion : Type 0 where
  pub visited : List String
  pub frontier : List String
  pub trace : List NeighborhoodTrace
  pub result_ids : List String

-- `sorted(…, key=lambda k: k.value)`
abbrev pub kind_le : EdgeKind → EdgeKind → Bool
kind_le k l = text_le (edge_value k) (edge_value l)

instance abbrev pub kind_order : Order EdgeKind
kind_order = record {
  le = kind_le;
  total = λ k l. text_le_total (edge_value k) (edge_value l);
  trans = λ k l m. text_le_trans (edge_value k) (edge_value l) (edge_value m);
}

abbrev pub neighbor_id : NeighborEdge → String
neighbor_id e = e.neighbor.id

-- {e.neighbor.id for e in edges if e.neighbor.id not in visited}
unfoldable pub newly : List NeighborEdge → List String → List String
unfolding dedupe keep contains
newly batch visited = dedupe (keep (λ i. not (contains visited i)) (map neighbor_id batch))

-- the kinds that contributed a reached node
unfoldable pub contributing : List NeighborEdge → List String → List EdgeKind
unfolding sorted dedupe keep contains edge_value
contributing batch reached =
    sorted (dedupe (map (λ e. e.edge_kind) (keep (λ e. contains reached e.neighbor.id) batch)))

-- the body of the loop, on the batch that it has fetched
unfoldable pub expand_with : List NeighborEdge → ℕ → ℕ → Expansion → Expansion
unfolding newly contributing take sorted union
expand_with batch frontier_cap hop x =
    let found = newly batch x.visited in
    let reached = take frontier_cap (sorted found) in
    let entry : NeighborhoodTrace = record {
      hop = hop;
      frontier_in = x.frontier;
      reached = reached;
      edge_kinds = contributing batch reached;
      truncated = ltb frontier_cap (length found);
    } in
    record {
      visited = union x.visited reached;
      frontier = reached;
      trace = x.trace ++ entry ∷ [];
      result_ids = x.result_ids ++ reached;
    }

-- the variables before the first round
unfoldable pub start : List String → Expansion
unfolding dedupe
start seed_ids =
    let seeds = dedupe seed_ids in
    record { visited = seeds; frontier = seeds; trace = []; result_ids = [] }

module _ (S : GraphStore) where
  unfoldable pub expand_hop : S.State → Allowed → ℕ → ℕ → Expansion → Expansion
  unfolding expand_with neighbors_batch
  expand_hop s allowed frontier_cap hop x =
      expand_with (neighbors_batch S s x.frontier allowed) frontier_cap hop x

  -- `rounds` is what is left of `range(1, max_hops + 1)` from `hop` on
  unfoldable pub expand_rounds : S.State → Allowed → ℕ → ℕ → ℕ → Expansion → Expansion
  unfolding expand_hop
  expand_rounds s allowed frontier_cap zero hop x = x
  expand_rounds s allowed frontier_cap (suc rounds) hop x =
      let next =
        expand_rounds s allowed frontier_cap rounds (hop + 1)
          (expand_hop s allowed frontier_cap hop x) in
      if is_empty x.frontier then x else next

  unfoldable pub expand_neighborhood :
      S.State → List String → ℕ → ℕ → Option Clearance → NeighborhoodResult
  unfolding expand_rounds start allowed_of
  expand_neighborhood s seed_ids max_hops frontier_cap clearance =
      let x = expand_rounds s (allowed_of clearance) frontier_cap max_hops 1 (start seed_ids) in
      record { seed_ids = (start seed_ids).visited; trace = x.trace; result_ids = x.result_ids }
