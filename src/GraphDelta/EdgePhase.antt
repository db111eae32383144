-- ===== src/GraphDelta/EdgePhase.antt =====
-- The loop over the edges, from the store's edges outside the deleted nodes and those of the scratch graph.
use graphrag_aws_template.Prelude.{
  ◌≡◌, refl, String, true, false, ◌&&◌, ◌||◌, Option, none, some, List, map, arith, string_eq,
  pair_eq, contains, keep, is_some, is_empty, Option-cases, inl, inr, if◌then◌else◌,
}
use graphrag_aws_template.Prelude.Sets.{union, contains-union}
use graphrag_aws_template.Prelude.Dicts.{Dict, get, keys, index_by, contains-keys}
use graphrag_aws_template.Prelude.Dicts.Entries.{first_of_two, filter_some, get-index_by}
use graphrag_aws_template.Model.{Edge, EdgeKey, Graph, key, edges}
use graphrag_aws_template.Model.WellFormed.{IsWellFormed}
use graphrag_aws_template.Store.{GraphStore, IsLawful, edge_at}
use graphrag_aws_template.GraphDelta.{
  EdgeOrder, Decision, Changes, decide_edge, edge_table, plan_edges, EdgeId, outside, surviving_of,
  edge_docs_of,
}
use graphrag_aws_template.GraphDelta.Decisions.{outcome}
use graphrag_aws_template.GraphDelta.EdgeDecisions.{EdgeOutcome, edge_outcome, id_key}
use graphrag_aws_template.GraphDelta.Plan.{
  last_named, drops, replacement, decide_all-total, decide_all-drops, decide_all-replaces,
  outcome_lem,
}
use graphrag_aws_template.GraphDelta.Apply

-- With neither row there is no document.
absent_edge :
    (old new : Option Edge) (removed_ids : List String)
    → is_some old ≡ false
    → is_some new ≡ false
    → is_empty (surviving_of (edge_docs_of old) (edge_docs_of new) removed_ids) ≡ true
unfolding union keep
absent_edge none none removed_ids h k = refl
absent_edge none (some n) removed_ids h k = cc
absent_edge (some o) new removed_ids h k = cc

module _ (S : GraphStore) (L : IsLawful S) (edge_order : EdgeOrder) (s : S.State)
    (valid : L.IsValid s) (scratch : Graph) (wf : IsWellFormed scratch)
    (removed_ids deleted : List String) where
  -- the edge under a key, unless a deleted node takes it away
  abbrev pub old_edge : EdgeKey → Option Edge
  old_edge k = filter_some (outside deleted) (edge_at S s k)

  abbrev pub new_edge : EdgeKey → Option Edge
  new_edge k = get scratch.edge_table k

  abbrev table : Dict EdgeKey Edge
  table = edge_table S s deleted

  abbrev scratch_table : Dict EdgeKey Edge
  scratch_table = index_by key (edges scratch)

  old_edge_lem : (k : EdgeKey) → get table k ≡ old_edge k
  old_edge_lem k = Apply.edge_table_lem S s deleted k

  new_edge_lem : (k : EdgeKey) → get scratch_table k ≡ new_edge k
  unfolding edges
  new_edge_lem k = get-index_by key scratch.edge_table k wf.by_key

  old_edge-key : (k : EdgeKey) (e : Edge) → old_edge k ≡ some e → key e ≡ k
  old_edge-key k e h = elim (Option-cases (edge_at S s k)) [
    | inl absent ↦ ground arith
    | inr (o, there) ↦ ground (arith, L.edge_at-key s k o valid there)
  ]

  pub edge_decision :
      (k : EdgeKey)
      → (d : Decision EdgeId Edge) × EdgeOutcome removed_ids k (old_edge k) (new_edge k) d
  edge_decision k =
      edge_outcome removed_ids k (old_edge k) (new_edge k) (old_edge-key k)
        λ e h. wf.by_key.named k e h

  abbrev pub edge_keys : List EdgeKey
  edge_keys = edge_order.listed (union (keys table) (keys scratch_table))

  pub listed_edge :
      (k : EdgeKey) → contains edge_keys k ≡ (is_some (old_edge k) || is_some (new_edge k))
  listed_edge k = ground (
    arith,
    edge_order.same (union (keys table) (keys scratch_table)) k,
    contains-union (keys table) (keys scratch_table) k,
    contains-keys table k,
    contains-keys scratch_table k,
    old_edge_lem k,
    new_edge_lem k,
  )

  abbrev decide_key : EdgeKey → Option (Decision EdgeId Edge)
  decide_key k = decide_edge removed_ids (get table k) (get scratch_table k)

  abbrev pub edge_choice : EdgeKey → Decision EdgeId Edge
  edge_choice k = (edge_decision k).0

  decided_key : (k : EdgeKey) → decide_key k ≡ some (edge_choice k)
  decided_key k = rw (old_edge_lem k, new_edge_lem k) (edge_decision k).1.decided

  pub plan_edges-total :
      (c : Changes EdgeId Edge) × (plan_edges S edge_order s scratch removed_ids deleted ≡ some c)
  unfolding plan_edges
  plan_edges-total =
      decide_all-total id_key key decide_key edge_choice decided_key
        (λ k x h. (edge_decision k).1.dropped x h) (λ k a h. (edge_decision k).1.replaced a h)
        edge_keys

  module _ (c : Changes EdgeId Edge)
      (planned : plan_edges S edge_order s scratch removed_ids deleted ≡ some c) where
    pub dropped_edges :
        (k : EdgeKey)
        → contains (map id_key c.0) k ≡ (contains edge_keys k && drops (edge_choice k))
    dropped_edges k =
        decide_all-drops id_key key decide_key edge_choice decided_key
          (λ i x h. (edge_decision i).1.dropped x h) (λ i a h. (edge_decision i).1.replaced a h)
          edge_keys c k (unfold plan_edges in planned)

    replaced_edges :
        (k : EdgeKey)
        → last_named key k c.1
          ≡ (if contains edge_keys k then replacement (edge_choice k) else none)
    replaced_edges k =
        decide_all-replaces id_key key decide_key edge_choice decided_key
          (λ i x h. (edge_decision i).1.dropped x h) (λ i a h. (edge_decision i).1.replaced a h)
          edge_keys c k (unfold plan_edges in planned)

    pub edge_after :
        (k : EdgeKey)
        → first_of_two
            (last_named key k c.1)
            (if contains (map id_key c.0) k then none else old_edge k)
          ≡ outcome (edge_choice k) (old_edge k)
    edge_after k = ground (
      arith,
      dropped_edges k,
      replaced_edges k,
      listed_edge k,
      outcome_lem (edge_choice k) (old_edge k),
      (edge_decision k).1.survives,
      absent_edge (old_edge k) (new_edge k) removed_ids,
    )
