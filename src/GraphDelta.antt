-- ===== src/GraphDelta.antt =====
-- packages/graphrag/src/graphrag/graphdelta.py: the plan of a reconciliation, and its application to
-- a store. The order in which the two loops go through their sets is an argument.
mod Reconcile
pub mod Decisions
pub mod NodeDecisions
pub mod EdgeDecisions
pub mod Plan
pub mod Apply
pub mod NodePhase
pub mod EdgePhase
pub mod Refines
unfoldable pub use Reconcile.*
use Prim.Native.Char.{code}
use graphrag_aws_template.Prelude.{
  ℕ, ◌+◌, ◌==◌, leb, Eq, String, string_eq, pair_eq, Bool, true, false, not, ◌&&◌, ◌||◌, ◌≡◌,
  Option, none, some, List, [], ◌∷◌, map, length, keep, all, contains, is_empty, if◌then◌else◌,
}
use graphrag_aws_template.Prelude.Sets.{union, difference, dedupe, set_eq, IterationOrder}
use graphrag_aws_template.Prelude.Dicts.{Dict, get, keys, update, index_by}
use graphrag_aws_template.Model.{
  Node, Edge, EdgeKind, EntityKind, entity_eq, Graph, EdgeKey, key, edges, Props, Value, value_eq,
}
use graphrag_aws_template.Model.WellFormed.{id_of}
use graphrag_aws_template.Store.{GraphStore}

-- What a round of a loop adds to the plan: a deletion, nothing, or a replacement.
pub data Decision {ℓ κ} (D : Type ℓ) (A : Type κ) : Type (ℓ ⊔ κ) where
  drop : D → Decision D A
  leave : Decision D A
  replace : A → Decision D A

-- The body of the loop over the nodes. `none` is the `ValueError`.
unfoldable pub decide_node :
    List String → String → Option Node → Option Node → Option (Decision String Node)
unfolding reconcile_node node_unchanged union difference
decide_node removed_ids node_id store_node scratch_node =
    let surviving = surviving_of (docs_of store_node) (docs_of scratch_node) removed_ids in
    if is_empty surviving
    then some (drop node_id)
    else elim (reconcile_node store_node scratch_node surviving) [
      | none ↦ none
      | some target ↦ elim store_node [
        | none ↦ some (replace target)
        | some old ↦ if node_unchanged old target then some leave else some (replace target)
      ]
    ]

abbrev pub EdgeId : Type 0
EdgeId = String × EdgeKind × String

-- The body of the loop over the edges.
unfoldable pub decide_edge : List String → Option Edge → Option Edge → Option (Decision EdgeId Edge)
unfolding reconcile_edge edge_unchanged union difference
decide_edge removed_ids store_edge scratch_edge =
    let surviving =
      surviving_of (edge_docs_of store_edge) (edge_docs_of scratch_edge) removed_ids in
    if is_empty surviving
    then elim store_edge [
      | none ↦ some leave
      | some old ↦ some (drop (old.src_id, old.kind, old.dst_id))
    ]
    else elim (reconcile_edge store_edge scratch_edge surviving) [
      | none ↦ none
      | some target ↦ elim store_edge [
        | none ↦ some (replace target)
        | some old ↦ if edge_unchanged old target then some leave else some (replace target)
      ]
    ]

-- the deletions and the replacements of a loop, in order
abbrev pub Changes {ℓ κ} : Type ℓ → Type κ → Type (ℓ ⊔ κ)
Changes D A = List D × List A

abbrev pub add_decision {ℓ κ} : {D : Type ℓ} {A : Type κ} → Decision D A → Changes D A → Changes D A
add_decision (drop d) (deletes, upserts) = (d ∷ deletes, upserts)
add_decision leave (deletes, upserts) = (deletes, upserts)
add_decision (replace a) (deletes, upserts) = (deletes, a ∷ upserts)

-- A loop over keys; a `ValueError` in a round ends it.
unfoldable pub decide_all {ℓ κ μ} :
    {K : Type μ} {D : Type ℓ} {A : Type κ}
    → (K → Option (Decision D A))
    → List K
    → Option (Changes D A)
decide_all decide [] = some ([], [])
decide_all decide (k ∷ ks) =
    let rest = decide_all decide ks in
    elim (decide k) [
      | none ↦ none
      | some d ↦ elim rest [ none ↦ none | some changes ↦ some (add_decision d changes) ]
    ]

pub record GraphDelta : Type 0 where
  pub upsert_nodes : List Node
  pub upsert_edges : List Edge
  pub delete_nodes : List String
  pub delete_edges : List EdgeId

-- the test of the comprehension for `store_edges`
abbrev pub outside : List String → Edge → Bool
outside deleted_node_ids e =
    not (contains deleted_node_ids e.src_id) && not (contains deleted_node_ids e.dst_id)

-- the orders of iteration over the ids and over the keys
abbrev pub NodeOrder : Type 0
NodeOrder = IterationOrder string_eq

abbrev pub EdgeOrder : Type 0
EdgeOrder = IterationOrder (pair_eq {A = String} {B = String × String})

module _ (S : GraphStore) where
  -- {n.id: n for n in store.all_nodes()}
  abbrev pub node_table : S.State → Dict String Node
  node_table s = index_by id_of (S.all_nodes s)

  -- {e.key(): e for e in store.all_edges() if …}
  abbrev pub edge_table : S.State → List String → Dict EdgeKey Edge
  edge_table s deleted_node_ids = index_by key (keep (outside deleted_node_ids) (S.all_edges s))

  unfoldable pub plan_nodes :
      NodeOrder → S.State → Graph → List String → Option (Changes String Node)
  unfolding decide_node decide_all union keys
  plan_nodes node_order s scratch removed_ids =
      decide_all (λ id. decide_node removed_ids id (get (node_table s) id) (get scratch.nodes id))
        (node_order.listed (union (keys (node_table s)) (keys scratch.nodes)))

  unfoldable pub plan_edges :
      EdgeOrder → S.State → Graph → List String → List String → Option (Changes EdgeId Edge)
  unfolding decide_edge decide_all union keys edges
  plan_edges edge_order s scratch removed_ids deleted_node_ids =
      let store_edges = edge_table s deleted_node_ids in
      let scratch_edges = index_by key (edges scratch) in
      decide_all (λ k. decide_edge removed_ids (get store_edges k) (get scratch_edges k))
        (edge_order.listed (union (keys store_edges) (keys scratch_edges)))

  unfoldable pub plan_graph_delta :
      NodeOrder → EdgeOrder → S.State → Graph → List String → Option GraphDelta
  unfolding plan_nodes plan_edges
  plan_graph_delta node_order edge_order s scratch removed_ids =
      elim (plan_nodes node_order s scratch removed_ids) [
        | none ↦ none
        | some (delete_nodes, upsert_nodes) ↦
            elim (plan_edges edge_order s scratch removed_ids delete_nodes) [
              | none ↦ none
              | some (delete_edges, upsert_edges) ↦ some (record {
                upsert_nodes = upsert_nodes;
                upsert_edges = upsert_edges;
                delete_nodes = delete_nodes;
                delete_edges = delete_edges;
              })
            ]
      ]

  -- for x in xs: s = f(s, x)
  unfoldable pub each {ℓ} : {A : Type ℓ} → (S.State → A → S.State) → S.State → List A → S.State
  each f s [] = s
  each f s (x ∷ xs) = each f (f s x) xs

  -- the new store, and the count of orphans
  unfoldable pub apply_graph_delta : S.State → GraphDelta → S.State × ℕ
  unfolding each
  apply_graph_delta s delta =
      let nodes_dropped = each S.delete_node s delta.delete_nodes in
      let nodes_set = each S.replace_node nodes_dropped delta.upsert_nodes in
      let edges_dropped =
        each (λ t (i, k, j). S.delete_edge t i k j) nodes_set delta.delete_edges in
      let edges_set = each S.replace_edge edges_dropped delta.upsert_edges in
      (edges_set, length delta.delete_nodes + length delta.delete_edges)
