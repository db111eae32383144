-- ===== src/Store.antt =====
-- packages/graphrag/src/graphrag/store/base.py: the interface between the graph logic and a backend,
-- over an unknown state, and `neighbors_batch`, which the interface defines for every backend.
-- `IsLawful` states what the documented operations promise; Store/Memory fills it.
pub mod Memory
use graphrag_aws_template.Prelude.{
  String, Bool, true, false, ◌&&◌, ◌||◌, ◌≡◌, Option, none, some, List, [], ◌∷◌, ◌++◌, map, any,
  contains, ◌==◌, string_eq, if◌then◌else◌, pair_eq,
}
use graphrag_aws_template.Prelude.Dicts.{get, index_by}
use graphrag_aws_template.Prelude.Dicts.Entries.{filter_some}
use graphrag_aws_template.Visibility.{default_visibility}
use graphrag_aws_template.Model.{
  Node, Edge, EdgeKind, edge_eq, edge_kinds, Direction, out, inward, EdgeKey, key, edge_value,
  Upserted, ok, Props, Value, str, spared,
}
use graphrag_aws_template.Model.WellFormed.{id_of}
use graphrag_aws_template.Model.Merge.{merged_node, merged_edge}

-- `allowed_labels`: `none` is unfiltered
abbrev pub Allowed : Type 0
Allowed = Option (List String)

pub record GraphStore : Type 1 where
  pub State : Type 0
  pub upsert_node : State → Node → Upserted State
  pub upsert_edge : State → Edge → State
  pub get_node : State → String → Option Node
  pub neighbors : State → String → EdgeKind → Direction → Allowed → List Node
  pub all_nodes : State → List Node
  pub all_edges : State → List Edge
  pub delete_node : State → String → State
  pub delete_edge : State → String → EdgeKind → String → State
  pub clear : State → State
  pub replace_node : State → Node → State
  pub replace_edge : State → Edge → State

pub record NeighborEdge : Type 0 where
  pub src_id : String
  pub edge_kind : EdgeKind
  pub direction : Direction
  pub neighbor : Node

-- [f(x) for each x], appended in order
unfoldable pub gather {ℓ κ} : {A : Type ℓ} {B : Type κ} → (A → List B) → List A → List B
gather f [] = []
gather f (x ∷ xs) = f x ++ gather f xs

-- The visibility of a row: its prop as text, and the public tier if it has none.
unfoldable pub vis : Props → String
unfolding get str default_visibility
vis props = elim (get props "visibility") [ none ↦ default_visibility | some v ↦ str v ]

unfoldable pub in_clearance : Allowed → String → Bool
unfolding contains
in_clearance none label = true
in_clearance (some labels) label = contains labels label

module _ (S : GraphStore) where
  open S use {State, get_node, neighbors, all_nodes, all_edges}

  unfoldable pub neighbors_batch : State → List String → Allowed → List NeighborEdge
  unfolding gather
  neighbors_batch s node_ids allowed =
      gather
        (λ node_id.
          gather
            (λ edge_kind.
              gather
                (λ direction.
                  map
                    (λ neighbor. record {
                      src_id = node_id;
                      edge_kind = edge_kind;
                      direction = direction;
                      neighbor = neighbor;
                    })
                    (neighbors s node_id edge_kind direction allowed))
                (out ∷ inward ∷ []))
            edge_kinds)
        node_ids

  -- the edge under a key, as `{e.key(): e for e in store.all_edges()}` finds it
  abbrev pub edge_at : State → EdgeKey → Option Edge
  edge_at s k = get (index_by key (all_edges s)) k

-- The edge leads from `i` to `j` along the kind, in the direction.
unfoldable pub leads : Edge → String → EdgeKind → Direction → String → Bool
leads e i kind out j = (e.kind == kind) && ((e.src_id == i) && (e.dst_id == j))
leads e i kind inward j = (e.kind == kind) && ((e.dst_id == i) && (e.src_id == j))

-- The node is there, and both the edge's label and its own are within the clearance.
unfoldable pub admits : Option Node → Edge → Allowed → Bool
unfolding vis in_clearance
admits none e allowed = false
admits (some n) e allowed = in_clearance allowed (vis e.props) && in_clearance allowed (vis n.props)

pub record IsLawful (S : GraphStore) : Type 1 where
  pub IsValid : S.State → Type 0
  pub clear-IsValid : (s : S.State) → IsValid (S.clear s)
  pub upsert_node-IsValid :
      (s t : S.State) (n : Node) → S.upsert_node s n ≡ ok t → IsValid s → IsValid t
  pub upsert_edge-IsValid : (s : S.State) (e : Edge) → IsValid s → IsValid (S.upsert_edge s e)
  pub delete_node-IsValid : (s : S.State) (id : String) → IsValid s → IsValid (S.delete_node s id)
  pub delete_edge-IsValid :
      (s : S.State) (i : String) (k : EdgeKind) (j : String)
      → IsValid s
      → IsValid (S.delete_edge s i k j)
  pub replace_node-IsValid : (s : S.State) (n : Node) → IsValid s → IsValid (S.replace_node s n)
  pub replace_edge-IsValid : (s : S.State) (e : Edge) → IsValid s → IsValid (S.replace_edge s e)
  -- `all_nodes` lists what `get_node` finds, and a row is found under its id or key
  pub get-all_nodes :
      (s : S.State) (id : String)
      → IsValid s
      → get (index_by id_of (S.all_nodes s)) id ≡ S.get_node s id
  pub get_node-id :
      (s : S.State) (id : String) (n : Node) → IsValid s → S.get_node s id ≡ some n → n.id ≡ id
  pub edge_at-key :
      (s : S.State) (k : EdgeKey) (e : Edge) → IsValid s → edge_at S s k ≡ some e → key e ≡ k
  pub get-clear : (s : S.State) (j : String) → S.get_node (S.clear s) j ≡ none
  -- an upsert leaves the canonical node under its id, and every other node as it was
  pub get-upsert_node :
      (s t : S.State) (n : Node) (j : String)
      → S.upsert_node s n ≡ ok t
      → S.get_node t j
        ≡ (if n.id == j then some (merged_node (S.get_node s n.id) n) else S.get_node s j)
  pub get-upsert_edge :
      (s : S.State) (e : Edge) (j : String) → S.get_node (S.upsert_edge s e) j ≡ S.get_node s j
  pub get-delete_node :
      (s : S.State) (i j : String)
      → S.get_node (S.delete_node s i) j ≡ (if i == j then none else S.get_node s j)
  pub get-delete_edge :
      (s : S.State) (i : String) (k : EdgeKind) (j id : String)
      → S.get_node (S.delete_edge s i k j) id ≡ S.get_node s id
  pub get-replace_node :
      (s : S.State) (n : Node) (j : String)
      → S.get_node (S.replace_node s n) j ≡ (if n.id == j then some n else S.get_node s j)
  pub get-replace_edge :
      (s : S.State) (e : Edge) (j : String) → S.get_node (S.replace_edge s e) j ≡ S.get_node s j
  pub edge_at-clear : (s : S.State) (k : EdgeKey) → edge_at S (S.clear s) k ≡ none
  pub edge_at-upsert_edge :
      (s : S.State) (e : Edge) (k : EdgeKey)
      → IsValid s
      → edge_at S (S.upsert_edge s e) k
        ≡ (if key e == k then some (merged_edge (edge_at S s (key e)) e) else edge_at S s k)
  pub edge_at-delete_node :
      (s : S.State) (i : String) (k : EdgeKey)
      → IsValid s
      → edge_at S (S.delete_node s i) k ≡ filter_some (spared i) (edge_at S s k)
  pub edge_at-delete_edge :
      (s : S.State) (i : String) (kind : EdgeKind) (j : String) (k : EdgeKey)
      → IsValid s
      → edge_at S (S.delete_edge s i kind j) k
        ≡ (if (i, (edge_value kind, j)) == k then none else edge_at S s k)
  pub edge_at-replace_node :
      (s : S.State) (n : Node) (k : EdgeKey)
      → IsValid s
      → edge_at S (S.replace_node s n) k ≡ edge_at S s k
  pub edge_at-replace_edge :
      (s : S.State) (e : Edge) (k : EdgeKey)
      → IsValid s
      → edge_at S (S.replace_edge s e) k ≡ (if key e == k then some e else edge_at S s k)
  -- what one hop finds, with the filter on the edge and on the node
  pub neighbors_lem :
      (s : S.State) (i : String) (kind : EdgeKind) (d : Direction) (allowed : Allowed) (j : String)
      → IsValid s
      → any (λ n. n.id == j) (S.neighbors s i kind d allowed)
        ≡ any (λ e. leads e i kind d j && admits (S.get_node s j) e allowed) (S.all_edges s)
