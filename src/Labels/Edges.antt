-- ===== src/Labels/Edges.antt =====
-- labels.py, `label_graph`: the labels that nodes and edges show, read against the label map.
use graphrag_aws_template.Prelude.{
  ◌≡◌, refl, String, true, ◌&&◌, Option, Option-cases, inl, inr, none, some, [], ◌∷◌, arith,
  string_eq, pair_eq, all, Eq,
}
use graphrag_aws_template.Prelude.Dicts.{Dict, get, put, get-put}
use graphrag_aws_template.Visibility.{
  ranks, public, value, default_visibility, get_or, compose, Clearance, allows,
}
use graphrag_aws_template.Visibility.Compose.{
  IsTier, IsDownwardClosed, allows-compose, compose-unranked,
}
use graphrag_aws_template.Model.{Node, Edge, Graph, text, Props, EdgeKey}
use graphrag_aws_template.Store.{vis}
use graphrag_aws_template.Labels.{Labels, label_node, label_edge, map_values, label_graph}

-- The label that the map gives an id.
abbrev pub label_of : Labels → String → String
label_of labels id = get_or labels id default_visibility

-- All labels of the map are tiers.
abbrev pub IsTiered : Labels → Type 0
IsTiered labels = (id : String) → IsTier (label_of labels id)

abbrev pub map_some {ℓ} : {A : Type ℓ} → (A → A) → Option A → Option A
map_some f none = none
map_some f (some a) = some (f a)

pub get-map_values {ℓ κ} :
    {K : Type ℓ} {V : Type κ} ⦃e : Eq K⦄ (f : V → V) (d : Dict K V) (k : K)
    → get (map_values f d) k ≡ map_some f (get d k)
unfolding get map_values
get-map_values f [] k = refl
get-map_values f ((j, w) ∷ d) k = ground (arith, get-map_values f d k)

-- a row of a labelled table is a labelled row
pub labelled_row {ℓ κ} :
    {K : Type ℓ} {V : Type κ} ⦃e : Eq K⦄ (f : V → V) (d : Dict K V) (k : K) {v : V}
    → get (map_values f d) k ≡ some v
    → (w : V) × (v ≡ f w)
labelled_row f d k h = elim (Option-cases (get d k)) [
  | inl absent ↦ ground (arith, get-map_values f d k)
  | inr (w, there) ↦ (w, ground (arith, get-map_values f d k))
]

vis-put : (props : Props) (s : String) → vis (put props "visibility" (text s)) ≡ s
unfolding vis
vis-put props s = ground (
  arith,
  get-put props "visibility" "visibility" (text s),
  string_eq.beq_iff "visibility" "visibility",
)

vis-label_edge :
    (labels : Labels) (e : Edge)
    → vis (label_edge labels e).props
      ≡ compose (label_of labels e.src_id ∷ label_of labels e.dst_id ∷ [])
unfolding label_edge
vis-label_edge labels e = vis-put e.props _

-- A labelled node shows the label of its id.
pub label_graph-node :
    (g : Graph) (labels : Labels) (id : String) (n : Node)
    → get (label_graph g labels).nodes id ≡ some n
    → vis n.props ≡ label_of labels n.id
unfolding label_graph label_node
label_graph-node g labels id n h =
    let (m, e) = labelled_row (label_node labels) g.nodes id h in
    rw e (vis-put m.props (label_of labels m.id))

-- For a clearance closed downwards that allows the public tier, and a map whose labels are tiers: a
-- labelled edge is allowed exactly when the labels of both its endpoints are.
pub label_graph-edge :
    (g : Graph) (labels : Labels) (k : EdgeKey) (e : Edge) (c : Clearance)
    → IsTiered labels
    → IsDownwardClosed c
    → allows c (value public) ≡ true
    → get (label_graph g labels).edge_table k ≡ some e
    → allows c (vis e.props)
      ≡ (allows c (label_of labels e.src_id) && allows c (label_of labels e.dst_id))
unfolding label_graph label_edge all
label_graph-edge g labels k e c tiers closed open_public h =
    let (f, q) = labelled_row (label_edge labels) g.edge_table k h in
    rw (q, vis-label_edge)
      (rw
        (allows-compose c closed (label_of labels f.src_id ∷ label_of labels f.dst_id ∷ [])
          (tiers f.src_id, (tiers f.dst_id, tt)) open_public)
        (ground arith))

-- If the source's label is none of the ranked ones and the target's is public, then the labelled
-- edge is public.
pub label_graph-edge_unranked :
    (g : Graph) (labels : Labels) (k : EdgeKey) (e : Edge)
    → get ranks (label_of labels e.src_id) ≡ none
    → label_of labels e.dst_id ≡ value public
    → get (label_graph g labels).edge_table k ≡ some e
    → vis e.props ≡ value public
unfolding label_graph label_edge
label_graph-edge_unranked g labels k e unranked open_dst h =
    let (f, q) = labelled_row (label_edge labels) g.edge_table k h in
    rw (q, vis-label_edge)
      (rw (rw q at open_dst) (compose-unranked (label_of labels f.src_id) (rw q at unranked)))
