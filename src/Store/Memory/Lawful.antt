-- ===== src/Store/Memory/Lawful.antt =====
-- store/memory.py: the laws of the interface, for the in-memory backend.
use graphrag_aws_template.Prelude.{
  ◌≡◌, refl, ap, sym, ◌∙◌, String, Bool, false, ◌&&◌, Option, none, some, List, [], ◌∷◌, arith,
  ◌==◌, string_eq, if◌then◌else◌, any, any-ext, pair_eq, Option-cases, inl, inr,
}
use graphrag_aws_template.Prelude.Dicts.{get, values, index_by, get-put, get-remove}
use graphrag_aws_template.Prelude.Dicts.Entries.{get-index_by, filter_some, get-keep_values}
use graphrag_aws_template.Model.{
  Node, Edge, EdgeKey, EdgeKind, edge_eq, edge_value, Direction, out, inward, Graph, edges,
  get_node, ok, reused_across_kinds, Upserted, upsert_node, upsert_edge, remove_node, remove_edge,
  set_node, set_edge, key, spared,
}
use graphrag_aws_template.Model.WellFormed.{
  IsWellFormed, id_of, empty-IsWellFormed, upsert_node-IsWellFormed, upsert_edge-IsWellFormed,
  remove_node-IsWellFormed, remove_edge-IsWellFormed, set_node-IsWellFormed, set_edge-IsWellFormed,
}
use graphrag_aws_template.Model.Merge.{merged_node, merged_edge, upsert_node_lem, upsert_edge_lem}
use graphrag_aws_template.Store.{IsLawful, edge_at, leads, admits, Allowed}
use graphrag_aws_template.Store.Memory.{
  memory_store, first_graph, neighbors, neighbor_along, collect, target, excluded,
}

edge_at-memory :
    (g : Graph) (k : EdgeKey) → IsWellFormed g → edge_at memory_store g k ≡ get g.edge_table k
unfolding edges
edge_at-memory g k w = get-index_by key g.edge_table k w.by_key

has_id : String → Option Node → Bool
has_id j none = false
has_id j (some n) = n.id == j

any-collect :
    (f : Edge → Option Node) (j : String) (es : List Edge)
    → any (λ n. n.id == j) (collect f es) ≡ any (λ e. has_id j (f e)) es
unfolding any collect has_id
any-collect f j [] = refl
any-collect f j (e ∷ es) = ground (arith, any-collect f j es)

module _ (g : Graph) (w : IsWellFormed g) where
  has_id-target :
      (e : Edge) (i : String) (d : Direction) (allowed : Allowed) (j : String) (kind : EdgeKind)
      → has_id j (neighbor_along g i kind d allowed e)
        ≡ (leads e i kind d j && admits (get_node g j) e allowed)
  unfolding neighbor_along target excluded leads admits has_id get_node
  has_id-target e i out allowed j kind = elim (Option-cases (get g.nodes e.dst_id)) [
    | inl absent ↦ ground (arith, string_eq.beq_iff e.dst_id j)
    | inr (n, there) ↦ ground (arith, string_eq.beq_iff e.dst_id j, w.by_id.named e.dst_id n there)
  ]
  has_id-target e i inward allowed j kind = elim (Option-cases (get g.nodes e.src_id)) [
    | inl absent ↦ ground (arith, string_eq.beq_iff e.src_id j)
    | inr (n, there) ↦ ground (arith, string_eq.beq_iff e.src_id j, w.by_id.named e.src_id n there)
  ]

  neighbors-memory :
      (i : String) (kind : EdgeKind) (d : Direction) (allowed : Allowed) (j : String)
      → any (λ n. n.id == j) (neighbors g i kind d allowed)
        ≡ any (λ e. leads e i kind d j && admits (get_node g j) e allowed) (edges g)
  unfolding neighbors
  neighbors-memory i kind d allowed j =
      any-collect (neighbor_along g i kind d allowed) j (edges g)
      ∙ any-ext _ _ (edges g) (λ e. has_id-target e i d allowed j kind)

  edge_at-remove_node :
      (i : String) (k : EdgeKey)
      → edge_at memory_store (remove_node g i) k ≡ filter_some (spared i) (edge_at memory_store g k)
  edge_at-remove_node i k =
      rw (edge_at-memory (remove_node g i) k (remove_node-IsWellFormed g i w), edge_at-memory g k w)
        (unfold remove_node in get-keep_values (spared i) g.edge_table k w.by_key.once)

  edge_at-remove_edge :
      (i : String) (kind : EdgeKind) (j : String) (k : EdgeKey)
      → edge_at memory_store (remove_edge g i kind j) k
        ≡ (if (i, (edge_value kind, j)) == k then none else edge_at memory_store g k)
  edge_at-remove_edge i kind j k =
      rw
        (
          edge_at-memory (remove_edge g i kind j) k (remove_edge-IsWellFormed g i kind j w),
          edge_at-memory g k w,
        )
        (unfold remove_edge in get-remove g.edge_table (i, (edge_value kind, j)) k)

  edge_at-set_node :
      (n : Node) (k : EdgeKey) → edge_at memory_store (set_node g n) k ≡ edge_at memory_store g k
  unfolding set_node edges
  edge_at-set_node n k = refl

  edge_at-set_edge :
      (e : Edge) (k : EdgeKey)
      → edge_at memory_store (set_edge g e) k
        ≡ (if key e == k then some e else edge_at memory_store g k)
  edge_at-set_edge e k =
      rw (edge_at-memory (set_edge g e) k (set_edge-IsWellFormed g e w), edge_at-memory g k w)
        (unfold set_edge in get-put g.edge_table (key e) k e)

-- The graph that the store's `upsert_node` leaves is the one of the graph's own.
first_graph-ok :
    (u : Upserted (Graph × Node)) (h : Graph) → first_graph u ≡ ok h → (m : Node) × (u ≡ ok (h, m))
unfolding first_graph
first_graph-ok (ok (g, m)) h e = (m, ground arith)
first_graph-ok (reused_across_kinds id k l) h e = cc

upsert_node-memory :
    (g h : Graph) (n : Node) (j : String)
    → first_graph (upsert_node g n) ≡ ok h
    → get h.nodes j ≡ (if n.id == j then some (merged_node (get g.nodes n.id) n) else get g.nodes j)
upsert_node-memory g h n j done =
    let (m, e) = first_graph-ok (upsert_node g n) h done in
    rw (upsert_node_lem g h n m e).0 (get-put g.nodes n.id j (merged_node (get g.nodes n.id) n))

edge_at-upsert_edge-memory :
    (g : Graph) (e : Edge) (k : EdgeKey)
    → IsWellFormed g
    → edge_at memory_store (upsert_edge g e).0 k ≡ (
        if key e == k
        then some (merged_edge (edge_at memory_store g (key e)) e)
        else edge_at memory_store g k)
edge_at-upsert_edge-memory g e k w =
    rw
      (
        edge_at-memory (upsert_edge g e).0 k (upsert_edge-IsWellFormed g e w),
        edge_at-memory g k w,
        edge_at-memory g (key e) w,
        upsert_edge_lem g e,
      )
      (get-put g.edge_table (key e) k (merged_edge (get g.edge_table (key e)) e))

-- the laws, with the well-formed graphs for the valid states
pub memory_laws : IsLawful memory_store
unfolding get edges values index_by get_node remove_node remove_edge set_node set_edge
memory_laws = record {
  IsValid = IsWellFormed;
  clear-IsValid = λ g. empty-IsWellFormed;
  upsert_node-IsValid = λ g h n done w.
      let (m, e) = first_graph-ok (upsert_node g n) h done in upsert_node-IsWellFormed g h n m e w;
  upsert_edge-IsValid = upsert_edge-IsWellFormed;
  delete_node-IsValid = remove_node-IsWellFormed;
  delete_edge-IsValid = remove_edge-IsWellFormed;
  replace_node-IsValid = set_node-IsWellFormed;
  replace_edge-IsValid = set_edge-IsWellFormed;
  get-all_nodes = λ g id w. get-index_by id_of g.nodes id w.by_id;
  get_node-id = λ g id n w h. w.by_id.named id n h;
  edge_at-key = λ g k e w h. w.by_key.named k e (sym (edge_at-memory g k w) ∙ h);
  get-clear = λ g j. refl;
  get-upsert_node = upsert_node-memory;
  get-upsert_edge = λ g e j. ap (λ t. get t j) (ap (λ (h : Graph). h.nodes) (upsert_edge_lem g e));
  get-delete_node = λ g i j. get-remove g.nodes i j;
  get-delete_edge = λ g i k j id. refl;
  get-replace_node = λ g n j. get-put g.nodes n.id j n;
  get-replace_edge = λ g e j. refl;
  edge_at-clear = λ g k. refl;
  edge_at-upsert_edge = edge_at-upsert_edge-memory;
  edge_at-delete_node = λ g i k w. edge_at-remove_node g w i k;
  edge_at-delete_edge = λ g i kind j k w. edge_at-remove_edge g w i kind j k;
  edge_at-replace_node = λ g n k w. edge_at-set_node g w n k;
  edge_at-replace_edge = λ g e k w. edge_at-set_edge g w e k;
  neighbors_lem = λ g i kind d allowed j w. neighbors-memory g w i kind d allowed j;
}

-- A well-formed graph is a valid state.
pub memory-IsValid : (g : Graph) → IsWellFormed g → memory_laws.IsValid g
unfolding memory_laws
memory-IsValid g w = w

-- The in-memory store keeps every law of the interface, with the well-formed graphs as its valid
-- states.
pub memory_store-IsLawful : (L : IsLawful memory_store) × (L.IsValid ≡ IsWellFormed)
unfolding memory_laws
memory_store-IsLawful = (memory_laws, refl)
