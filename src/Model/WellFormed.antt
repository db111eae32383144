-- ===== src/Model/WellFormed.antt =====
-- model.py: the invariant of a graph's two tables, under each operation of the graph.
use graphrag_aws_template.Prelude.{
  ◌≡◌, refl, String, arith, string_eq, Option-cases, inl, inr, pair_eq,
}
use graphrag_aws_template.Prelude.Dicts.{get, put, keys}
use graphrag_aws_template.Prelude.Dicts.Entries.{
  IsKeyedBy, put-IsKeyedBy, remove-IsKeyedBy, keep_values-IsKeyedBy,
}
use graphrag_aws_template.Model.{
  Node, Edge, Graph, EdgeKind, key, empty, ok, upsert_node, merge_edge, upsert_edge, spared,
  remove_node, remove_edge, set_node, set_edge,
}

abbrev pub id_of : Node → String
id_of n = n.id

pub record IsWellFormed (g : Graph) : Type 0 where
  pub by_id : IsKeyedBy id_of g.nodes
  pub by_key : IsKeyedBy key g.edge_table

pub empty-IsWellFormed : IsWellFormed empty
unfolding get keys
empty-IsWellFormed = record {
  by_id = record { once = tt; named = λ k n h. cc };
  by_key = record { once = tt; named = λ k e h. cc };
}

pub set_node-IsWellFormed : (g : Graph) (n : Node) → IsWellFormed g → IsWellFormed (set_node g n)
unfolding set_node
set_node-IsWellFormed g n w = record {
  by_id = put-IsKeyedBy id_of g.nodes n.id n refl w.by_id;
  by_key = w.by_key;
}

pub set_edge-IsWellFormed : (g : Graph) (e : Edge) → IsWellFormed g → IsWellFormed (set_edge g e)
unfolding set_edge
set_edge-IsWellFormed g e w = record {
  by_id = w.by_id;
  by_key = put-IsKeyedBy key g.edge_table (key e) e refl w.by_key;
}

pub remove_node-IsWellFormed :
    (g : Graph) (node_id : String) → IsWellFormed g → IsWellFormed (remove_node g node_id)
unfolding remove_node
remove_node-IsWellFormed g node_id w = record {
  by_id = remove-IsKeyedBy id_of g.nodes node_id w.by_id;
  by_key = keep_values-IsKeyedBy key (spared node_id) g.edge_table w.by_key;
}

pub remove_edge-IsWellFormed :
    (g : Graph) (src_id : String) (kind : EdgeKind) (dst_id : String)
    → IsWellFormed g
    → IsWellFormed (remove_edge g src_id kind dst_id)
unfolding remove_edge
remove_edge-IsWellFormed g src_id kind dst_id w = record {
  by_id = w.by_id;
  by_key = remove-IsKeyedBy key g.edge_table _ w.by_key;
}

upsert_node-table :
    (g h : Graph) (n m : Node)
    → upsert_node g n ≡ ok (h, m)
    → IsWellFormed g
    → (h ≡ record g { nodes = put g.nodes n.id m }) × (m.id ≡ n.id)
unfolding upsert_node
upsert_node-table g h n m p w = elim (Option-cases (get g.nodes n.id)) [
  | inl e ↦ ground arith
  | inr (old, e) ↦ ground (arith, w.by_id.named n.id old e)
]

pub upsert_node-IsWellFormed :
    (g h : Graph) (n m : Node) → upsert_node g n ≡ ok (h, m) → IsWellFormed g → IsWellFormed h
upsert_node-IsWellFormed g h n m p w =
    let (e, same) = upsert_node-table g h n m p w in
    rw e (record { by_id = put-IsKeyedBy id_of g.nodes n.id m same w.by_id; by_key = w.by_key })

upsert_edge-table :
    (g : Graph) (e : Edge)
    → IsWellFormed g
    → (m : Edge) × ((upsert_edge g e).0 ≡ record g { edge_table = put g.edge_table (key e) m })
      × (key m ≡ key e)
unfolding upsert_edge
upsert_edge-table g e w = elim (Option-cases (get g.edge_table (key e))) [
  | inl none_there ↦ (e, rw (none_there, upsert_edge), refl)
  | inr (old, there) ↦ (merge_edge old e, rw (there, upsert_edge), w.by_key.named (key e) old there)
]

pub upsert_edge-IsWellFormed :
    (g : Graph) (e : Edge) → IsWellFormed g → IsWellFormed (upsert_edge g e).0
upsert_edge-IsWellFormed g e w =
    let (m, p, same) = upsert_edge-table g e w in
    rw p
      (record { by_id = w.by_id; by_key = put-IsKeyedBy key g.edge_table (key e) m same w.by_key })
