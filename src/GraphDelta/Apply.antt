-- ===== src/GraphDelta/Apply.antt =====
-- The four loops of `apply_graph_delta` over a lawful store, key by key.
use graphrag_aws_template.Prelude.{
  ◌≡◌, refl, sym, ◌∙◌, ap, String, Bool, not, ◌&&◌, Option, none, some, List, [], ◌∷◌, map, arith,
  Eq, string_eq, pair_eq, contains, keep, Option-cases, inl, inr, if◌then◌else◌,
}
use graphrag_aws_template.Prelude.Dicts.{Dict, get, put, put_all, index_by, get-put}
use graphrag_aws_template.Prelude.Dicts.Entries.{first_of_two, filter_some}
use graphrag_aws_template.Model.{Node, Edge, EdgeKey, key, spared}
use graphrag_aws_template.Model.WellFormed.{id_of}
use graphrag_aws_template.Store.{GraphStore, IsLawful, edge_at}
use graphrag_aws_template.GraphDelta.{each, outside, EdgeId}
use graphrag_aws_template.GraphDelta.EdgeDecisions.{id_key}
use graphrag_aws_template.GraphDelta.Plan.{last_named}

module _ {ℓ κ} {K : Type ℓ} {V : Type κ} ⦃e : Eq K⦄ (key_of : V → K) where
  get-put_all :
      (vs : List V) (d : Dict K V) (k : K)
      → get (put_all key_of d vs) k ≡ first_of_two (last_named key_of k vs) (get d k)
  unfolding put_all last_named
  get-put_all [] d k = refl
  get-put_all (v ∷ vs) d k =
      ground (arith, get-put_all vs (put d (key_of v) v) k, get-put d (key_of v) k v)

  -- an index by key finds the last row with the key
  pub get-index_by_last :
      (vs : List V) (k : K) → get (index_by key_of vs) k ≡ last_named key_of k vs
  unfolding index_by
  get-index_by_last vs k = unfold get in ground (arith, get-put_all vs [] k)

  last_named-key : (vs : List V) (k : K) (v : V) → last_named key_of k vs ≡ some v → key_of v ≡ k
  unfolding last_named
  last_named-key [] k v h = cc
  last_named-key (w ∷ vs) k v h = ground (arith, last_named-key vs k v, e.beq_iff (key_of w) k)

  -- a filter that reads only the key
  last_named-keep :
      (p : V → Bool) (q : K → Bool)
      → ((v : V) → p v ≡ q (key_of v))
      → (vs : List V) (k : K)
      → last_named key_of k (keep p vs) ≡ filter_some p (last_named key_of k vs)
  unfolding last_named keep
  last_named-keep p q reads [] k = refl
  last_named-keep p q reads (v ∷ vs) k = elim (Option-cases (last_named key_of k vs)) [
    | inl absent ↦ ground (arith, last_named-keep p q reads vs k)
    | inr (w, there) ↦ ground (
      arith,
      last_named-keep p q reads vs k,
      last_named-key vs k w there,
      reads w,
      reads v,
      e.beq_iff (key_of v) k,
      ap q (last_named-key vs k w there),
    )
  ]

outside_key : (deleted : List String) → EdgeKey → Bool
outside_key deleted k = not (contains deleted k.0) && not (contains deleted k.1.1)

outside-outside_key :
    (deleted : List String) (e : Edge) → outside deleted e ≡ outside_key deleted (key e)
unfolding outside_key key
outside-outside_key deleted e = refl

module _ (S : GraphStore) where
  -- the table of the plan: the store's edges outside the deleted nodes
  pub edge_table_lem :
      (s : S.State) (deleted : List String) (k : EdgeKey)
      → get (index_by key (keep (outside deleted) (S.all_edges s))) k
        ≡ filter_some (outside deleted) (edge_at S s k)
  edge_table_lem s deleted k =
      get-index_by_last key (keep (outside deleted) (S.all_edges s)) k
      ∙ last_named-keep key (outside deleted) (outside_key deleted) (outside-outside_key deleted)
          (S.all_edges s) k
      ∙ ap (filter_some (outside deleted)) (sym (get-index_by_last key (S.all_edges s) k))

filter_spared :
    (ids : List String) (i : String) (o : Option Edge)
    → filter_some (outside ids) (filter_some (spared i) o) ≡ filter_some (outside (i ∷ ids)) o
unfolding contains
filter_spared ids i none = refl
filter_spared ids i (some e) = ground (
  arith,
  string_eq.beq_iff i e.src_id,
  string_eq.beq_iff e.src_id i,
  string_eq.beq_iff i e.dst_id,
  string_eq.beq_iff e.dst_id i,
)

abbrev pub drop_edge : (S : GraphStore) → S.State → EdgeId → S.State
drop_edge S t (i, kind, j) = S.delete_edge t i kind j

module _ (S : GraphStore) (L : IsLawful S) where
  pub get-each-delete_node :
      (ids : List String) (s : S.State) (j : String)
      → S.get_node (each S S.delete_node s ids) j
        ≡ (if contains ids j then none else S.get_node s j)
  unfolding each contains
  get-each-delete_node [] s j = refl
  get-each-delete_node (i ∷ ids) s j =
      ground (arith, get-each-delete_node ids (S.delete_node s i) j, L.get-delete_node s i j)

  pub get-each-replace_node :
      (ns : List Node) (s : S.State) (j : String)
      → S.get_node (each S S.replace_node s ns) j
        ≡ first_of_two (last_named id_of j ns) (S.get_node s j)
  unfolding each last_named
  get-each-replace_node [] s j = refl
  get-each-replace_node (n ∷ ns) s j =
      ground (arith, get-each-replace_node ns (S.replace_node s n) j, L.get-replace_node s n j)

  pub get-each-drop_edge :
      (xs : List EdgeId) (s : S.State) (j : String)
      → S.get_node (each S (drop_edge S) s xs) j ≡ S.get_node s j
  unfolding each
  get-each-drop_edge [] s j = refl
  get-each-drop_edge ((a, k, b) ∷ xs) s j =
      get-each-drop_edge xs (S.delete_edge s a k b) j ∙ L.get-delete_edge s a k b j

  pub get-each-replace_edge :
      (es : List Edge) (s : S.State) (j : String)
      → S.get_node (each S S.replace_edge s es) j ≡ S.get_node s j
  unfolding each
  get-each-replace_edge [] s j = refl
  get-each-replace_edge (e ∷ es) s j =
      get-each-replace_edge es (S.replace_edge s e) j ∙ L.get-replace_edge s e j

  pub each-IsValid {ℓ} :
      {A : Type ℓ} (f : S.State → A → S.State)
      → ((s : S.State) (a : A) → L.IsValid s → L.IsValid (f s a))
      → (xs : List A) (s : S.State) → L.IsValid s
      → L.IsValid (each S f s xs)
  unfolding each
  each-IsValid f keeps [] s v = v
  each-IsValid f keeps (x ∷ xs) s v = each-IsValid f keeps xs (f s x) (keeps s x v)

  pub edge_at-each-delete_node :
      (ids : List String) (s : S.State) (k : EdgeKey)
      → L.IsValid s
      → edge_at S (each S S.delete_node s ids) k ≡ filter_some (outside ids) (edge_at S s k)
  unfolding each contains
  edge_at-each-delete_node [] s k v = ground arith
  edge_at-each-delete_node (i ∷ ids) s k v =
      edge_at-each-delete_node ids (S.delete_node s i) k (L.delete_node-IsValid s i v)
      ∙ ap (filter_some (outside ids)) (L.edge_at-delete_node s i k v)
      ∙ filter_spared ids i (edge_at S s k)

  pub edge_at-each-replace_node :
      (ns : List Node) (s : S.State) (k : EdgeKey)
      → L.IsValid s
      → edge_at S (each S S.replace_node s ns) k ≡ edge_at S s k
  unfolding each
  edge_at-each-replace_node [] s k v = refl
  edge_at-each-replace_node (n ∷ ns) s k v =
      edge_at-each-replace_node ns (S.replace_node s n) k (L.replace_node-IsValid s n v)
      ∙ L.edge_at-replace_node s n k v

  pub edge_at-each-drop_edge :
      (xs : List EdgeId) (s : S.State) (k : EdgeKey)
      → L.IsValid s
      → edge_at S (each S (drop_edge S) s xs) k
        ≡ (if contains (map id_key xs) k then none else edge_at S s k)
  unfolding each contains
  edge_at-each-drop_edge [] s k v = refl
  edge_at-each-drop_edge ((a, kind, b) ∷ xs) s k v = ground (
    arith,
    edge_at-each-drop_edge xs (S.delete_edge s a kind b) k (L.delete_edge-IsValid s a kind b v),
    L.edge_at-delete_edge s a kind b k v,
  )

  pub edge_at-each-replace_edge :
      (es : List Edge) (s : S.State) (k : EdgeKey)
      → L.IsValid s
      → edge_at S (each S S.replace_edge s es) k
        ≡ first_of_two (last_named key k es) (edge_at S s k)
  unfolding each last_named
  edge_at-each-replace_edge [] s k v = refl
  edge_at-each-replace_edge (e ∷ es) s k v = ground (
    arith,
    edge_at-each-replace_edge es (S.replace_edge s e) k (L.replace_edge-IsValid s e v),
    L.edge_at-replace_edge s e k v,
  )
