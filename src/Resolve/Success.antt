-- ===== src/Resolve/Success.antt =====
-- resolve.py: the runs of `resolve` that raise no error, in terms of the rows' kinds.
use graphrag_aws_template.Prelude.{
  ◌≡◌, ◌↔◌, refl, sym, ◌∙◌, String, Option, none, some, List, [], ◌∷◌, arith, string_eq, ◌==◌,
  Option-cases, Bool-cases, inl, inr, pair_eq, All,
}
use graphrag_aws_template.Prelude.Dicts.{get}
use graphrag_aws_template.Model.{EntityKind, sig, Node, Edge, Graph, empty, ok, merge_node}
use graphrag_aws_template.Model.Merge.{kind_or, merged_node, with_merged, upsert_node-ok}
use graphrag_aws_template.Resolve.{upsert_nodes, upsert_edges, build_graph}
use graphrag_aws_template.Resolve.Provenance.{upsert_nodes-cons, get-with_merged, build_graph-nodes}

-- Every row has the kind that an assignment of kinds to ids gives its id.
abbrev pub IsKinded : (String → EntityKind) → List Node → Type 0
IsKinded kind_of rows = All (λ n. n.kind ≡ kind_of n.id) rows

abbrev TableKinded : (String → EntityKind) → Graph → Type 0
TableKinded kind_of g = (id : String) (n : Node) → get g.nodes id ≡ some n → n.kind ≡ kind_of id

merged_kind :
    (kind_of : String → EntityKind) (g : Graph) (n : Node)
    → TableKinded kind_of g
    → n.kind ≡ kind_of n.id
    → ((merged_node (get g.nodes n.id) n).kind ≡ kind_of n.id)
      × (kind_or n.kind (get g.nodes n.id) ≡ n.kind)
unfolding merge_node
merged_kind kind_of g n kinded row = elim (Option-cases (get g.nodes n.id)) [
  | inl e ↦ rw e (row, refl)
  | inr (old, e) ↦ rw e (kinded n.id old e, kinded n.id old e ∙ sym row)
]

with_merged-kinds :
    (kind_of : String → EntityKind) (g : Graph) (n : Node)
    → TableKinded kind_of g
    → n.kind ≡ kind_of n.id
    → TableKinded kind_of (with_merged g n)
with_merged-kinds kind_of g n kinded row id m e = ground (
  arith,
  get-with_merged g n id,
  string_eq.beq_iff n.id id,
  kinded id m,
  (merged_kind kind_of g n kinded row).0,
)

upsert_nodes-succeeds :
    (kind_of : String → EntityKind) (rows : List Node) (g : Graph)
    → TableKinded kind_of g
    → IsKinded kind_of rows
    → (h : Graph) × (upsert_nodes g rows ≡ ok h)
unfolding upsert_nodes
upsert_nodes-succeeds kind_of [] g kinded rows_kinded = (g, refl)
upsert_nodes-succeeds kind_of (n ∷ rows) g kinded rows_kinded =
    let after = with_merged-kinds kind_of g n kinded rows_kinded.0 in
    let agree = (merged_kind kind_of g n kinded rows_kinded.0).1 in
    let (h, e) = upsert_nodes-succeeds kind_of rows (with_merged g n) after rows_kinded.1 in
    (h, rw (upsert_node-ok g n agree, upsert_nodes) e)

-- The kind of a row that is there is kept.
upsert_nodes-kind :
    (rows : List Node) (g h : Graph) (id : String) (k : EntityKind) (n : Node)
    → upsert_nodes g rows ≡ ok h
    → get g.nodes id ≡ some n
    → kind_or k (get h.nodes id) ≡ n.kind
unfolding upsert_nodes merge_node
upsert_nodes-kind [] g h id k n done here = ground arith
upsert_nodes-kind (r ∷ rows) g h id k n done here =
    let (rest, agree) = upsert_nodes-cons g h r rows done in
    elim (Bool-cases (r.id == id)) [
      | inl same ↦
          upsert_nodes-kind rows (with_merged g r) h id k (merge_node n r) rest
            (ground (arith, get-with_merged g r id, string_eq.beq_iff r.id id))
      | inr other ↦
          upsert_nodes-kind rows (with_merged g r) h id k n rest
            (ground (arith, get-with_merged g r id))
    ]

kind-merged_node :
    (o : Option Node) (n : Node) → kind_or n.kind o ≡ n.kind → (merged_node o n).kind ≡ n.kind
unfolding merge_node
kind-merged_node none n h = refl
kind-merged_node (some old) n h = h

upsert_nodes-IsKinded :
    (k : EntityKind) (rows : List Node) (g h : Graph)
    → upsert_nodes g rows ≡ ok h
    → IsKinded (λ id. kind_or k (get h.nodes id)) rows
unfolding upsert_nodes
upsert_nodes-IsKinded k [] g h done = tt
upsert_nodes-IsKinded k (n ∷ rows) g h done =
    let (rest, agree) = upsert_nodes-cons g h n rows done in
    let m = merged_node (get g.nodes n.id) n in
    let kept : kind_or k (get h.nodes n.id) ≡ m.kind =
      upsert_nodes-kind rows (with_merged g n) h n.id k m rest
        (ground (arith, get-with_merged g n n.id, string_eq.beq_iff n.id n.id)) in
    (
      sym (kept ∙ kind-merged_node (get g.nodes n.id) n agree),
      upsert_nodes-IsKinded k rows (with_merged g n) h rest,
    )

-- Resolution succeeds exactly when the kinds of the rows follow from their ids. (Otherwise it raises
-- the `ValueError` of a node id that is reused across kinds.)
pub build_graph-succeeds :
    (nodes : List Node) (edges : List Edge)
    → ((g : Graph) × (build_graph nodes edges ≡ ok g))
      ↔ ((kind_of : String → EntityKind) × IsKinded kind_of nodes)
unfolding build_graph get
build_graph-succeeds nodes edges = (
  λ done.
      let (h, e, same) = build_graph-nodes nodes edges done.0 done.1 in
      (_, upsert_nodes-IsKinded sig nodes empty h e),
  λ kinded.
      let (h, e) = upsert_nodes-succeeds kinded.0 nodes empty (λ id n p. cc) kinded.1 in
      (upsert_edges h edges, rw (e, build_graph)),
)
