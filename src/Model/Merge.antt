-- ===== src/Model/Merge.antt =====
-- model.py: the merge of `upsert_node` and `upsert_edge`, field by field.
use graphrag_aws_template.Prelude.{
  ◌≡◌, refl, String, ◌||◌, Option, none, some, List, [], arith, string_eq, Option-cases, inl, inr,
  pair_eq, contains,
}
use graphrag_aws_template.Prelude.Sets.{contains-union}
use graphrag_aws_template.Prelude.Dicts.{get, put}
use graphrag_aws_template.Prelude.Dicts.Entries.{first_of_two, get-set_defaults}
use graphrag_aws_template.Model.{
  EntityKind, Node, Edge, Graph, key, ok, entity_eq, merge_node, upsert_node, merge_edge,
  upsert_edge, Props,
}

-- a set of a row, and the empty set where there is no row
abbrev pub set_of {ℓ} : {A : Type ℓ} → (A → List String) → Option A → List String
set_of f none = []
set_of f (some a) = f a

abbrev pub props_of {ℓ} : {A : Type ℓ} → (A → Props) → Option A → Props
props_of f none = []
props_of f (some a) = f a

-- the row that an upsert leaves
abbrev pub merged_node : Option Node → Node → Node
merged_node none n = n
merged_node (some old) n = merge_node old n

abbrev pub merged_edge : Option Edge → Edge → Edge
merged_edge none e = e
merged_edge (some old) e = merge_edge old e

-- the kind that is there, or the new one
abbrev pub kind_or : EntityKind → Option Node → EntityKind
kind_or k none = k
kind_or k (some n) = n.kind

-- the graph with its row for the id of `n`
abbrev pub with_merged : Graph → Node → Graph
with_merged g n = record g { nodes = put g.nodes n.id (merged_node (get g.nodes n.id) n) }

-- An upsert that succeeds merges the row, and the kinds agreed.
pub upsert_node_lem :
    (g h : Graph) (n m : Node)
    → upsert_node g n ≡ ok (h, m)
    → (h ≡ with_merged g n) × (kind_or n.kind (get g.nodes n.id) ≡ n.kind)
unfolding upsert_node
upsert_node_lem g h n m done = elim (Option-cases (get g.nodes n.id)) [
  | inl e ↦ ground arith
  | inr (old, e) ↦ ground (arith, entity_eq.beq_iff old.kind n.kind)
]

-- An upsert succeeds when the kinds agree.
pub upsert_node-ok :
    (g : Graph) (n : Node)
    → kind_or n.kind (get g.nodes n.id) ≡ n.kind
    → upsert_node g n ≡ ok (with_merged g n, merged_node (get g.nodes n.id) n)
unfolding upsert_node
upsert_node-ok g n h = elim (Option-cases (get g.nodes n.id)) [
  | inl e ↦ ground arith
  | inr (old, e) ↦ ground (arith, entity_eq.beq_iff old.kind n.kind)
]

pub upsert_edge_lem :
    (g : Graph) (e : Edge)
    → (upsert_edge g e).0 ≡ record g {
      edge_table = put g.edge_table (key e) (merged_edge (get g.edge_table (key e)) e);
    }
unfolding upsert_edge
upsert_edge_lem g e = ground arith

pub docs-merged_node :
    (o : Option Node) (n : Node) (p : String)
    → contains (merged_node o n).doc_paths p
      ≡ (contains (set_of (λ x. x.doc_paths) o) p || contains n.doc_paths p)
unfolding merge_node contains
docs-merged_node none n p = refl
docs-merged_node (some old) n p = contains-union old.doc_paths n.doc_paths p

pub sources-merged_node :
    (o : Option Node) (n : Node) (p : String)
    → contains (merged_node o n).sources p
      ≡ (contains (set_of (λ x. x.sources) o) p || contains n.sources p)
unfolding merge_node contains
sources-merged_node none n p = refl
sources-merged_node (some old) n p = contains-union old.sources n.sources p

-- Of two rows with one name of a prop, the earlier keeps its value.
pub props-merged_node :
    (o : Option Node) (n : Node) (name : String)
    → get (merged_node o n).props name
      ≡ first_of_two (get (props_of (λ x. x.props) o) name) (get n.props name)
unfolding merge_node get
props-merged_node none n name = refl
props-merged_node (some old) n name = get-set_defaults old.props n.props name

pub docs-merged_edge :
    (o : Option Edge) (e : Edge) (p : String)
    → contains (merged_edge o e).doc_paths p
      ≡ (contains (set_of (λ x. x.doc_paths) o) p || contains e.doc_paths p)
unfolding merge_edge contains
docs-merged_edge none e p = refl
docs-merged_edge (some old) e p = contains-union old.doc_paths e.doc_paths p

pub props-merged_edge :
    (o : Option Edge) (e : Edge) (name : String)
    → get (merged_edge o e).props name
      ≡ first_of_two (get (props_of (λ x. x.props) o) name) (get e.props name)
unfolding merge_edge get
props-merged_edge none e name = refl
props-merged_edge (some old) e name = get-set_defaults old.props e.props name
