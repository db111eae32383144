-- ===== src/GraphDelta/Reconcile.antt =====
-- graphdelta.py, the helpers: what one row becomes, and whether that changes it.
use Prim.Native.Char.{code}
use graphrag_aws_template.Prelude.{
  ◌==◌, leb, String, string_eq, pair_eq, Bool, false, ◌&&◌, Option, none, some, List, [], map, all,
  if◌then◌else◌,
}
use graphrag_aws_template.Prelude.Sets.{union, difference, dedupe, set_eq}
use graphrag_aws_template.Prelude.Dicts.{get, update}
use graphrag_aws_template.Model.{Node, Edge, entity_eq, Props, Value, value_eq}

-- did.split("/", 1)[0]
unfoldable pub source_tag : String → String
source_tag String.[] = ""
source_tag (String.◌∷◌ c s) =
    let rest = source_tag s in if leb 47 (code c) && leb (code c) 47 then "" else String.◌∷◌ c rest

-- `_sources_of`
unfoldable pub sources_of : List String → List String
unfolding source_tag dedupe
sources_of doc_paths = dedupe (map source_tag doc_paths)

-- the value is the one under the key
abbrev pub holds : Props → String × Value → Bool
holds e (name, v) = elim (get e name) [ none ↦ false | some w ↦ w == v ]

-- d == e: the same entries, in whatever order
unfoldable pub dict_eq : Props → Props → Bool
unfolding all get
dict_eq d e = all (holds e) d && all (holds d) e

abbrev pub kept : Option (List String) → List String → List String
kept none removed_ids = []
kept (some doc_paths) removed_ids = difference doc_paths removed_ids

abbrev pub or_empty : Option (List String) → List String
or_empty none = []
or_empty (some doc_paths) = doc_paths

-- (store.doc_paths - removed_ids if store else set()) | (scratch.doc_paths if scratch else set())
abbrev pub surviving_of : Option (List String) → Option (List String) → List String → List String
surviving_of old new removed_ids = union (kept old removed_ids) (or_empty new)

abbrev pub docs_of : Option Node → Option (List String)
docs_of none = none
docs_of (some n) = some n.doc_paths

abbrev pub edge_docs_of : Option Edge → Option (List String)
edge_docs_of none = none
edge_docs_of (some e) = some e.doc_paths

-- `scratch_node or store_node`
abbrev pub or_else {ℓ} : {A : Type ℓ} → Option A → Option A → Option A
or_else (some a) o = some a
or_else none o = o

abbrev pub node_props : Option Node → Option Node → Props
node_props none none = []
node_props (some old) none = old.props
node_props none (some new) = update [] new.props
node_props (some old) (some new) = update old.props new.props

abbrev pub edge_props : Option Edge → Option Edge → Props
edge_props none none = []
edge_props (some old) none = old.props
edge_props none (some new) = update [] new.props
edge_props (some old) (some new) = update old.props new.props

-- `none` is the `ValueError` of two absent rows
unfoldable pub reconcile_node : Option Node → Option Node → List String → Option Node
unfolding sources_of update
reconcile_node store_node scratch_node surviving = elim (or_else scratch_node store_node) [
  | none ↦ none
  | some ref ↦ some (record {
    id = ref.id;
    kind = ref.kind;
    props = node_props store_node scratch_node;
    sources = sources_of surviving;
    doc_paths = surviving;
  })
]

unfoldable pub reconcile_edge : Option Edge → Option Edge → List String → Option Edge
unfolding sources_of update
reconcile_edge store_edge scratch_edge surviving = elim (or_else scratch_edge store_edge) [
  | none ↦ none
  | some ref ↦ some (record {
    src_id = ref.src_id;
    dst_id = ref.dst_id;
    kind = ref.kind;
    props = edge_props store_edge scratch_edge;
    sources = sources_of surviving;
    doc_paths = surviving;
  })
]

unfoldable pub node_unchanged : Node → Node → Bool
unfolding set_eq dict_eq
node_unchanged store_node target =
    (store_node.kind == target.kind)
    && (set_eq store_node.doc_paths target.doc_paths
        && (set_eq store_node.sources target.sources && dict_eq store_node.props target.props))

unfoldable pub edge_unchanged : Edge → Edge → Bool
unfolding set_eq dict_eq
edge_unchanged store_edge target =
    set_eq store_edge.doc_paths target.doc_paths
    && (set_eq store_edge.sources target.sources && dict_eq store_edge.props target.props)
