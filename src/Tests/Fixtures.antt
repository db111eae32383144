-- ===== src/Tests/Fixtures.antt =====
-- The rows, the graph and the orders of iteration that the tests share.
use graphrag_aws_template.Prelude.{List, [], ◌∷◌, refl, String, string_eq, pair_eq}
use graphrag_aws_template.Model.{
  sig, person, kep, chairs, owns, Node, Edge, Graph, empty, text, set_node, set_edge,
}
use graphrag_aws_template.Model.WellFormed.{
  IsWellFormed, empty-IsWellFormed, set_node-IsWellFormed, set_edge-IsWellFormed,
}
use graphrag_aws_template.GraphDelta.{NodeOrder, EdgeOrder}

abbrev pub as_listed : NodeOrder
as_listed = record { listed = λ xs. xs; same = λ xs a. refl }

abbrev pub edges_as_listed : EdgeOrder
edges_as_listed = record { listed = λ xs. xs; same = λ xs a. refl }

abbrev pub sig_node : Node
sig_node = record {
  id = "sig:node";
  kind = sig;
  props = ("visibility", text "public") ∷ [];
  sources = "community" ∷ [];
  doc_paths = "community/sigs.yaml" ∷ [];
}

abbrev pub alice : Node
alice = record {
  id = "person:alice";
  kind = person;
  props = ("name", text "Alice") ∷ ("visibility", text "internal") ∷ [];
  sources = "community" ∷ [];
  doc_paths = "community/sigs.yaml" ∷ "enhancements/kep-1.yaml" ∷ [];
}

abbrev pub kep_one : Node
kep_one = record {
  id = "kep:1";
  kind = kep;
  props = ("visibility", text "public") ∷ [];
  sources = "enhancements" ∷ [];
  doc_paths = "enhancements/kep-1.yaml" ∷ [];
}

abbrev pub alice_chairs : Edge
alice_chairs = record {
  src_id = "person:alice";
  dst_id = "sig:node";
  kind = chairs;
  props = ("visibility", text "internal") ∷ [];
  sources = "community" ∷ [];
  doc_paths = "community/sigs.yaml" ∷ [];
}

abbrev pub sig_owns : Edge
sig_owns = record {
  src_id = "sig:node";
  dst_id = "kep:1";
  kind = owns;
  props = [];
  sources = "enhancements" ∷ [];
  doc_paths = "enhancements/kep-1.yaml" ∷ [];
}

abbrev pub organisation : Graph
organisation =
    set_edge (set_edge (set_node (set_node (set_node empty sig_node) alice) kep_one) alice_chairs)
      sig_owns

pub organisation-IsWellFormed : IsWellFormed organisation
organisation-IsWellFormed = set_edge-IsWellFormed _ sig_owns (
    set_edge-IsWellFormed _ alice_chairs (
      set_node-IsWellFormed _ kep_one
        (set_node-IsWellFormed _ alice (set_node-IsWellFormed empty sig_node empty-IsWellFormed))))

-- the row of a document that names Alice again
abbrev pub alice_again : Node
alice_again = record {
  id = "person:alice";
  kind = person;
  props = ("name", text "Alice B.") ∷ [];
  sources = "community" ∷ [];
  doc_paths = "community/readme.md" ∷ [];
}

abbrev pub extracted : Graph
extracted = set_node empty alice_again

pub extracted-IsWellFormed : IsWellFormed extracted
extracted-IsWellFormed = set_node-IsWellFormed empty alice_again empty-IsWellFormed

-- the document that is withdrawn
abbrev pub withdrawn : List String
withdrawn = "enhancements/kep-1.yaml" ∷ []
