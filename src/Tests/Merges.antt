-- ===== src/Tests/Merges.antt =====
-- The resolution of rows that name one person in two documents.
use graphrag_aws_template.Prelude.{any}
use graphrag_aws_template.Prelude.{keep}
use graphrag_aws_template.Model.{edge_value}
use graphrag_aws_template.Prelude.Sets.{union}
use graphrag_aws_template.Prelude.Dicts.{set_defaults}
use graphrag_aws_template.Model.{entity_value}
use graphrag_aws_template.Prelude.Dicts.{put}
use graphrag_aws_template.Prelude.{◌≡◌, ◌↔◌, refl, String, true, false, List, [], ◌∷◌, contains}
use graphrag_aws_template.Prelude.Dicts.{get}
use graphrag_aws_template.Model.{Node, Graph, ok, EntityKind}
use graphrag_aws_template.Model.WellFormed.{IsWellFormed}
use graphrag_aws_template.Resolve.{build_graph}
use graphrag_aws_template.Resolve.Provenance
use graphrag_aws_template.Resolve.Provenance.{named_by}
use graphrag_aws_template.Resolve.Success
use graphrag_aws_template.Resolve.Success.{IsKinded}
use graphrag_aws_template.Resolve.Tables
use graphrag_aws_template.Tests.Fixtures.{alice, alice_again, sig_node, alice_chairs}

abbrev rows : List Node
rows = alice ∷ sig_node ∷ alice_again ∷ []

abbrev alice_merged : Node
alice_merged = record alice {
  doc_paths = "community/sigs.yaml" ∷ "enhancements/kep-1.yaml" ∷ "community/readme.md" ∷ [];
}

abbrev resolved : Graph
resolved = record {
  nodes = ("person:alice", alice_merged) ∷ ("sig:node", sig_node) ∷ [];
  edge_table = (("person:alice", ("CHAIRS", "sig:node")), alice_chairs) ∷ [];
}

built : build_graph rows (alice_chairs ∷ []) ≡ ok resolved
unfolding build_graph get put entity_value set_defaults union edge_value keep contains
built = refl

build_graph-provenance_example :
    (true ≡ true)
    × (true ≡ named_by (λ n. n.doc_paths) rows "person:alice" "community/readme.md")
    × (false ≡ named_by (λ n. n.sources) rows "person:alice" "community/readme.md")
unfolding get any contains
build_graph-provenance_example =
    Provenance.build_graph-provenance rows (alice_chairs ∷ []) resolved "person:alice"
      "community/readme.md" built

build_graph-succeeds_example :
    ((g : Graph) × (build_graph rows (alice_chairs ∷ []) ≡ ok g))
    ↔ ((kind_of : String → EntityKind) × IsKinded kind_of rows)
build_graph-succeeds_example = Success.build_graph-succeeds rows (alice_chairs ∷ [])

build_graph-IsWellFormed_example : IsWellFormed resolved
build_graph-IsWellFormed_example =
    Tables.build_graph-IsWellFormed rows (alice_chairs ∷ []) resolved built
