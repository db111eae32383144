-- ===== src/Tests/Grounded.antt =====
-- Candidate triples over the fixtures' graph, whose texts are in lower case.
use graphrag_aws_template.Prelude.{
  ◌≡◌, refl, string_eq, pair_eq, true, all, some, All, List, [], ◌∷◌, contains,
}
use graphrag_aws_template.Prelude.Dicts.{get}
use graphrag_aws_template.Normalize.{Unicode}
use graphrag_aws_template.Model.{Graph, Node, kep, chairs, edge_eq, edge_value, set_node}
use graphrag_aws_template.Resolve.{upsert_edges}
use graphrag_aws_template.Extraction.{CandidateTriple, extraction_schema}
use graphrag_aws_template.Extraction.Guided.{ground_candidates}
use graphrag_aws_template.Extraction.Fitting
use graphrag_aws_template.Extraction.Fitting.{Fits}
use graphrag_aws_template.Extraction.Spared
use graphrag_aws_template.Tests.Fixtures.{organisation}

abbrev pub plain : Unicode
plain = record {
  lower = λ s. s;
  is_digit = λ s. true;
  int_text = λ s. some s;
  int_text_some = λ s h. refl;
}

abbrev kep_two : Node
kep_two = record {
  id = "kep-2";
  kind = kep;
  props = [];
  sources = [];
  doc_paths = "enhancements/kep-2.md" ∷ [];
}

abbrev two_keps : Graph
two_keps = set_node (set_node organisation kep_two) (record kep_two { id = "kep-1" })

abbrev depends : CandidateTriple
depends = record {
  subject = " kep-2 ";
  predicate = "DEPENDS_ON";
  object = "1";
  source_doc = "enhancements/kep-2.md";
  span = "builds on KEP 1";
}

abbrev authored : CandidateTriple
authored = record depends { predicate = "AUTHORS" }

abbrev triples : List CandidateTriple
triples = depends ∷ authored ∷ record depends { object = "kep-9" } ∷ []

ground_candidates_sound_example :
    All
      (Fits two_keps extraction_schema)
      (ground_candidates plain triples two_keps extraction_schema []).1
ground_candidates_sound_example =
    Fitting.ground_candidates_sound plain triples two_keps extraction_schema []

ground_candidates-spares_example :
    let after =
      upsert_edges two_keps (ground_candidates plain triples two_keps extraction_schema []).1 in
    get after.edge_table ("person:alice", (edge_value chairs, "sig:node"))
    ≡ get two_keps.edge_table ("person:alice", (edge_value chairs, "sig:node"))
ground_candidates-spares_example =
    Spared.ground_candidates-spares plain triples two_keps two_keps extraction_schema [] chairs
      "person:alice" "sig:node" (unfold extraction_schema all contains edge_value in refl)
      (unfold contains edge_value in refl)
