-- ===== src/Tests/States.antt =====
-- A state with one document at each of two stages, and the manifest of its documents.
use graphrag_aws_template.Prelude.{contains}
use graphrag_aws_template.Prelude.Dicts.{keys}
use graphrag_aws_template.Prelude.{◌≡◌, refl, String, string_eq, some, none, [], ◌∷◌}
use graphrag_aws_template.Prelude.Dicts.{Dict, get}
use graphrag_aws_template.Model.{Value}
use graphrag_aws_template.Delta.{Manifest}
use graphrag_aws_template.State.{
  IngestState, silver, gold, from_json, to_json, object, manifest_to_json, as_manifest, cold,
}
use graphrag_aws_template.State.Roundtrip

abbrev repr : Dict String Value → String
repr d = "{}"

abbrev state : IngestState
state = record {
  docs =
      (
        "b.md",
        record {
          content_hash = "h2";
          stage = silver;
          silver_chunks = some "silver/b";
          silver_candidates = none;
        },
      )
      ∷ (
        "a.md",
        record {
          content_hash = "h1";
          stage = gold;
          silver_chunks = some "silver/a";
          silver_candidates = some "candidates/a";
        },
      )
      ∷ [];
  fingerprints = ("embedder", "v1") ∷ [];
  ingested_commit = none;
  version = 2;
}

from_json-to_json_example :
    (t : IngestState) × (from_json repr (object (to_json state)) ≡ some t)
    × ((doc_id : String) → get t.docs doc_id ≡ get state.docs doc_id)
    × ((name : String) → get t.fingerprints name ≡ get state.fingerprints name)
    × (t.ingested_commit ≡ none)
unfolding keys contains
from_json-to_json_example =
    Roundtrip.from_json-to_json repr state refl (refl, (refl, tt)) (refl, tt)

abbrev manifest : Manifest
manifest = ("b.md", "h2") ∷ ("a.md", "h1") ∷ []

from_json-manifest_to_json_example :
    (t : IngestState) × (from_json repr (object (manifest_to_json manifest)) ≡ some t)
    × ((doc_id : String) → get (as_manifest t) doc_id ≡ get manifest doc_id)
    × ((doc_id h : String) → get manifest doc_id ≡ some h → get t.docs doc_id ≡ some (cold h))
unfolding keys contains
from_json-manifest_to_json_example =
    Roundtrip.from_json-manifest_to_json repr manifest (refl, (refl, tt))
