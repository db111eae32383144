-- ===== src/State/Roundtrip.antt =====
-- state.py and delta.py: envelopes that are written and read again.
use graphrag_aws_template.Prelude.{
  ◌≡◌, refl, ◌∙◌, ap, String, some, [], ◌∷◌, arith, string_eq, Distinct,
}
use graphrag_aws_template.Prelude.Dicts.{Dict, get, keys}
use graphrag_aws_template.Prelude.Sorting.{sorted}
use graphrag_aws_template.Model.{Value, text, str}
use graphrag_aws_template.Delta.{Manifest}
use graphrag_aws_template.State.{
  IngestState, as_manifest, item_order, ingest_state_version, initial_state, from_json, to_json,
  object, manifest_to_json, manifest_from_json, map_dict, cold, plain, upgrade_v1_docs, entry_str,
}
use graphrag_aws_template.State.Entries.{
  read_docs-map_dict, opt_str-opt_value, map_dict-id, get-sorted,
}

-- The state with its two dicts sorted.
abbrev sorted_state : IngestState → IngestState
sorted_state state = record state {
  docs = sorted state.docs;
  fingerprints = sorted state.fingerprints;
}

from_json-sorted :
    (repr : Dict String Value → String) (state : IngestState)
    → state.version ≡ ingest_state_version
    → from_json repr (object (to_json state)) ≡ some (sorted_state state)
unfolding from_json to_json
from_json-sorted repr state v = ground (
  arith,
  read_docs-map_dict (sorted state.docs),
  opt_str-opt_value state.ingested_commit,
  map_dict-id text str (sorted state.fingerprints),
)

-- A state of the current version whose dicts have no key twice is read back from its envelope, with
-- the same entry of every document, the same fingerprints and the same commit.
pub from_json-to_json :
    (repr : Dict String Value → String) (state : IngestState)
    → state.version ≡ ingest_state_version
    → Distinct (keys state.docs)
    → Distinct (keys state.fingerprints)
    → (t : IngestState) × (from_json repr (object (to_json state)) ≡ some t)
      × ((doc_id : String) → get t.docs doc_id ≡ get state.docs doc_id)
      × ((name : String) → get t.fingerprints name ≡ get state.fingerprints name)
      × (t.ingested_commit ≡ state.ingested_commit)
from_json-to_json repr state v d f = (
  sorted_state state,
  from_json-sorted repr state v,
  λ doc_id. get-sorted state.docs doc_id d,
  λ name. get-sorted state.fingerprints name f,
  refl,
)

cold_hashes :
    (repr : Dict String Value → String) (m : Manifest)
    → map_dict (λ ds. ds.content_hash) (upgrade_v1_docs repr (map_dict (λ h. plain (text h)) m)) ≡ m
unfolding upgrade_v1_docs map_dict entry_str cold str
cold_hashes repr [] = refl
cold_hashes repr ((k, h) ∷ m) = ground (arith, cold_hashes repr m)

get-upgrade :
    (repr : Dict String Value → String) (m : Manifest) (doc_id h : String)
    → get m doc_id ≡ some h
    → get (upgrade_v1_docs repr (map_dict (λ h. plain (text h)) m)) doc_id ≡ some (cold h)
unfolding upgrade_v1_docs map_dict entry_str str get
get-upgrade repr [] doc_id h p = ground arith
get-upgrade repr ((k, h') ∷ m) doc_id h p = ground (arith, get-upgrade repr m doc_id h)

-- The envelope of a manifest that has no document twice is read as a state whose projection has the
-- manifest's hash for every document, and which has every document of the manifest at the bronze
-- stage without artifacts.
pub from_json-manifest_to_json :
    (repr : Dict String Value → String) (m : Manifest)
    → Distinct (keys m)
    → (t : IngestState) × (from_json repr (object (manifest_to_json m)) ≡ some t)
      × ((doc_id : String) → get (as_manifest t) doc_id ≡ get m doc_id)
      × ((doc_id h : String) → get m doc_id ≡ some h → get t.docs doc_id ≡ some (cold h))
unfolding from_json manifest_to_json as_manifest
from_json-manifest_to_json repr m d = (
  record initial_state { docs = upgrade_v1_docs repr (map_dict (λ h. plain (text h)) (sorted m)) },
  refl,
  λ doc_id. rw (cold_hashes repr (sorted m)) (get-sorted m doc_id d),
  λ doc_id h p. get-upgrade repr (sorted m) doc_id h (get-sorted m doc_id d ∙ p),
)

-- A manifest that has no document twice is read back from its envelope with every document's hash.
pub manifest_from_json-manifest_to_json :
    (repr : Dict String Value → String) (m : Manifest)
    → Distinct (keys m)
    → (n : Manifest) × (manifest_from_json repr (object (manifest_to_json m)) ≡ some n)
      × ((doc_id : String) → get n doc_id ≡ get m doc_id)
unfolding manifest_from_json manifest_to_json entry_str str
manifest_from_json-manifest_to_json repr m d = (
  sorted m,
  ap some (map_dict-id (λ h. plain (text h)) (entry_str repr) (sorted m) (λ h. refl)),
  λ doc_id. get-sorted m doc_id d,
)
