-- ===== src/State.antt =====
-- packages/graphrag/src/graphrag/state.py: the ingest state, its JSON envelope, and the upgrade of a
-- manifest's envelope, which delta.py writes and reads. The text of an envelope and what `json` does
-- with it are not modelled: a parsed envelope is a value, of the parts that the code reads. `repr` is
-- the text of a dict under `str`.
pub mod Entries
pub mod Roundtrip
use graphrag_aws_template.Prelude.{
  ℕ, leb, String, Bool, true, false, ◌&&◌, Option, none, some, List, [], ◌∷◌, ◌==◌, string_eq,
  if◌then◌else◌,
}
use graphrag_aws_template.Prelude.Dicts.{Dict, get}
use graphrag_aws_template.Prelude.Sorting.{
  Order, sorted, text_order, text_le, text_le_total, text_le_trans,
}
use graphrag_aws_template.Visibility.{get_or}
use graphrag_aws_template.Model.{Value, null, text, str}
use graphrag_aws_template.Delta.{Manifest}

pub data Stage : Type 0 where
  bronze silver gold : Stage

unfoldable pub stage_value : Stage → String
stage_value bronze = "bronze"
stage_value silver = "silver"
stage_value gold = "gold"

-- Stage(value); `none` is the `ValueError`
unfoldable pub stage_of : String → Option Stage
stage_of s =
    if s == "bronze"
    then some bronze
    else if s == "silver"
    then some silver
    else if s == "gold"
    then some gold
    else none

pub record DocState : Type 0 where
  pub content_hash : String
  pub stage : Stage
  pub silver_chunks : Option String
  pub silver_candidates : Option String

abbrev pub ingest_state_version : ℕ
ingest_state_version = 2

pub record IngestState : Type 0 where
  pub docs : Dict String DocState
  pub fingerprints : Dict String String
  pub ingested_commit : Option String
  pub version : ℕ

-- IngestState()
abbrev pub initial_state : IngestState
initial_state = record {
  docs = [];
  fingerprints = [];
  ingested_commit = none;
  version = ingest_state_version;
}

-- {k: f(v) for k, v in d.items()}
unfoldable pub map_dict {ℓ κ} : {V : Type ℓ} {W : Type κ} → (V → W) → Dict String V → Dict String W
map_dict f [] = []
map_dict f ((k, v) ∷ d) = (k, f v) ∷ map_dict f d

unfoldable pub as_manifest : IngestState → Manifest
unfolding map_dict
as_manifest state = map_dict (λ ds. ds.content_hash) state.docs

-- The items of a dict are sorted by their keys, of which no two are equal.
abbrev pub item_le {ℓ} : {V : Type ℓ} → String × V → String × V → Bool
item_le (j, v) (k, w) = text_le j k

instance abbrev pub item_order {ℓ} : {V : Type ℓ} → Order (String × V)
item_order = record {
  le = item_le;
  total = λ p q. text_le_total p.0 q.0;
  trans = λ p q r. text_le_trans p.0 q.0 r.0;
}

-- a member of an object: absent, not a dict, or a dict
pub data Member {ℓ} (A : Type ℓ) : Type ℓ where
  absent : Member A
  not_dict : Member A
  dict : A → Member A

-- a value of the docs map: a dict, or anything else
pub data Entry : Type 0 where
  plain : Value → Entry
  fields : Dict String Value → Entry

pub record Envelope : Type 0 where
  -- data.get("version") == INGEST_STATE_VERSION
  pub current : Bool
  pub docs : Member (Dict String Entry)
  pub fingerprints : Member (Dict String Value)
  pub ingested_commit : Option Value

-- a blank text, a value that is no object, or an object
pub data Parsed : Type 0 where
  blank : Parsed
  not_object : Parsed
  object : Envelope → Parsed

-- a member that is a dict, and the empty dict for any other
unfoldable pub dict_or_empty {ℓ} : {V : Type ℓ} → Member (Dict String V) → Dict String V
dict_or_empty absent = []
dict_or_empty not_dict = []
dict_or_empty (dict d) = d

-- `_opt_str`, of `dict.get`
unfoldable pub opt_str : Option Value → Option String
unfolding str
opt_str none = none
opt_str (some null) = none
opt_str (some v) = some (str v)

-- an absent text in JSON
unfoldable pub opt_value : Option String → Value
opt_value none = null
opt_value (some s) = text s

-- DocState(content_hash=…, stage=Stage.BRONZE)
unfoldable pub cold : String → DocState
cold content_hash = record {
  content_hash = content_hash;
  stage = bronze;
  silver_chunks = none;
  silver_candidates = none;
}

module _ (repr : Dict String Value → String) where
  -- str(v)
  unfoldable pub entry_str : Entry → String
  unfolding str
  entry_str (plain v) = str v
  entry_str (fields d) = repr d

  unfoldable pub upgrade_v1_docs : Dict String Entry → Dict String DocState
  unfolding map_dict entry_str cold
  upgrade_v1_docs docs_raw = map_dict (λ v. cold (entry_str v)) docs_raw

-- one round of the loop of `from_json`
unfoldable pub read_entry : Entry → Option DocState
unfolding str stage_of stage_value opt_str get get_or cold
read_entry (plain v) = some (cold (str v))
read_entry (fields v) = elim (stage_of (str (get_or v "stage" (text (stage_value bronze))))) [
  | none ↦ none
  | some stage ↦ some (record {
    content_hash = str (get_or v "content_hash" (text ""));
    stage = stage;
    silver_chunks = opt_str (get v "silver_chunks");
    silver_candidates = opt_str (get v "silver_candidates");
  })
]

unfoldable pub read_docs : Dict String Entry → Option (Dict String DocState)
unfolding read_entry
read_docs [] = some []
read_docs ((k, v) ∷ d) =
    let rest = read_docs d in
    elim (read_entry v) [
      | none ↦ none
      | some ds ↦ elim rest [ none ↦ none | some docs ↦ some ((k, ds) ∷ docs) ]
    ]

-- `from_json`; `none` is the `ValueError` of an unknown stage
unfoldable pub from_json : (Dict String Value → String) → Parsed → Option IngestState
unfolding upgrade_v1_docs read_docs dict_or_empty map_dict str opt_str
from_json repr blank = some initial_state
from_json repr not_object = some initial_state
from_json repr (object envelope) =
    if envelope.current
    then (elim (read_docs (dict_or_empty envelope.docs)) [
      | none ↦ none
      | some docs ↦ some (record {
        docs = docs;
        fingerprints = map_dict str (dict_or_empty envelope.fingerprints);
        ingested_commit = opt_str envelope.ingested_commit;
        version = ingest_state_version;
      })
    ])
    else some (record initial_state { docs = upgrade_v1_docs repr (dict_or_empty envelope.docs) })

unfoldable pub write_entry : DocState → Entry
unfolding stage_value opt_value
write_entry ds = fields (
    ("content_hash", text ds.content_hash)
    ∷ ("stage", text (stage_value ds.stage))
    ∷ ("silver_chunks", opt_value ds.silver_chunks)
    ∷ ("silver_candidates", opt_value ds.silver_candidates)
    ∷ [])

-- the object that `to_json` serializes
unfoldable pub to_json : IngestState → Envelope
unfolding write_entry map_dict sorted opt_value
to_json state = record {
  current = leb state.version ingest_state_version && leb ingest_state_version state.version;
  docs = dict (map_dict write_entry (sorted state.docs));
  fingerprints = dict (map_dict text (sorted state.fingerprints));
  ingested_commit = some (opt_value state.ingested_commit);
}

-- the object that `manifest_to_json` serializes, at version 1
unfoldable pub manifest_to_json : Manifest → Envelope
unfolding map_dict sorted
manifest_to_json manifest = record {
  current = false;
  docs = dict (map_dict (λ h. plain (text h)) (sorted manifest));
  fingerprints = absent;
  ingested_commit = none;
}

-- `none` is the `AttributeError` of docs that are no dict
unfoldable pub manifest_from_json : (Dict String Value → String) → Parsed → Option Manifest
unfolding map_dict entry_str
manifest_from_json repr blank = some []
manifest_from_json repr not_object = some []
manifest_from_json repr (object envelope) = elim envelope.docs [
  | absent ↦ some []
  | not_dict ↦ none
  | dict docs ↦ some (map_dict (entry_str repr) docs)
]
