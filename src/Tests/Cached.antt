-- ===== src/Tests/Cached.antt =====
-- The windows of a text, the cache of chunks, and the state of a staged ingestion.
use Prim.Native.Nat.{◌-◌, ◌≤◌, max}
use graphrag_aws_template.Prelude.{
  ◌≡◌, refl, ◌⊎◌, inl, String, string_eq, pair_eq, false, ◌==◌, all, All, [], ◌∷◌, some, none, map,
  arith,
}
use graphrag_aws_template.Prelude.Text.{text_length, take_text}
use graphrag_aws_template.Prelude.Dicts.{get}
use graphrag_aws_template.Sources.{ParsedDoc}
use graphrag_aws_template.Chunk.Corpus.{split}
use graphrag_aws_template.Chunk.Windows
use graphrag_aws_template.Chunk.Windows.{concat}
use graphrag_aws_template.State.{IngestState, as_manifest}
use graphrag_aws_template.Silver.{is_hex, silver_key, Artifacts, compute_chunks}
use graphrag_aws_template.Silver.Cached
use graphrag_aws_template.Silver.Cached.{materialized, own_body}
use graphrag_aws_template.Ingest.Staged.{staged_state}
use graphrag_aws_template.Ingest.Staged.State
use graphrag_aws_template.Tests.Vectors.{whole}
use graphrag_aws_template.Tests.Grounded.{plain}
use graphrag_aws_template.Tests.Answers.{counting}
use graphrag_aws_template.Tests.Ingested.{readme, before}

split-covers_example :
    All (λ w. text_length w ≤ 4) (split "abcdefg" 4 1)
    × ((split "abcdefg" 4 1 ≡ "abcdefg" ∷ [])
        ⊎ (concat (map (take_text (max 1 (4 - 1))) (split "abcdefg" 4 1)) ≡ "abcdefg"))
split-covers_example = Windows.split-covers "abcdefg" 4 1 (omega arith)

abbrev moved : ParsedDoc
moved = record readme { path = "c.md" }

abbrev cold_cache : Artifacts whole
cold_cache = []

abbrev key_of_chunks : String
key_of_chunks = "silver/0a/bb/chunks.json"

key_there : silver_key "0a" "bb" "chunks" ≡ some key_of_chunks
unfolding silver_key
key_there = refl

materialize_chunks-transparent_example :
    (after : Artifacts whole) × (materialized whole plain counting readme cold_cache "bb" "0a"
      ≡ some (after, compute_chunks whole plain counting readme))
    × (get after key_of_chunks ≡ some (own_body whole plain counting readme))
    × ((j : String) → (key_of_chunks == j) ≡ false → get after j ≡ get cold_cache j)
materialize_chunks-transparent_example =
    Cached.materialize_chunks-transparent whole plain counting readme cold_cache "bb" "0a"
      key_of_chunks key_there (inl (unfold get in refl))

materialize_chunks-shared_example :
    (after : Artifacts whole) × (materialized whole plain counting readme cold_cache "bb" "0a"
      ≡ some (after, compute_chunks whole plain counting readme))
    × (materialized whole plain counting moved after "bb" "0a"
        ≡ some (after, compute_chunks whole plain counting readme))
materialize_chunks-shared_example =
    Cached.materialize_chunks-shared whole plain counting readme moved cold_cache "bb" "0a"
      key_of_chunks key_there (unfold get in refl)

staged_state-as_manifest_example :
    (state : IngestState) × (staged_state before none "0a" (some "ff") ≡ some state)
    × (as_manifest state ≡ before)
staged_state-as_manifest_example =
    State.staged_state-as_manifest before none "0a" (some "ff") (unfold is_hex in refl)
      (unfold is_hex in refl) (unfold is_hex all in refl)
