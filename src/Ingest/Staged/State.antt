-- ===== src/Ingest/Staged/State.antt =====
-- ingest.py, `_staged_state`: the state that a staged ingestion leaves, against the manifest.
use graphrag_aws_template.Prelude.{
  ◌<>◌, ◌≡◌, refl, String, Bool, true, Option, none, some, [], ◌∷◌, all, arith, string_eq, contains,
}
use graphrag_aws_template.Prelude.Dicts.{Dict}
use graphrag_aws_template.Delta.{Manifest}
use graphrag_aws_template.State.{
  DocState, IngestState, as_manifest, map_dict, gold, ingest_state_version,
}
use graphrag_aws_template.Silver.{is_hex, silver_key}
use graphrag_aws_template.Ingest.Staged.{
  staged_doc, staged_docs, staged_state, candidates_key, previous_doc, staged_fingerprints,
  previous_commit,
}

-- the test of `_HEX_RE` on every hash
abbrev pub all_hex : Manifest → Bool
all_hex manifest = all (λ entry. is_hex entry.1) manifest

abbrev pub hex_or_none : Option String → Bool
hex_or_none none = true
hex_or_none (some s) = is_hex s

silver_key-total :
    (fp content_hash artifact : String)
    → contains ("chunks" ∷ "candidates" ∷ []) artifact ≡ true
    → is_hex fp ≡ true
    → is_hex content_hash ≡ true
    → (key : String) × (silver_key fp content_hash artifact ≡ some key)
unfolding silver_key
silver_key-total fp content_hash artifact known h k =
    ("silver/" <> (fp <> ("/" <> (content_hash <> ("/" <> (artifact <> ".json"))))), ground arith)

candidates_key-total :
    (fp : Option String) (prev_doc : Option DocState) (content_hash : String)
    → hex_or_none fp ≡ true
    → is_hex content_hash ≡ true
    → (key : Option String) × (candidates_key fp prev_doc content_hash ≡ some key)
unfolding candidates_key
candidates_key-total none none content_hash h k = (_, refl)
candidates_key-total none (some d) content_hash h k = (_, refl)
candidates_key-total (some fp) prev_doc content_hash h k =
    let (key, e) = silver_key-total fp content_hash "candidates" (unfold contains in refl) h k in
    (some key, ground arith)

staged_doc-total :
    (prev_state : Option IngestState) (efp : String) (xfp : Option String)
    (id content_hash : String)
    → is_hex efp ≡ true
    → hex_or_none xfp ≡ true
    → is_hex content_hash ≡ true
    → (doc : DocState) × (staged_doc prev_state efp xfp id content_hash ≡ some doc)
      × (doc.content_hash ≡ content_hash)
unfolding staged_doc
staged_doc-total prev_state efp xfp id content_hash h k hash =
    let (candidates, p) =
      candidates_key-total xfp (previous_doc prev_state id) content_hash k hash in
    let (chunks, q) = silver_key-total efp content_hash "chunks" (unfold contains in refl) h hash in
    (
      record {
        content_hash = content_hash;
        stage = gold;
        silver_chunks = some chunks;
        silver_candidates = candidates;
      },
      ground arith,
      refl,
    )

staged_docs-total :
    (prev_state : Option IngestState) (efp : String) (xfp : Option String) (manifest : Manifest)
    → is_hex efp ≡ true
    → hex_or_none xfp ≡ true
    → all_hex manifest ≡ true
    → (docs : Dict String DocState) × (staged_docs prev_state efp xfp manifest ≡ some docs)
      × (map_dict (λ ds. ds.content_hash) docs ≡ manifest)
unfolding staged_docs map_dict all
staged_docs-total prev_state efp xfp [] h k hashes = ([], refl, refl)
staged_docs-total prev_state efp xfp ((id, content_hash) ∷ manifest) h k hashes =
    let (doc, p, same) = staged_doc-total prev_state efp xfp id content_hash h k (ground arith) in
    let (docs, q, rest) = staged_docs-total prev_state efp xfp manifest h k (ground arith) in
    ((id, doc) ∷ docs, ground arith, cc (same, rest))

-- If the hashes and the fingerprints are hexadecimal, the staged state is built, and projected to a
-- manifest it is the new manifest again: the next run compares with what this one has ingested.
pub staged_state-as_manifest :
    (new_manifest : Manifest) (prev_state : Option IngestState) (embedder_fp : String)
    (extraction_fp : Option String)
    → is_hex embedder_fp ≡ true
    → hex_or_none extraction_fp ≡ true
    → all_hex new_manifest ≡ true
    → (state : IngestState) × (staged_state new_manifest prev_state embedder_fp extraction_fp
        ≡ some state)
      × (as_manifest state ≡ new_manifest)
unfolding staged_state as_manifest
staged_state-as_manifest new_manifest prev_state embedder_fp extraction_fp h k hashes =
    let (docs, p, same) =
      staged_docs-total prev_state embedder_fp extraction_fp new_manifest h k hashes in
    (
      record {
        docs = docs;
        fingerprints = staged_fingerprints prev_state embedder_fp extraction_fp;
        ingested_commit = previous_commit prev_state;
        version = ingest_state_version;
      },
      ground arith,
      same,
    )
