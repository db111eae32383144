-- ===== src/Ingest/Staged.antt =====
-- packages/graphrag/src/graphrag/ingest.py, `_staged_state` and `ingest_staged`: the staged ingestion,
-- from parsed documents through the cache to the two stores. `none` is any of the `ValueError`s. The
-- fingerprint of a schema is an argument.
pub mod State
use graphrag_aws_template.Prelude.{
  ℕ, ◌+◌, String, ◌<>◌, Bool, true, false, not, ◌==◌, Option, none, some, List, [], ◌∷◌, ◌++◌, map,
  length, keep, contains, is_some, ◌||◌, is_empty, loop, string_eq, if◌then◌else◌, ◌>>=◌, pair_eq,
}
use graphrag_aws_template.Prelude.Sets.{dedupe, union, IterationOrder}
use graphrag_aws_template.Prelude.Dicts.{Dict, get, put, keys, index_by}
use graphrag_aws_template.Prelude.Sorting.{sorted, text_order}
use graphrag_aws_template.Normalize.{Unicode}
use graphrag_aws_template.Sources.{ParsedDoc, doc_id}
use graphrag_aws_template.Chunk.{Chunk}
use graphrag_aws_template.Model.{EdgeKey, key, Node, Edge, Graph, Upserted, ok, reused_across_kinds}
use graphrag_aws_template.Resolve.{build_graph, upsert_edges}
use graphrag_aws_template.Labels.{Labels, label_graph, label_chunk}
use graphrag_aws_template.Delta.{Manifest, Delta, diff_manifests, added_doc_ids, removed_doc_ids}
use graphrag_aws_template.State.{DocState, IngestState, gold, as_manifest, ingest_state_version}
use graphrag_aws_template.Store.{GraphStore, gather}
use graphrag_aws_template.GraphDelta.{NodeOrder, EdgeOrder, plan_graph_delta, apply_graph_delta}
use graphrag_aws_template.VectorStore.{Floats, Vector, EmbeddedChunk, VectorStore}
use graphrag_aws_template.Retrieval.{Embedder}
use graphrag_aws_template.Extraction.{ExtractionSchema, CandidateTriple}
use graphrag_aws_template.Extraction.Guided.{
  TraceEntry, TripleExtractor, ExtractionResult, ground_candidates, render,
}
use graphrag_aws_template.Silver.{silver_key, Artifacts, SilverArtifact, materialize_silver}
use graphrag_aws_template.Ingest.{Extract, DeltaReport, manifest_from_docs}

-- prev_state.docs.get(doc_id) if prev_state is not None else None
unfoldable pub previous_doc : Option IngestState → String → Option DocState
unfolding get
previous_doc none id = none
previous_doc (some state) id = get state.docs id

-- the candidates key of a document: the extraction's, or the old one of unchanged content
unfoldable pub candidates_key : Option String → Option DocState → String → Option (Option String)
unfolding silver_key
candidates_key (some fp) prev_doc content_hash =
    silver_key fp content_hash "candidates" >>= λ key. some (some key)
candidates_key none none content_hash = some none
candidates_key none (some prev_doc) content_hash =
    some (if prev_doc.content_hash == content_hash then prev_doc.silver_candidates else none)

-- one round of the loop of `_staged_state`
unfoldable pub staged_doc :
    Option IngestState → String → Option String → String → String → Option DocState
unfolding candidates_key previous_doc silver_key
staged_doc prev_state embedder_fp extraction_fp id content_hash =
    candidates_key extraction_fp (previous_doc prev_state id) content_hash >>= λ candidates.
    silver_key embedder_fp content_hash "chunks" >>= λ chunks. some (record {
      content_hash = content_hash;
      stage = gold;
      silver_chunks = some chunks;
      silver_candidates = candidates;
    })

-- the loop: the keys of a dict are distinct, so that each document comes behind those before it
unfoldable pub staged_docs :
    Option IngestState → String → Option String → Manifest → Option (Dict String DocState)
unfolding staged_doc
staged_docs prev_state embedder_fp extraction_fp [] = some []
staged_docs prev_state embedder_fp extraction_fp ((id, content_hash) ∷ manifest) =
    staged_doc prev_state embedder_fp extraction_fp id content_hash >>= λ doc.
    staged_docs prev_state embedder_fp extraction_fp manifest >>= λ docs. some ((id, doc) ∷ docs)

-- prev_state.fingerprints.get(name)
unfoldable pub previous_fingerprint : Option IngestState → String → Option String
unfolding get
previous_fingerprint none name = none
previous_fingerprint (some state) name = get state.fingerprints name

unfoldable pub staged_fingerprints :
    Option IngestState → String → Option String → Dict String String
unfolding put previous_fingerprint
staged_fingerprints prev_state embedder_fp (some fp) =
    put (("embedder", embedder_fp) ∷ []) "extraction" fp
staged_fingerprints prev_state embedder_fp none =
    elim (previous_fingerprint prev_state "extraction") [
      | none ↦ ("embedder", embedder_fp) ∷ []
      | some fp ↦ put (("embedder", embedder_fp) ∷ []) "extraction" fp
    ]

unfoldable pub previous_commit : Option IngestState → Option String
previous_commit none = none
previous_commit (some state) = state.ingested_commit

-- `_staged_state`
unfoldable pub staged_state :
    Manifest → Option IngestState → String → Option String → Option IngestState
unfolding staged_docs staged_fingerprints previous_commit
staged_state new_manifest prev_state embedder_fp extraction_fp =
    staged_docs prev_state embedder_fp extraction_fp new_manifest >>= λ docs. some (record {
      docs = docs;
      fingerprints = staged_fingerprints prev_state embedder_fp extraction_fp;
      ingested_commit = previous_commit prev_state;
      version = ingest_state_version;
    })

abbrev optional_graph : Upserted Graph → Option Graph
optional_graph (ok g) = some g
optional_graph (reused_across_kinds id k l) = none

abbrev map_option {ℓ κ} : {A : Type ℓ} {B : Type κ} → (A → B) → Option A → Option B
map_option f none = none
map_option f (some a) = some (f a)

-- The edge that a list still holds after the upserts: the first that was upserted under a key that the
-- graph had not is the graph's own row, which the later ones were merged into.
unfoldable pub edge_object : Graph → Graph → List EdgeKey → Edge → Edge
unfolding get contains key
edge_object scratch upserted seen e =
    if contains seen (key e) || is_some (get scratch.edge_table (key e))
    then e
    else (elim (get upserted.edge_table (key e)) [ none ↦ e | some row ↦ row ])

-- `edges` and `entries` after the upserts, from the keys that were upserted already
unfoldable pub edge_objects : Graph → Graph → List EdgeKey → List Edge → List Edge
unfolding edge_object
edge_objects scratch upserted seen [] = []
edge_objects scratch upserted seen (e ∷ es) =
    edge_object scratch upserted seen e ∷ edge_objects scratch upserted (key e ∷ seen) es

unfoldable pub entry_objects : Graph → Graph → List EdgeKey → List TraceEntry → List TraceEntry
unfolding edge_object
entry_objects scratch upserted seen [] = []
entry_objects scratch upserted seen (entry ∷ entries) =
    let keys_of : List EdgeKey = elim entry.edge [ none ↦ seen | some e ↦ key e ∷ seen ] in
    let edge : Option Edge = map_option (edge_object scratch upserted seen) entry.edge in
    record entry { edge = edge } ∷ entry_objects scratch upserted keys_of entries

module _ (F : Floats) (U : Unicode) (embedder : Embedder F) (hash : ParsedDoc → String)
    (extraction_fp : Option String) (extractor : Option (TripleExtractor ParsedDoc))
    (schema : ExtractionSchema) where
  -- the loop over the affected documents: the cache, and the artifact of each
  unfoldable pub materialize_all :
      Dict String ParsedDoc
      → Manifest
      → List String
      → Artifacts F
      → Option (Artifacts F × Dict String (SilverArtifact F))
  unfolding materialize_silver get put
  materialize_all docs_by_id manifest [] artifacts = some (artifacts, [])
  materialize_all docs_by_id manifest (id ∷ ids) artifacts = get docs_by_id id >>= λ doc.
      get manifest id >>= λ content_hash.
      materialize_silver F U embedder doc artifacts content_hash embedder.fingerprint extraction_fp
        extractor schema
      >>= λ first. materialize_all docs_by_id manifest ids first.0 >>= λ rest.
          some (rest.0, (id, first.1) ∷ rest.1)

  -- the candidates of every document that has an artifact, in the order of the ids
  unfoldable pub all_candidates :
      Dict String (SilverArtifact F) → List String → List CandidateTriple
  unfolding gather get
  all_candidates silver_by_id ids =
      gather (λ id. elim (get silver_by_id id) [ none ↦ [] | some art ↦ art.candidates ]) ids

  -- the schema-guided edges on top of the labelled graph, with the trace, if there is an extractor
  unfoldable pub with_extraction :
      Graph → List CandidateTriple → Dict String String → Graph × Option ExtractionResult
  unfolding ground_candidates upsert_edges render entry_objects edge_objects
  with_extraction scratch candidates aliases = elim extractor [
    | none ↦ (scratch, none)
    | some e ↦
        let (entries, edges) = ground_candidates U candidates scratch schema aliases in
        let upserted = upsert_edges scratch edges in
        (
          upserted,
          some (record {
            schema = schema;
            prompt = render schema;
            extractor_model_id = e.model_id;
            entries = entry_objects scratch upserted [] entries;
            edges = edge_objects scratch upserted [] edges;
          }),
        )
  ]

  module _ (V : VectorStore F) (labels : Labels) where
    -- the chunks of an artifact, labelled and indexed
    unfoldable pub index_artifact : V.State → SilverArtifact F → V.State
    unfolding label_chunk loop
    index_artifact v art =
        loop
          (λ w (pair : Chunk × Vector F).
            V.index_chunk w (record { chunk = label_chunk labels pair.0; vector = pair.1 }))
          v art.chunks

    unfoldable pub index_artifacts :
        Dict String (SilverArtifact F) → List String → V.State → Option (V.State × ℕ)
    unfolding index_artifact get
    index_artifacts silver_by_id [] v = some (v, 0)
    index_artifacts silver_by_id (id ∷ ids) v = get silver_by_id id >>= λ art.
        index_artifacts silver_by_id ids (index_artifact v art) >>= λ rest.
        some (rest.0, length art.chunks + rest.1)

module _ (S : GraphStore) (F : Floats) (V : VectorStore F) (U : Unicode)
    (order : IterationOrder string_eq) (node_order : NodeOrder) (edge_order : EdgeOrder)
    (extract : Extract) (embedder : Embedder F) (labels : Labels) (hash : ParsedDoc → String)
    (aliases : Dict String String) (extractor : Option (TripleExtractor ParsedDoc))
    (schema : ExtractionSchema) (schema_fingerprint : ExtractionSchema → String) where
  pub record Staged : Type 0 where
    pub graph_store : S.State
    pub vector_store : V.State
    pub artifacts : Artifacts F
    pub report : DeltaReport
    pub extraction : Option ExtractionResult
    pub state : IngestState

  abbrev pub extraction_fingerprint : Option String
  extraction_fingerprint = map_option (λ e. schema_fingerprint schema) extractor

  unfoldable pub ingest_staged :
      Option IngestState → List ParsedDoc → S.State → V.State → Artifacts F → Option Staged
  unfolding manifest_from_docs index_by as_manifest diff_manifests added_doc_ids removed_doc_ids
      previous_fingerprint dedupe union keys sorted materialize_all all_candidates with_extraction
      index_artifacts build_graph label_graph plan_graph_delta apply_graph_delta keep contains
      doc_id staged_state
  ingest_staged prev_state docs s v artifacts =
      let extraction_fp = extraction_fingerprint in
      let docs_by_id = index_by doc_id docs in
      let new_manifest = manifest_from_docs hash docs in
      let delta = diff_manifests order (map_option as_manifest prev_state) new_manifest in
      let content_added = added_doc_ids delta in
      let removed_ids = removed_doc_ids delta in
      let embedder_stale : Bool = elim (previous_fingerprint prev_state "embedder") [
        | none ↦ true
        | some fp ↦ not (fp == embedder.fingerprint)
      ] in
      let vector_doc_ids = if embedder_stale then dedupe (keys new_manifest) else content_added in
      let silver_doc_ids = union content_added vector_doc_ids in
      materialize_all F U embedder hash extraction_fp extractor schema docs_by_id new_manifest
        (sorted silver_doc_ids) artifacts
      >>= λ silver.
          let rows = extract (keep (λ doc. contains content_added (doc_id doc)) docs) in
          optional_graph (build_graph rows.0 rows.1) >>= λ resolved.
          let candidates =
            all_candidates F U embedder hash extraction_fp extractor schema silver.1
              (sorted (keys new_manifest)) in
          let scratch =
            with_extraction F U embedder hash extraction_fp extractor schema
              (label_graph resolved labels) candidates aliases in
          plan_graph_delta S node_order edge_order s scratch.0 removed_ids >>= λ plan.
          let (t, orphans) = apply_graph_delta S s plan in
          let touched_ids = union removed_ids vector_doc_ids in
          let v_cleared =
            if is_empty touched_ids then v else V.delete_by_doc v (sorted touched_ids) in
          index_artifacts F U embedder hash extraction_fp extractor schema V labels silver.1
            (sorted vector_doc_ids) v_cleared
          >>= λ indexed.
              staged_state new_manifest prev_state embedder.fingerprint extraction_fp >>= λ state.
              some (record {
                graph_store = t;
                vector_store = indexed.0;
                artifacts = silver.0;
                report = record {
                  delta = delta;
                  new_manifest = new_manifest;
                  before_nodes = length (S.all_nodes s);
                  before_edges = length (S.all_edges s);
                  before_chunks = V.count v;
                  after_nodes = length (S.all_nodes t);
                  after_edges = length (S.all_edges t);
                  after_chunks = V.count indexed.0;
                  orphans_removed = orphans;
                  indexed_chunks = indexed.1;
                  full_ingest = elim prev_state [ none ↦ true | some p ↦ false ];
                };
                extraction = scratch.1;
                state = state;
              })
