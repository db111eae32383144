-- ===== src/Tests/Ingested.antt =====
-- An ingestion in which one document takes the place of another.
use graphrag_aws_template.Ingest.{delta_docs}
use graphrag_aws_template.Prelude.{
  ◌≡◌, refl, subst, inl, inr, String, string_eq, pair_eq, true, ◌==◌, Bool-cases, all, List, [],
  ◌∷◌, some, contains, contains-map-all, map, take, arith,
}
use graphrag_aws_template.Prelude.Dicts.{get, put}
use graphrag_aws_template.Sources.{ParsedDoc, doc_id}
use graphrag_aws_template.Chunk.{Chunk}
use graphrag_aws_template.Model.{
  Node, Edge, EntityKind, Graph, ok, reused_across_kinds, sig, empty, set_node, get_node,
}
use graphrag_aws_template.Model.WellFormed.{empty-IsWellFormed, set_node-IsWellFormed}
use graphrag_aws_template.Resolve.{build_graph}
use graphrag_aws_template.Store.Memory.{memory_store}
use graphrag_aws_template.Store.Memory.Lawful.{memory_laws, memory-IsValid}
use graphrag_aws_template.Delta.{Manifest}
use graphrag_aws_template.VectorStore.{
  EmbeddedChunk, Items, index_chunk, memory_vector_store, doc_id as chunk_doc_id,
}
use graphrag_aws_template.Ingest.{DeltaReport, Ingested, done, at_two_kinds, Extract}
use graphrag_aws_template.Ingest.Documents.{known}
use graphrag_aws_template.Ingest.Nodes.{Cites, NodesCite}
use graphrag_aws_template.Ingest.Chunks.{ChunksCite}
use graphrag_aws_template.Ingest.Invariant
use graphrag_aws_template.Ingest.Invariant.{IsConsistent}
use graphrag_aws_template.Ingest.Outcome
use graphrag_aws_template.Ingest.Outcome.{NodesMoved, ChunksLeft, run, docs_again, chunks_again}
use graphrag_aws_template.Ingest.Runs
use graphrag_aws_template.Ingest.Retry.{IsBag, new_chunks, untouched, embedded}
use graphrag_aws_template.Ingest.Edges.{EdgesCite, CitesEdges}
use graphrag_aws_template.Ingest.{manifest_from_docs}
use graphrag_aws_template.Store.{IsLawful}
use graphrag_aws_template.VectorStore.{VectorStore, hit, candidate}
use graphrag_aws_template.Model.{owns, set_edge, edges, key, edge_value}
use graphrag_aws_template.Model.WellFormed.{set_edge-IsWellFormed}
use graphrag_aws_template.Prelude.{◌++◌, keep, not, length}
use graphrag_aws_template.Prelude.Dicts.{index_by, values}
use graphrag_aws_template.Ingest.Retry
use graphrag_aws_template.Tests.Fixtures.{as_listed, edges_as_listed}
use graphrag_aws_template.Tests.Vectors.{whole, open_chunk, open-IsIndex}
use graphrag_aws_template.Tests.Grounded.{plain}
use graphrag_aws_template.Tests.Answers.{counting}

abbrev pub readme : ParsedDoc
readme = record {
  source = "community";
  path = "b.md";
  kind = "sig_readme";
  payload = [];
  markdown = some (record { body = "# Node\nnew prose" });
}

-- a SIG for each document, under its id
abbrev row_of : ParsedDoc → Node
row_of doc = record {
  id = doc_id doc;
  kind = sig;
  props = [];
  sources = [];
  doc_paths = doc_id doc ∷ [];
}

-- and an edge from it to itself
abbrev loop_of : ParsedDoc → Edge
loop_of doc = record {
  src_id = doc_id doc;
  dst_id = doc_id doc;
  kind = owns;
  props = [];
  sources = [];
  doc_paths = doc_id doc ∷ [];
}

abbrev rows : Extract
rows docs = (map row_of docs, map loop_of docs)

rows_cite :
    (docs rest : List ParsedDoc)
    → all (λ doc. contains (map doc_id docs) (doc_id doc)) rest ≡ true
    → all (λ (n : Node). all (λ p. contains (map doc_id docs) p) n.doc_paths) (map row_of rest)
      ≡ true
unfolding all
rows_cite docs [] h = refl
rows_cite docs (doc ∷ rest) h = ground (arith, rows_cite docs rest)

loops_cite :
    (docs rest : List ParsedDoc)
    → all (λ doc. contains (map doc_id docs) (doc_id doc)) rest ≡ true
    → all (λ (e : Edge). all (λ p. contains (map doc_id docs) p) e.doc_paths) (map loop_of rest)
      ≡ true
unfolding all
loops_cite docs [] h = refl
loops_cite docs (doc ∷ rest) h = ground (arith, loops_cite docs rest)

rows-CitesEdges : CitesEdges rows
rows-CitesEdges docs = loops_cite docs docs (contains-map-all doc_id docs docs (λ a k. k))

rows-Cites : Cites rows
rows-Cites docs = rows_cite docs docs (contains-map-all doc_id docs docs (λ a k. k))

abbrev pub before : Manifest
before = ("community/a.md", "aa") ∷ []

abbrev gone_node : Node
gone_node = record {
  id = "community/a.md";
  kind = sig;
  props = [];
  sources = [];
  doc_paths = "community/a.md" ∷ [];
}

abbrev gone_edge : Edge
gone_edge = record {
  src_id = "community/a.md";
  dst_id = "community/a.md";
  kind = owns;
  props = [];
  sources = [];
  doc_paths = "community/a.md" ∷ [];
}

abbrev old_graph : Graph
old_graph = set_edge (set_node empty gone_node) gone_edge

old_graph-IsValid : IsLawful.IsValid memory_laws old_graph
old_graph-IsValid = memory-IsValid old_graph (
    set_edge-IsWellFormed (set_node empty gone_node) gone_edge
      (set_node-IsWellFormed empty gone_node empty-IsWellFormed))

old_edges : EdgesCite memory_store old_graph (known (some before))
unfolding set_edge set_node put get contains index_by edges values key edge_value
old_edges k p h = elim (Bool-cases (key gone_edge == k)) [
  | inl here ↦ ground arith
  | inr other ↦ absurd (ground arith)
]

abbrev old_items : Items whole
old_items = index_chunk whole [] open_chunk

old_nodes : NodesCite memory_store old_graph (known (some before))
unfolding set_edge set_node put get get_node contains
old_nodes id p h = elim (Bool-cases ("community/a.md" == id)) [
  | inl here ↦ ground arith
  | inr other ↦ absurd (ground arith)
]

old_chunks : ChunksCite whole old_items (known (some before))
unfolding index_chunk put get chunk_doc_id
old_chunks id ec h = elim (Bool-cases ("community/a.md#0" == id)) [
  | inl here ↦
      let e : open_chunk ≡ ec = ground arith in
      subst (λ (x : EmbeddedChunk whole). known (some before) (chunk_doc_id whole x.chunk) ≡ true) e
        refl
  | inr other ↦ absurd (ground arith)
]

old-IsConsistent : IsConsistent memory_store memory_laws whole (some before) old_graph old_items
old-IsConsistent = record {
  valid = old_graph-IsValid;
  index = open-IsIndex;
  nodes = old_nodes;
  edges = old_edges;
  chunks = old_chunks;
}

abbrev hash_all : ParsedDoc → String
hash_all doc = "bb"

abbrev resolved : Graph
resolved = record {
  nodes = ("community/b.md", row_of readme) ∷ [];
  edge_table = (key (loop_of readme), loop_of readme) ∷ [];
}

abbrev next_rows : List Node × List Edge
next_rows = rows (
    docs_again memory_store memory_laws whole plain as_listed as_listed edges_as_listed rows
      counting [] hash_all (some before) (readme ∷ []))

resolves : build_graph next_rows.0 next_rows.1 ≡ ok resolved
unfolding build_graph delta_docs key edge_value
resolves = refl

abbrev running : Ingested (Graph × Items whole × DeltaReport)
running =
    run memory_store memory_laws whole plain as_listed as_listed edges_as_listed rows counting []
      hash_all (some before) (readme ∷ []) old_graph old_items

abbrev next_manifest : Manifest
next_manifest = manifest_from_docs hash_all (readme ∷ [])

ingest_delta-outcome_example :
    ((g : Graph)
      → build_graph next_rows.0 next_rows.1 ≡ ok g
      → (x : Graph × Items whole × DeltaReport) × (running ≡ done x)
        × NodesMoved memory_store old_graph x.0 next_rows.0 (some before) next_manifest
        × ChunksLeft whole old_items x.1
            (chunks_again memory_store memory_laws whole plain as_listed as_listed edges_as_listed
              rows counting [] hash_all
              (some before)
              (readme ∷ []))
            (some before)
            next_manifest)
    × ((id : String) (k l : EntityKind)
        → build_graph next_rows.0 next_rows.1 ≡ reused_across_kinds id k l
        → running ≡ at_two_kinds id k l)
ingest_delta-outcome_example =
    Outcome.ingest_delta-outcome memory_store memory_laws whole plain as_listed as_listed
      edges_as_listed rows counting [] hash_all (some before) (readme ∷ []) old_graph old_items
      old-IsConsistent.valid old-IsConsistent.index

-- the run has a result
ran : (x : Graph × Items whole × DeltaReport) × (running ≡ done x)
ran =
    let (x, h, resolved_too) =
      Runs.ingest_delta-done memory_store whole (memory_vector_store whole) plain as_listed
        as_listed edges_as_listed rows counting [] hash_all memory_laws (some before) (readme ∷ [])
        old_graph old_items resolved old-IsConsistent.valid resolves in
    (x, h)

ingest_delta-IsConsistent_example :
    IsConsistent memory_store memory_laws whole (some ran.0.2.new_manifest) ran.0.0 ran.0.1
ingest_delta-IsConsistent_example =
    Invariant.ingest_delta-IsConsistent memory_store memory_laws whole plain as_listed as_listed
      edges_as_listed rows counting [] hash_all (some before) (readme ∷ []) old_graph ran.0.0
      old_items ran.0.1 ran.0.2 rows-Cites rows-CitesEdges old-IsConsistent ran.1

-- a store that files every chunk behind the others
abbrev log_store : VectorStore whole
log_store = record {
  State = List (EmbeddedChunk whole);
  index_chunk = λ v ec. v ++ ec ∷ [];
  knn = λ v vector k allowed metadata_filter.
      take k (map (hit whole vector) (keep (candidate whole allowed metadata_filter) v));
  count = λ v. length v;
  delete = λ v ids. keep (λ (ec : EmbeddedChunk whole). not (contains ids ec.chunk.id)) v;
  delete_by_doc = λ v ids.
      keep (λ (ec : EmbeddedChunk whole). not (contains ids (chunk_doc_id whole ec.chunk))) v;
  clear = λ v. [];
}

log_store-IsBag : IsBag whole log_store (λ v. v)
log_store-IsBag = record { index_chunk = λ v ec. refl; delete_by_doc = λ v ids. refl }

abbrev new_log : List Chunk
new_log =
    new_chunks memory_store whole log_store (λ v. v) log_store-IsBag plain as_listed as_listed
      edges_as_listed rows counting [] hash_all (some before) (readme ∷ [])

-- what the first run leaves when it stops after one new chunk
abbrev crashed : List (EmbeddedChunk whole)
crashed =
    untouched memory_store whole log_store (λ v. v) log_store-IsBag plain as_listed as_listed
      edges_as_listed rows counting [] hash_all (some before) (readme ∷ []) (open_chunk ∷ [])
    ++ map (embedded whole counting) (take 1 new_log)

log_resolves :
    let again =
      Runs.docs_again memory_store whole log_store plain as_listed as_listed edges_as_listed rows
        counting [] hash_all
        (some before)
        (readme ∷ []) in
    build_graph (rows again).0 (rows again).1 ≡ ok resolved
unfolding build_graph delta_docs key edge_value
log_resolves = refl

log_run :
    (v : List (EmbeddedChunk whole))
    → (x : Graph × List (EmbeddedChunk whole) × DeltaReport) × (Runs.run memory_store whole
          log_store plain as_listed as_listed edges_as_listed rows counting [] hash_all
          (some before)
          (readme ∷ [])
          old_graph
          v
        ≡ done x)
log_run v =
    let (x, h, resolved_too) =
      Runs.ingest_delta-done memory_store whole log_store plain as_listed as_listed edges_as_listed
        rows counting [] hash_all memory_laws (some before) (readme ∷ []) old_graph v resolved
        old-IsConsistent.valid log_resolves in
    (x, h)

ingest_delta-retry_example :
    ((log_run (open_chunk ∷ [])).0.1
      ≡ untouched memory_store whole log_store
          (λ v. v)
          log_store-IsBag
          plain
          as_listed
          as_listed
          edges_as_listed
          rows
          counting
          []
          hash_all
          (some before)
          (readme ∷ [])
          (open_chunk ∷ [])
        ++ map (embedded whole counting) new_log)
    × ((log_run crashed).0.1 ≡ (log_run (open_chunk ∷ [])).0.1)
ingest_delta-retry_example =
    Retry.ingest_delta-retry memory_store whole log_store (λ v. v) log_store-IsBag plain as_listed
      as_listed edges_as_listed rows counting [] hash_all (some before) (readme ∷ []) old_graph
      (log_run (open_chunk ∷ [])).0.0 old_graph (log_run crashed).0.0 (open_chunk ∷ [])
      (log_run (open_chunk ∷ [])).0.1 crashed (log_run crashed).0.1 (log_run (open_chunk ∷ [])).0.2
      (log_run crashed).0.2 1 (log_run (open_chunk ∷ [])).1 refl (log_run crashed).1
