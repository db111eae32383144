-- ===== src/Lib.antt =====
-- The core of graphrag: a knowledge graph that is resolved from two corpora, kept in a store,
-- searched under a clearance, brought up to date document by document, and read to answer questions.
--
-- The parts, from packages/graphrag/src/graphrag:
--   Visibility   visibility.py: the tiers, `compose`, the personas' clearances, default-deny.
--   Model        model.py: kinds, nodes, edges, and the graph with merge-on-upsert.
--   Resolve      resolve.py: the upsert loops of `resolve`, and `cross_source_merges`.
--   Store        store/base.py: the interface of a backend, its laws, and `neighbors_batch`;
--                Store/Memory is store/memory.py.
--   Query        query.py: `traverse` and `expand_neighborhood` with their traces.
--   Labels       labels.py: `label_graph` and `label_chunks`.
--   Sources      sources.py and parse.py: the records of a parsed document.
--   Normalize    normalize.py: the ids of people, SIGs, KEPs and subprojects.
--   Extraction   extract_llm.py, validate_triple.py; Extraction/Grounding is ground.py and
--                Extraction/Guided schema_extract.py: the guards on a model's triples.
--   Chunk        chunk.py: the record of a chunk; Chunk/Corpus cuts the documents.
--   GraphDelta   graphdelta.py: `plan_graph_delta` and `apply_graph_delta`.
--   Delta        delta.py: manifests, and `diff_manifests`.
--   State        state.py: the ingest state, its envelope, and the upgrade of a manifest's
--                envelope, which delta.py writes and reads.
--   VectorStore  store/vector_memory.py: the in-memory vector store, over any arithmetic of floats.
--   Ingest       ingest.py: `ingest`, `ingest_delta`, `rebuild`; Ingest/Staged is `ingest_staged`.
--   Silver       silver.py: the cache of chunks and candidates.
--   Retrieval    vector.py, and the interfaces of embed.py and synthesize.py.
--   Hybrid       hybrid.py: `hybrid_query`, and the candidates of entity_link.py.
--   SelfQuery    selfquery.py: the filters and their validation; SelfQuery/Query is `selfquery_query`.
--   Route        route.py: the two routers.
--   Communities  store/community_memory.py and community_detect.py.
--   ParentChild  store/parentchild_memory.py, and `parentchild_query` of parentchild.py.
--   GlobalSearch globalsearch.py: `global_query`.
--   Prelude      text, lists, sets, dicts, equality and sorting; Tests has the concrete runs.
--
-- How they interact: `resolve` fills a Graph; `label_graph` stamps it; MemoryGraphStore keeps it
-- behind the interface of Store; the searches of Query and the plan of GraphDelta read any store
-- through that interface. Query and GraphDelta are therefore stated over an unknown store with
-- the laws `IsLawful`, and Store/Memory/Lawful fills them. Ingest runs the whole of it over such a
-- store and the in-memory vector store; Hybrid, SelfQuery and GlobalSearch read the stores again.
-- Hybrid and SelfQuery take any vector store, of which a theorem on its hits assumes that it filters
-- as its interface documents (`Filters`). Ingest/Retry takes one that keeps every chunk it is given
-- (`IsBag`), which the in-memory store, a dict by id, does not.
--
-- How the code is modelled: a dict is an association list in insertion order, a set a list of
-- which the statements read only what it contains. An object that the code changes in place is a
-- value, and an operation returns the new one. A `ValueError` is a value of a result type. The
-- orders in which the code goes through a set of unknown order (`IterationOrder`) are arguments,
-- so that what is proved holds of every order. A props value is None, a text, or another object
-- of which only equality and `str` are read. `is_empty` of a Delta is called `no_change`.
--
-- Parameters stand for what is not in the repository: the arithmetic of floats (`Floats`, without the
-- underflow at which `cosine` divides by zero, and without NaN), the tables of Unicode (`Unicode`,
-- without the digits that `int` does not read, at which `kep_id` raises), the model behind an embedder, a synthesizer, an extractor or a
-- router, and the partition that a library finds in a graph. Parameters also stand for the parts of
-- the repository that are not modelled: the patterns that link a question to entities (`link`), the
-- rows that extract.py gives (`extract`), and the hash of a file. A cached body of Silver is the
-- value that is written, in place of its text.
--
-- Loops are recursion on the list or the text they run over. The loop of `expand_neighborhood` is
-- recursion on the rounds left of `range(1, max_hops + 1)`; nothing has other fuel.
--
-- Not modelled: files, hashing and the text of JSON; parsing Markdown and YAML; the rows of
-- extract.py; calls of a model; the `render` methods of results; the grouping of chunks into parents;
-- templates; governed.py, compare.py and generate.py; and the remote backends, of which a theorem
-- over a lawful store says what it says of any backend that keeps the laws.
pub mod Normalize
pub mod Sources
pub mod Extraction
pub mod Retrieval
pub mod Hybrid
pub mod SelfQuery
pub mod Communities
pub mod GlobalSearch
pub mod ParentChild
pub mod Route
pub mod Silver
pub mod Ingest
pub mod Prelude
pub mod Visibility
pub mod Model
pub mod Resolve
pub mod Store
pub mod Query
pub mod Chunk
pub mod Labels
pub mod GraphDelta
pub mod Delta
pub mod State
pub mod VectorStore
mod Tests
