-- ===== src/Extraction/Guided.antt =====
-- packages/graphrag/src/graphrag/schema_extract.py: each candidate through the two guards, with the
-- trace of what became of it. The extractor is a parameter.
use graphrag_aws_template.Prelude.{
  ℕ, String, ◌<>◌, Option, none, some, List, [], ◌∷◌, ◌++◌, map, ◌==◌, string_eq, keep, length,
  if◌then◌else◌,
}
use graphrag_aws_template.Prelude.Dicts.{Dict}
use graphrag_aws_template.Prelude.Text.{join}
use graphrag_aws_template.Normalize.{Unicode}
use graphrag_aws_template.Model.{Edge, Graph, text, edge_value, entity_value, extraction_method_llm}
use graphrag_aws_template.Store.{gather}
use graphrag_aws_template.Extraction.{
  EndpointKind, ExtractionSchema, CandidateTriple, validate_triple,
}
use graphrag_aws_template.Extraction.Grounding.{GroundedTriple, ground_triple}

abbrev pub verdict_accepted : String
verdict_accepted = "accepted"

abbrev pub verdict_off_schema : String
verdict_off_schema = "off-schema-rejected"

abbrev pub verdict_dropped : String
verdict_dropped = "dropped-ungrounded"

pub record TraceEntry : Type 0 where
  pub candidate : CandidateTriple
  pub verdict : String
  pub edge : Option Edge
  pub reason : Option String

pub record ExtractionResult : Type 0 where
  pub schema : ExtractionSchema
  pub prompt : String
  pub extractor_model_id : String
  pub entries : List TraceEntry
  pub edges : List Edge

unfoldable pub count_verdict : String → List TraceEntry → ℕ
unfolding keep
count_verdict verdict entries = length (keep (λ e. e.verdict == verdict) entries)

-- the properties `accepted_count`, `off_schema_count`, `dropped_count`
unfoldable pub accepted_count : List TraceEntry → ℕ
unfolding count_verdict
accepted_count entries = count_verdict verdict_accepted entries

unfoldable pub off_schema_count : List TraceEntry → ℕ
unfolding count_verdict
off_schema_count entries = count_verdict verdict_off_schema entries

unfoldable pub dropped_count : List TraceEntry → ℕ
unfolding count_verdict
dropped_count entries = count_verdict verdict_dropped entries

-- the edge of a grounded triple
unfoldable pub stamped_edge : GroundedTriple → Edge
stamped_edge grounded = record {
  src_id = grounded.src_id;
  dst_id = grounded.dst_id;
  kind = grounded.kind;
  props =
      ("extraction_method", text extraction_method_llm)
      ∷ ("source_doc", text grounded.source_doc)
      ∷ ("span", text grounded.span)
      ∷ [];
  sources = [];
  doc_paths = grounded.source_doc ∷ [];
}

-- `edges.append(edge)`, if the round made one
abbrev pub with_edge : Option Edge → List Edge → List Edge
with_edge none edges = edges
with_edge (some edge) edges = edge ∷ edges

module _ (U : Unicode) where
  -- one round of the loop of `ground_candidates`: the entry it appends, with its edge
  unfoldable pub judge :
      Graph → ExtractionSchema → Dict String String → CandidateTriple → TraceEntry
  unfolding validate_triple ground_triple stamped_edge
  judge graph schema aliases candidate =
      let validation = validate_triple candidate schema in
      if validation.is_ok
      then (elim (ground_triple U candidate graph schema aliases) [
        | none ↦ record {
          candidate = candidate;
          verdict = verdict_dropped;
          edge = none;
          reason = some "endpoint(s) not grounded to a known entity";
        }
        | some grounded ↦ record {
          candidate = candidate;
          verdict = verdict_accepted;
          edge = some (stamped_edge grounded);
          reason = none;
        }
      ])
      else record {
        candidate = candidate;
        verdict = verdict_off_schema;
        edge = none;
        reason = validation.violated_rule;
      }

  unfoldable pub ground_candidates :
      List CandidateTriple
      → Graph
      → ExtractionSchema
      → Dict String String
      → List TraceEntry × List Edge
  unfolding judge
  ground_candidates [] graph schema aliases = ([], [])
  ground_candidates (candidate ∷ candidates) graph schema aliases =
      let entry = judge graph schema aliases candidate in
      let (entries, edges) = ground_candidates candidates graph schema aliases in
      (entry ∷ entries, with_edge entry.edge edges)

-- the `TripleExtractor` protocol
pub record TripleExtractor (ParsedDoc : Type 0) : Type 0 where
  pub model_id : String
  pub extract : ParsedDoc → ExtractionSchema → List CandidateTriple

abbrev kind_text : EndpointKind → String
kind_text none = ""
kind_text (some kind) = entity_value kind

-- `ExtractionSchema.render`
unfoldable pub render : ExtractionSchema → String
unfolding join
render schema = join "\n" (
    "EXTRACTION SCHEMA (the ONLY relationships you may emit):"
      ∷ map
          (λ e.
            "- predicate `"
            <> (edge_value e.kind
                <> ("`: ("
                    <> (kind_text e.src_kind
                        <> (") -> (" <> (kind_text e.dst_kind <> (") — " <> e.description)))))))
          schema.edges
    ++ ("Entity ids look like 'sig:sig-network' (SIG) and 'kep-1880' (KEP). "
        <> ("Emit ONLY triples whose predicate is one of the above and whose endpoints are "
            <> "entities already named in the prose; never invent an entity."))
      ∷ [])

module _ (U : Unicode) {ParsedDoc : Type 0} (extractor : TripleExtractor ParsedDoc) where
  unfoldable pub extract_schema_guided :
      List ParsedDoc → Graph → ExtractionSchema → Dict String String → ExtractionResult
  unfolding gather ground_candidates render
  extract_schema_guided docs graph schema aliases =
      let candidates = gather (λ doc. extractor.extract doc schema) docs in
      let (entries, edges) = ground_candidates U candidates graph schema aliases in
      record {
        schema = schema;
        prompt = render schema;
        extractor_model_id = extractor.model_id;
        entries = entries;
        edges = edges;
      }
