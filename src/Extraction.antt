-- ===== src/Extraction.antt =====
-- packages/graphrag/src/graphrag/extract_llm.py and validate_triple.py: the closed schema, and the
-- first guard on a candidate triple. The model that proposes the triples is outside the repository.
pub mod Grounding
pub mod Guided
pub mod Fitting
pub mod Traces
pub mod Canonical
pub mod Spared
use graphrag_aws_template.Prelude.{
  ℕ, String, ◌<>◌, Bool, true, false, not, ◌&&◌, ◌||◌, Option, none, some, List, [], ◌∷◌, ◌++◌, map,
  ◌==◌, string_eq, if◌then◌else◌, is_some, leb,
}
use graphrag_aws_template.Prelude.Sets.{dedupe}
use graphrag_aws_template.Prelude.Text.{strip, word_count, join, same_code}
use graphrag_aws_template.Model.{
  EntityKind, sig, kep, EdgeKind, collaborates_with, supersedes, depends_on, edge_value,
  entity_value, edge_eq,
}

-- an endpoint kind of a schema: `none` is an object that is no member of the enumeration
abbrev pub EndpointKind : Type 0
EndpointKind = Option EntityKind

pub record SchemaEdge : Type 0 where
  pub kind : EdgeKind
  pub src_kind : EndpointKind
  pub dst_kind : EndpointKind
  pub description : String

pub record ExtractionSchema : Type 0 where
  pub edges : List SchemaEdge

-- `ExtractionSchema.kinds`
unfoldable pub kinds : ExtractionSchema → List EdgeKind
unfolding dedupe
kinds schema = dedupe (map (λ e. e.kind) schema.edges)

-- the first schema edge whose kind has the value
unfoldable pub find_edge : List SchemaEdge → String → Option SchemaEdge
unfolding edge_value
find_edge [] predicate = none
find_edge (e ∷ es) predicate =
    if edge_value e.kind == predicate then some e else find_edge es predicate

-- `ExtractionSchema.by_predicate`
unfoldable pub by_predicate : ExtractionSchema → String → Option SchemaEdge
unfolding find_edge
by_predicate schema predicate = find_edge schema.edges predicate

-- `EXTRACTION_SCHEMA`
unfoldable pub extraction_schema : ExtractionSchema
extraction_schema = record {
  edges =
      record {
        kind = collaborates_with;
        src_kind = some sig;
        dst_kind = some sig;
        description = "two SIGs that the prose says work together on shared scope";
      }
      ∷ record {
        kind = supersedes;
        src_kind = some kep;
        dst_kind = some kep;
        description = "a KEP that the prose says replaces/obsoletes an earlier KEP";
      }
      ∷ record {
        kind = depends_on;
        src_kind = some kep;
        dst_kind = some kep;
        description = "a KEP that the prose says builds on / requires another KEP";
      }
      ∷ [];
}

pub record CandidateTriple : Type 0 where
  pub subject : String
  pub predicate : String
  pub object : String
  pub source_doc : String
  pub span : String

pub record TripleValidation : Type 0 where
  pub is_ok : Bool
  pub triple : CandidateTriple
  pub violated_rule : Option String

abbrev rejected : CandidateTriple → String → TripleValidation
rejected triple rule = record { is_ok = false; triple = triple; violated_rule = some rule }

unfoldable pub validate_triple : CandidateTriple → ExtractionSchema → TripleValidation
unfolding strip word_count by_predicate
validate_triple triple schema =
    if strip triple.subject == ""
    then rejected triple "empty-subject"
    else if strip triple.object == ""
    then rejected triple "empty-object"
    else (let predicate = strip triple.predicate in
        if predicate == "" || not (same_code (word_count predicate) 1)
        then rejected triple "malformed-predicate"
        else (elim (by_predicate schema predicate) [
          | none ↦ rejected triple "off-schema-predicate"
          | some schema_edge ↦
              if not (is_some schema_edge.src_kind && is_some schema_edge.dst_kind)
              then rejected triple "unknown-endpoint-kind"
              else record { is_ok = true; triple = triple; violated_rule = none }
        ]))
