-- ===== src/Extraction/Canonical.antt =====
-- ground.py, `ground_triple`, on mentions that are ids already.
use graphrag_aws_template.Prelude.{
  ◌≡◌, String, true, some, [], ◌∷◌, ◌==◌, string_eq, pair_eq, keep, contains, arith,
}
use graphrag_aws_template.Prelude.Dicts.{Dict}
use graphrag_aws_template.Prelude.Text.{strip}
use graphrag_aws_template.Normalize.{Unicode}
use graphrag_aws_template.Model.{entity_eq, edge_eq, edge_value, Graph}
use graphrag_aws_template.Extraction.{EndpointKind, SchemaEdge, ExtractionSchema, CandidateTriple}
use graphrag_aws_template.Extraction.Grounding.{
  is_node_of, first_node_of, ground_endpoint, ground_along, ground_only, ground_triple,
}

module _ (U : Unicode) where
  ground_endpoint-canonical :
      (raw : String) (kind : EndpointKind) (graph : Graph) (aliases : Dict String String)
      → is_node_of graph (strip raw) kind ≡ true
      → ground_endpoint U raw kind graph aliases ≡ some (strip raw)
  unfolding ground_endpoint first_node_of contains
  ground_endpoint-canonical raw kind graph aliases h = ground (arith, h)

  -- A triple whose stripped mentions already are ids of nodes, of the endpoint kinds of the only
  -- schema edge of its predicate, is grounded to those ids.
  pub ground_triple-canonical :
      (triple : CandidateTriple) (graph : Graph) (schema : ExtractionSchema)
      (aliases : Dict String String) (e : SchemaEdge)
      → keep (λ e. edge_value e.kind == strip triple.predicate) schema.edges ≡ e ∷ []
      → is_node_of graph (strip triple.subject) e.src_kind ≡ true
      → is_node_of graph (strip triple.object) e.dst_kind ≡ true
      → ground_triple U triple graph schema aliases
        ≡ some (record {
          src_id = strip triple.subject;
          dst_id = strip triple.object;
          kind = e.kind;
          source_doc = triple.source_doc;
          span = triple.span;
        })
  unfolding ground_triple ground_only ground_along
  ground_triple-canonical triple graph schema aliases e only src dst = rw only (
      ground (
        arith,
        ground_endpoint-canonical triple.subject e.src_kind graph aliases src,
        ground_endpoint-canonical triple.object e.dst_kind graph aliases dst,
      ))
