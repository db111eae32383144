-- ===== src/Extraction/Grounding.antt =====
-- packages/graphrag/src/graphrag/ground.py: the second guard, that an endpoint is a node of the graph.
use graphrag_aws_template.Prelude.{
  String, Bool, false, Option, none, some, List, [], ◌∷◌, ◌==◌, string_eq, keep, contains,
  if◌then◌else◌,
}
use graphrag_aws_template.Prelude.Dicts.{Dict}
use graphrag_aws_template.Prelude.Text.{strip}
use graphrag_aws_template.Normalize.{Unicode, sig_id, kep_id, person_id}
use graphrag_aws_template.Model.{
  sig, kep, person, subproject, entity_eq, EdgeKind, edge_value, Graph, get_node,
}
use graphrag_aws_template.Extraction.{EndpointKind, SchemaEdge, ExtractionSchema, CandidateTriple}

pub record GroundedTriple : Type 0 where
  pub src_id : String
  pub dst_id : String
  pub kind : EdgeKind
  pub source_doc : String
  pub span : String

-- the node is there, and of the kind
unfoldable pub is_node_of : Graph → String → EndpointKind → Bool
unfolding get_node
is_node_of graph id none = false
is_node_of graph id (some kind) = elim (get_node graph id) [
  | none ↦ false
  | some node ↦ node.kind == kind
]

-- the loop of `_ground_endpoint` over the ids to try, with those it has seen
unfoldable pub first_node_of :
    Graph → EndpointKind → List String → List (Option String) → Option String
unfolding is_node_of contains
first_node_of graph kind seen [] = none
first_node_of graph kind seen (none ∷ rest) = first_node_of graph kind seen rest
first_node_of graph kind seen (some id ∷ rest) =
    if contains seen id
    then first_node_of graph kind seen rest
    else if is_node_of graph id kind
    then some id
    else first_node_of graph kind (id ∷ seen) rest

module _ (U : Unicode) where
  -- `_normalize`, with the table `_NORMALIZERS`
  unfoldable pub normalize : String → EndpointKind → Dict String String → Option String
  unfolding sig_id kep_id person_id
  normalize raw none aliases = none
  normalize raw (some person) aliases = some (person_id U raw aliases)
  normalize raw (some sig) aliases = some (sig_id U raw)
  normalize raw (some kep) aliases = some (kep_id U raw)
  normalize raw (some subproject) aliases = none

  unfoldable pub ground_endpoint :
      String → EndpointKind → Graph → Dict String String → Option String
  unfolding first_node_of strip normalize
  ground_endpoint raw kind graph aliases =
      first_node_of graph kind [] (some (strip raw) ∷ normalize raw kind aliases ∷ [])

  -- the end of `ground_triple`, at the one schema edge of the predicate
  unfoldable pub ground_along :
      CandidateTriple → Graph → Dict String String → SchemaEdge → Option GroundedTriple
  unfolding ground_endpoint
  ground_along triple graph aliases e =
      elim (ground_endpoint triple.subject e.src_kind graph aliases) [
        | none ↦ none
        | some src_id ↦ elim (ground_endpoint triple.object e.dst_kind graph aliases) [
          | none ↦ none
          | some dst_id ↦ some (record {
            src_id = src_id;
            dst_id = dst_id;
            kind = e.kind;
            source_doc = triple.source_doc;
            span = triple.span;
          })
        ]
      ]

  -- unless the list has exactly one edge, `none`
  unfoldable pub ground_only :
      CandidateTriple → Graph → Dict String String → List SchemaEdge → Option GroundedTriple
  unfolding ground_along
  ground_only triple graph aliases [] = none
  ground_only triple graph aliases (e ∷ []) = ground_along triple graph aliases e
  ground_only triple graph aliases (e ∷ f ∷ es) = none

  unfoldable pub ground_triple :
      CandidateTriple → Graph → ExtractionSchema → Dict String String → Option GroundedTriple
  unfolding ground_only strip keep edge_value
  ground_triple triple graph schema aliases =
      let predicate = strip triple.predicate in
      ground_only triple graph aliases (keep (λ e. edge_value e.kind == predicate) schema.edges)
