-- ===== src/Extraction/Fitting.antt =====
-- schema_extract.py, `ground_candidates`: which edges come out of the two guards.
use graphrag_aws_template.Prelude.{
  ◌≡◌, refl, ap, String, Bool, true, ◌&&◌, Option, Option-cases, none, some, List, [], ◌∷◌, ◌==◌,
  string_eq, pair_eq, keep, any, all, All, any-split, All-of_all, ◌++◌, sym, arith, inl, inr,
}
use graphrag_aws_template.Prelude.Dicts.{Dict}
use graphrag_aws_template.Prelude.Text.{strip}
use graphrag_aws_template.Normalize.{Unicode}
use graphrag_aws_template.Model.{
  EdgeKind, entity_eq, Node, get_node, edge_eq, edge_value, Edge, Graph,
}
use graphrag_aws_template.Extraction.{EndpointKind, SchemaEdge, ExtractionSchema, CandidateTriple}
use graphrag_aws_template.Extraction.Grounding.{
  GroundedTriple, is_node_of, first_node_of, ground_endpoint, ground_along, ground_only,
  ground_triple, normalize,
}
use graphrag_aws_template.Extraction.Guided.{stamped_edge, judge, ground_candidates}

-- The ids are nodes of the graph, of the kinds that the schema's edge has.
abbrev pub fits_edge : Graph → EdgeKind → String → String → SchemaEdge → Bool
fits_edge graph kind src_id dst_id e =
    (e.kind == kind) && (is_node_of graph src_id e.src_kind && is_node_of graph dst_id e.dst_kind)

abbrev pub fits_schema : Graph → ExtractionSchema → Edge → Bool
fits_schema graph schema edge = any (fits_edge graph edge.kind edge.src_id edge.dst_id) schema.edges

-- the id is a node of the graph, of that kind
abbrev pub HasKind : Graph → String → EndpointKind → Type 0
HasKind graph id kind = (node : Node) × (get_node graph id ≡ some node) × (kind ≡ some node.kind)

-- The schema has an edge of the edge's kind, and the edge joins nodes of the kinds that it names.
abbrev pub Fits : Graph → ExtractionSchema → Edge → Type 0
Fits graph schema edge =
    (e : SchemaEdge) × ((before : List SchemaEdge) × (after : List SchemaEdge) × (schema.edges
        ≡ before ++ e ∷ after))
    × (e.kind ≡ edge.kind)
    × HasKind graph edge.src_id e.src_kind
    × HasKind graph edge.dst_id e.dst_kind

is_node_of-HasKind :
    (graph : Graph) (id : String) (kind : EndpointKind)
    → is_node_of graph id kind ≡ true
    → HasKind graph id kind
unfolding is_node_of
is_node_of-HasKind graph id none h = absurd (ground arith)
is_node_of-HasKind graph id (some kind) h = elim (Option-cases (get_node graph id)) [
  | inl p ↦ absurd (ground arith)
  | inr (node, p) ↦ (node, p, ap some (sym ((entity_eq.beq_iff node.kind kind).0 (ground arith))))
]

fits_schema-Fits :
    (graph : Graph) (schema : ExtractionSchema) (edge : Edge)
    → fits_schema graph schema edge ≡ true
    → Fits graph schema edge
fits_schema-Fits graph schema edge h =
    let (before, e, after, there, fits) =
      any-split (fits_edge graph edge.kind edge.src_id edge.dst_id) schema.edges h in
    (
      e,
      (before, after, there),
      (edge_eq.beq_iff e.kind edge.kind).0 (ground arith),
      is_node_of-HasKind graph edge.src_id e.src_kind (ground arith),
      is_node_of-HasKind graph edge.dst_id e.dst_kind (ground arith),
    )

first_node_of_sound :
    (graph : Graph) (kind : EndpointKind) (seen : List String) (ids : List (Option String))
    (id : String)
    → first_node_of graph kind seen ids ≡ some id
    → is_node_of graph id kind ≡ true
unfolding first_node_of
first_node_of_sound graph kind seen [] id h = absurd (ground arith)
first_node_of_sound graph kind seen (none ∷ rest) id h =
    first_node_of_sound graph kind seen rest id h
first_node_of_sound graph kind seen (some i ∷ rest) id h = ground (
  arith,
  first_node_of_sound graph kind seen rest id,
  first_node_of_sound graph kind (i ∷ seen) rest id,
)

any_kept {ℓ} :
    {A : Type ℓ} (p q : A → Bool) (xs : List A) (a : A) (rest : List A)
    → keep p xs ≡ a ∷ rest
    → q a ≡ true
    → any q xs ≡ true
unfolding keep any
any_kept p q [] a rest h k = absurd (ground arith)
any_kept p q (x ∷ xs) a rest h k = ground (arith, any_kept p q xs a rest)

module _ (U : Unicode) where
  ground_endpoint_sound :
      (raw : String) (kind : EndpointKind) (graph : Graph) (aliases : Dict String String)
      (id : String)
      → ground_endpoint U raw kind graph aliases ≡ some id
      → is_node_of graph id kind ≡ true
  unfolding ground_endpoint
  ground_endpoint_sound raw kind graph aliases id h =
      first_node_of_sound graph kind [] (some (strip raw) ∷ normalize U raw kind aliases ∷ []) id h

  ground_along_sound :
      (triple : CandidateTriple) (graph : Graph) (aliases : Dict String String) (e : SchemaEdge)
      (t : GroundedTriple)
      → ground_along U triple graph aliases e ≡ some t
      → fits_edge graph t.kind t.src_id t.dst_id e ≡ true
  unfolding ground_along
  ground_along_sound triple graph aliases e t h =
      elim (Option-cases (ground_endpoint U triple.subject e.src_kind graph aliases)) [
        | inl p ↦ absurd (ground arith)
        | inr (i, p) ↦
            elim (Option-cases (ground_endpoint U triple.object e.dst_kind graph aliases)) [
              | inl q ↦ absurd (ground arith)
              | inr (j, q) ↦ ground (
                arith,
                edge_eq.beq_iff e.kind e.kind,
                ground_endpoint_sound triple.subject e.src_kind graph aliases i p,
                ground_endpoint_sound triple.object e.dst_kind graph aliases j q,
              )
            ]
      ]

  ground_only_sound :
      (triple : CandidateTriple) (graph : Graph) (aliases : Dict String String)
      (es : List SchemaEdge) (t : GroundedTriple)
      → ground_only U triple graph aliases es ≡ some t
      → (e : SchemaEdge) × (es ≡ e ∷ []) × (fits_edge graph t.kind t.src_id t.dst_id e ≡ true)
  unfolding ground_only
  ground_only_sound triple graph aliases [] t h = absurd (ground arith)
  ground_only_sound triple graph aliases (e ∷ []) t h =
      (e, refl, ground_along_sound triple graph aliases e t h)
  ground_only_sound triple graph aliases (e ∷ f ∷ es) t h = absurd (ground arith)

  ground_triple_sound :
      (triple : CandidateTriple) (graph : Graph) (schema : ExtractionSchema)
      (aliases : Dict String String) (t : GroundedTriple)
      → ground_triple U triple graph schema aliases ≡ some t
      → fits_schema graph schema (stamped_edge t) ≡ true
  unfolding ground_triple stamped_edge
  ground_triple_sound triple graph schema aliases t h =
      let (e, only, fits) = ground_only_sound triple graph aliases _ t h in
      any_kept (λ e. edge_value e.kind == strip triple.predicate)
        (fits_edge graph t.kind t.src_id t.dst_id) schema.edges e [] only fits

  judge_sound :
      (graph : Graph) (schema : ExtractionSchema) (aliases : Dict String String)
      (candidate : CandidateTriple) (edge : Edge)
      → (judge U graph schema aliases candidate).edge ≡ some edge
      → fits_schema graph schema edge ≡ true
  unfolding judge
  judge_sound graph schema aliases candidate edge h =
      elim (Option-cases (ground_triple U candidate graph schema aliases)) [
        | inl p ↦ absurd (ground arith)
        | inr (t, p) ↦ ground (arith, ground_triple_sound candidate graph schema aliases t p)
      ]

  pub all-ground_candidates :
      (candidates : List CandidateTriple) (graph : Graph) (schema : ExtractionSchema)
      (aliases : Dict String String)
      → all (fits_schema graph schema) (ground_candidates U candidates graph schema aliases).1
        ≡ true
  unfolding ground_candidates all
  all-ground_candidates [] graph schema aliases = refl
  all-ground_candidates (c ∷ cs) graph schema aliases =
      elim (Option-cases (judge U graph schema aliases c).edge) [
        | inl p ↦ rw p (all-ground_candidates cs graph schema aliases)
        | inr (edge, p) ↦ ground (
          arith,
          judge_sound graph schema aliases c edge p,
          all-ground_candidates cs graph schema aliases,
        )
      ]

  -- Every edge that comes out of the guards joins two nodes of the graph, along an edge of the
  -- schema of the same kind whose endpoint kinds are the kinds of the two nodes.
  pub ground_candidates_sound :
      (candidates : List CandidateTriple) (graph : Graph) (schema : ExtractionSchema)
      (aliases : Dict String String)
      → All (Fits graph schema) (ground_candidates U candidates graph schema aliases).1
  ground_candidates_sound candidates graph schema aliases =
      All-of_all (fits_schema graph schema) (fits_schema-Fits graph schema) _
        (all-ground_candidates candidates graph schema aliases)
