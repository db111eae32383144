-- ===== src/Extraction/Spared.antt =====
-- schema_extract.py: the edges that the guards let through, upserted into a graph.
use graphrag_aws_template.Prelude.{
  ◌≡◌, refl, subst, ◌∙◌, String, Bool, true, false, Option-cases, List, [], ◌∷◌, ◌==◌, string_eq,
  pair_eq, any, all, contains, arith, Bool-cases, inl, inr,
}
use graphrag_aws_template.Prelude.Dicts.{Dict, get, get-put}
use graphrag_aws_template.Normalize.{Unicode}
use graphrag_aws_template.Model.{
  EdgeKind, entity_eq, edge_eq, edge_value, Edge, key, Graph, deterministic_edge_kinds,
  llm_extractable_edge_kinds, upsert_edge, merge_edge,
}
use graphrag_aws_template.Model.Methods.{extraction_method-partition}
use graphrag_aws_template.Resolve.{upsert_edges}
use graphrag_aws_template.Extraction.{SchemaEdge, ExtractionSchema, CandidateTriple}
use graphrag_aws_template.Extraction.Guided.{ground_candidates}
use graphrag_aws_template.Extraction.Fitting.{fits_edge, fits_schema, all-ground_candidates}

-- every kind of the schema is an LLM-extractable one
abbrev pub is_closed : ExtractionSchema → Bool
is_closed schema = all (λ e. contains llm_extractable_edge_kinds e.kind) schema.edges

closed_kind :
    (graph : Graph) (edge : Edge) (es : List SchemaEdge)
    → all (λ e. contains llm_extractable_edge_kinds e.kind) es ≡ true
    → any (fits_edge graph edge.kind edge.src_id edge.dst_id) es ≡ true
    → contains llm_extractable_edge_kinds edge.kind ≡ true
unfolding all any
closed_kind graph edge [] h k = absurd (ground arith)
closed_kind graph edge (e ∷ es) h k =
    ground (arith, edge_eq.beq_iff e.kind edge.kind, closed_kind graph edge es)

key-apart :
    (edge : Edge) (kind : EdgeKind) (i j : String)
    → contains llm_extractable_edge_kinds edge.kind ≡ true
    → contains deterministic_edge_kinds kind ≡ true
    → (key edge == (i, (edge_value kind, j))) ≡ false
unfolding key
key-apart edge kind i j h k = elim (Bool-cases (edge_value edge.kind == edge_value kind)) [
  | inr other ↦ ground arith
  | inl same ↦ absurd (
      ground (
        arith,
        subst (λ l. contains llm_extractable_edge_kinds l ≡ true)
            ((edge_eq.beq_iff edge.kind kind).0 same) h,
        (extraction_method-partition kind).0,
      ))
]

upsert_edge-other :
    (g : Graph) (edge : Edge) (kind : EdgeKind) (i j : String)
    → contains llm_extractable_edge_kinds edge.kind ≡ true
    → contains deterministic_edge_kinds kind ≡ true
    → get (upsert_edge g edge).0.edge_table (i, (edge_value kind, j))
      ≡ get g.edge_table (i, (edge_value kind, j))
unfolding upsert_edge
upsert_edge-other g edge kind i j h k = elim (Option-cases (get g.edge_table (key edge))) [
  | inl p ↦ ground (
    arith,
    get-put g.edge_table (key edge) (i, (edge_value kind, j)) edge,
    key-apart edge kind i j h k,
  )
  | inr (f, p) ↦ ground (
    arith,
    get-put g.edge_table (key edge) (i, (edge_value kind, j)) (merge_edge f edge),
    key-apart edge kind i j h k,
  )
]

upsert_edges-other :
    (graph g : Graph) (schema : ExtractionSchema) (edges : List Edge) (kind : EdgeKind)
    (i j : String)
    → is_closed schema ≡ true
    → all (fits_schema graph schema) edges ≡ true
    → contains deterministic_edge_kinds kind ≡ true
    → get (upsert_edges g edges).edge_table (i, (edge_value kind, j))
      ≡ get g.edge_table (i, (edge_value kind, j))
unfolding upsert_edges all
upsert_edges-other graph g schema [] kind i j closed fits det = refl
upsert_edges-other graph g schema (e ∷ es) kind i j closed fits det =
    upsert_edges-other graph (upsert_edge g e).0 schema es kind i j closed (ground arith) det
    ∙ upsert_edge-other g e kind i j (closed_kind graph e schema.edges closed (ground arith)) det

module _ (U : Unicode) where
  -- If every kind of the schema is LLM-extractable, upserting the edges that come out of the guards
  -- leaves each edge of a deterministic kind as it was.
  pub ground_candidates-spares :
      (candidates : List CandidateTriple) (graph g : Graph) (schema : ExtractionSchema)
      (aliases : Dict String String) (kind : EdgeKind) (i j : String)
      → is_closed schema ≡ true
      → contains deterministic_edge_kinds kind ≡ true
      → get
          (upsert_edges g (ground_candidates U candidates graph schema aliases).1).edge_table
          (i, (edge_value kind, j))
        ≡ get g.edge_table (i, (edge_value kind, j))
  ground_candidates-spares candidates graph g schema aliases kind i j closed det =
      upsert_edges-other graph g schema _ kind i j closed
        (all-ground_candidates U candidates graph schema aliases) det
