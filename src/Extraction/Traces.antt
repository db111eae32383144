-- ===== src/Extraction/Traces.antt =====
-- schema_extract.py, `ground_candidates`: the trace, and the edges and counts that it gives.
use graphrag_aws_template.Prelude.{
  suc, ◌+◌, ◌≡◌, refl, ap, String, Option-cases, none, some, List, [], ◌∷◌, map, string_eq, pair_eq,
  keep, length, arith, Bool-cases, inl, inr, ◌⊎◌,
}
use graphrag_aws_template.Prelude.Dicts.{Dict}
use graphrag_aws_template.Normalize.{Unicode}
use graphrag_aws_template.Model.{entity_eq, edge_eq, Edge, Graph}
use graphrag_aws_template.Store.Memory.{collect}
use graphrag_aws_template.Extraction.{ExtractionSchema, CandidateTriple, validate_triple}
use graphrag_aws_template.Extraction.Grounding.{ground_triple}
use graphrag_aws_template.Extraction.Guided.{
  TraceEntry, verdict_accepted, verdict_off_schema, verdict_dropped, accepted_count,
  off_schema_count, dropped_count, count_verdict, stamped_edge, judge, ground_candidates, with_edge,
}

-- an accepted entry has an edge, and the others have none
abbrev HasVerdict : TraceEntry → Type 0
HasVerdict e =
    ((e.verdict ≡ verdict_accepted) × ((edge : Edge) × (e.edge ≡ some edge)))
    ⊎ (((e.verdict ≡ verdict_off_schema) ⊎ (e.verdict ≡ verdict_dropped)) × (e.edge ≡ none))

-- One entry for each candidate in their order, the edges of the entries in their order, as many of
-- them as entries that count as accepted, and counts that add up to the number of candidates.
abbrev pub IsTraceOf : List CandidateTriple → List TraceEntry → List Edge → Type 0
IsTraceOf candidates entries edges =
    (map (λ e. e.candidate) entries ≡ candidates)
    × (edges ≡ collect (λ e. e.edge) entries)
    × (accepted_count entries ≡ length edges)
    × (accepted_count entries + off_schema_count entries + dropped_count entries
        ≡ length candidates)

IsTraceOf-step :
    (e : TraceEntry) (c : CandidateTriple) (cs : List CandidateTriple) (es : List TraceEntry)
    (edges : List Edge)
    → HasVerdict e
    → e.candidate ≡ c
    → IsTraceOf cs es edges
    → IsTraceOf (c ∷ cs) (e ∷ es) (with_edge e.edge edges)
unfolding collect accepted_count off_schema_count dropped_count count_verdict keep
IsTraceOf-step e c cs es edges (inl (v, (edge, p))) q (same, taken, counted, total) =
    rw (v, p) (cc (q, same), ap (◌∷◌ edge) taken, ap suc counted, omega (arith, total))
IsTraceOf-step e c cs es edges (inr (inl v, p)) q (same, taken, counted, total) =
    rw (v, p) (cc (q, same), taken, counted, omega (arith, total))
IsTraceOf-step e c cs es edges (inr (inr v, p)) q (same, taken, counted, total) =
    rw (v, p) (cc (q, same), taken, counted, omega (arith, total))

module _ (U : Unicode) where
  judge-verdict :
      (graph : Graph) (schema : ExtractionSchema) (aliases : Dict String String)
      (c : CandidateTriple)
      → HasVerdict (judge U graph schema aliases c)
  unfolding judge
  judge-verdict graph schema aliases c = elim (Bool-cases (validate_triple c schema).is_ok) [
    | inr bad ↦ rw bad (inr (inl refl, refl))
    | inl good ↦ rw good (elim (Option-cases (ground_triple U c graph schema aliases)) [
      | inl p ↦ rw p (inr (inr refl, refl))
      | inr (t, p) ↦ rw p (inl (refl, (stamped_edge t, refl)))
    ])
  ]

  judge-candidate :
      (graph : Graph) (schema : ExtractionSchema) (aliases : Dict String String)
      (c : CandidateTriple)
      → (judge U graph schema aliases c).candidate ≡ c
  unfolding judge
  judge-candidate graph schema aliases c = elim (Bool-cases (validate_triple c schema).is_ok) [
    | inr bad ↦ rw bad refl
    | inl good ↦ rw good (elim (Option-cases (ground_triple U c graph schema aliases)) [
      | inl p ↦ rw p refl
      | inr (t, p) ↦ rw p refl
    ])
  ]

  -- The trace has one entry for each candidate, in their order; the edges are those of the entries,
  -- in their order; as many entries are counted as accepted as there are edges; and the three counts
  -- add up to the number of candidates.
  pub ground_candidates-IsTraceOf :
      (candidates : List CandidateTriple) (graph : Graph) (schema : ExtractionSchema)
      (aliases : Dict String String)
      → IsTraceOf candidates
          (ground_candidates U candidates graph schema aliases).0
          (ground_candidates U candidates graph schema aliases).1
  unfolding ground_candidates
  ground_candidates-IsTraceOf [] graph schema aliases =
      unfold collect accepted_count off_schema_count dropped_count count_verdict keep in
      (refl, refl, refl, refl)
  ground_candidates-IsTraceOf (c ∷ cs) graph schema aliases =
      IsTraceOf-step (judge U graph schema aliases c) c cs _ _
        (judge-verdict graph schema aliases c) (judge-candidate graph schema aliases c)
        (ground_candidates-IsTraceOf cs graph schema aliases)
