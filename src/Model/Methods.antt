-- ===== src/Model/Methods.antt =====
-- The deterministic and the LLM-extractable kinds, and the method that is read off a kind.
use graphrag_aws_template.Prelude.{
  true, not, ◌≡◌, ◌↔◌, ap, arith, contains, String, string_eq, ◌==◌,
}
use graphrag_aws_template.Model.{
  EdgeKind, chairs, tech_leads, Edge, key, edge_value_inj, deterministic_edge_kinds,
  llm_extractable_edge_kinds, extraction_method_for_kind, extraction_method_llm,
  extraction_method_deterministic, edge_eq,
}

methods_differ :
    ((extraction_method_deterministic == extraction_method_llm) ≡ true)
    ↔ (extraction_method_deterministic ≡ extraction_method_llm)
methods_differ = string_eq.beq_iff extraction_method_deterministic extraction_method_llm

-- Every kind is in exactly one of the two sets, and its method says in which.
pub extraction_method-partition :
    (kind : EdgeKind)
    → (contains deterministic_edge_kinds kind ≡ not (contains llm_extractable_edge_kinds kind))
      × ((extraction_method_for_kind kind ≡ extraction_method_llm)
          ↔ (contains llm_extractable_edge_kinds kind ≡ true))
      × ((extraction_method_for_kind kind ≡ extraction_method_deterministic)
          ↔ (contains deterministic_edge_kinds kind ≡ true))
unfolding extraction_method_for_kind
extraction_method-partition chairs = ground (arith, methods_differ)
extraction_method-partition tech_leads = ground (arith, methods_differ)
extraction_method-partition _ = ground (arith, methods_differ)

-- Two edges with one key have one method.
pub extraction_method-key :
    (e f : Edge)
    → key e ≡ key f
    → extraction_method_for_kind e.kind ≡ extraction_method_for_kind f.kind
unfolding key
extraction_method-key e f h =
    ap extraction_method_for_kind
      (edge_value_inj e.kind f.kind (ap (λ (k : String × (String × String)). k.1.0) h))
