-- ===== src/Route/Engines.antt =====
-- route.py: the engine that a router decides for.
use graphrag_aws_template.Prelude.{
  ◌≡◌, refl, String, Bool, true, false, not, ◌&&◌, Option, Option-cases, none, some, List, contains,
  string_eq, arith, inl, inr, ◌==◌,
}
use graphrag_aws_template.Model.{Value, null, text, other}
use graphrag_aws_template.Hybrid.{Candidate}
use graphrag_aws_template.Route.{
  engine_global, engines, RouteDecision, decide_rule, validate_engine, is_anchored, is_cued,
  rule_route, rule_model_id, converse_engine, bedrock_route, honour,
}

decide_rule_lem :
    (anchored cued : Bool)
    → (contains engines (decide_rule anchored cued).engine ≡ true)
      × (((decide_rule anchored cued).engine == engine_global) ≡ (cued && not anchored))
      × ((decide_rule anchored cued).decided_by ≡ rule_model_id)
unfolding decide_rule contains
decide_rule_lem true false = (refl, refl, refl)
decide_rule_lem true true = (refl, refl, refl)
decide_rule_lem false true = (refl, refl, refl)
decide_rule_lem false false = (refl, refl, refl)

validate_engine_lem :
    (raw : Value) (e : String) → validate_engine raw ≡ some e → contains engines e ≡ true
unfolding validate_engine
validate_engine_lem null e h = absurd (ground arith)
validate_engine_lem (text s) e h = ground arith
validate_engine_lem (other type_name s) e h = absurd (ground arith)

honour_lem :
    (model_id : String) (fallback : RouteDecision) (o : Option String)
    → contains engines fallback.engine ≡ true
    → ((e : String) → o ≡ some e → contains engines e ≡ true)
    → (contains engines (honour model_id fallback o).engine ≡ true)
      × (o ≡ none → honour model_id fallback o ≡ fallback)
unfolding honour
honour_lem model_id fallback none h k = (h, λ e. refl)
honour_lem model_id fallback (some e) h k = (k e refl, λ p. absurd (ground arith))

module _ (link : String → List Candidate) (lower : String → String) (model_id : String)
    (converse : String → Option Value) where
  converse_engine_lem :
      (q e : String)
      → converse_engine link lower model_id converse q ≡ some e
      → contains engines e ≡ true
  unfolding converse_engine
  converse_engine_lem q e h = elim (Option-cases (converse q)) [
    | inl p ↦ absurd (ground arith)
    | inr (raw, p) ↦ validate_engine_lem raw e (ground arith)
  ]

  -- Both routers decide for an engine of the fixed set, whatever the model answers. The rules decide
  -- for the global engine exactly if the question has a cue and no anchor. If the model's answer is
  -- unusable, then the model's router decides as the rules do.
  pub route-engines :
      (q : String)
      → (contains engines (rule_route link lower q).engine ≡ true)
        × (contains engines (bedrock_route link lower model_id converse q).engine ≡ true)
        × (((rule_route link lower q).engine == engine_global)
            ≡ (is_cued link lower q && not (is_anchored link lower q)))
        × (converse_engine link lower model_id converse q ≡ none
            → bedrock_route link lower model_id converse q ≡ rule_route link lower q)
  unfolding rule_route bedrock_route
  route-engines q =
      let rule = decide_rule_lem (is_anchored link lower q) (is_cued link lower q) in
      let chosen =
        honour_lem model_id (rule_route link lower q)
          (converse_engine link lower model_id converse q) rule.0 (converse_engine_lem q) in
      (rule.0, chosen.0, rule.1, chosen.1)
