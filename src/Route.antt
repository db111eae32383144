-- ===== src/Route.antt =====
-- packages/graphrag/src/graphrag/route.py: the choice of an engine, by rules or by a model whose answer
-- is checked. The links of the question, `str.lower` and the model's call are arguments; the call gives
-- the `engine` member of the JSON object in the model's text, and `none` where it raised or found none.
pub mod Engines
use graphrag_aws_template.Prelude.{
  String, Bool, true, false, not, ◌&&◌, ◌||◌, Option, none, some, List, [], ◌∷◌, any, contains,
  is_empty, string_eq, if◌then◌else◌,
}
use graphrag_aws_template.Prelude.Text.{occurs_in}
use graphrag_aws_template.Model.{Value, null, text, other}
use graphrag_aws_template.Hybrid.{Candidate}

abbrev pub engine_hybrid : String
engine_hybrid = "hybrid"

abbrev pub engine_global : String
engine_global = "global"

abbrev pub engines : List String
engines = engine_hybrid ∷ engine_global ∷ []

abbrev pub reason_anchor_no_cue : String
reason_anchor_no_cue = "entity anchor, no corpus cue"

abbrev pub reason_anchor_beats_cue : String
reason_anchor_beats_cue = "entity anchor present — anchor beats cue"

abbrev pub reason_cue_no_anchor : String
reason_cue_no_anchor = "corpus-wide cue, no dominant anchor"

abbrev pub reason_default_local : String
reason_default_local = "no anchor or cue — default Local (degrades gracefully)"

abbrev pub reason_bedrock_selected : String
reason_bedrock_selected = "selected by the semantic engine router"

-- `_GLOBAL_CUES`
abbrev pub global_cues : List String
global_cues =
    "overall" ∷ "across all" ∷ "across the" ∷ "in general" ∷ "themes" ∷ "landscape" ∷ "summarize"
    ∷ "summary" ∷ "how many" ∷ "which sigs" ∷ "what are" ∷ "big picture" ∷ "broadly" ∷ []

pub record RouteDecision : Type 0 where
  pub engine : String
  pub reason : String
  pub decided_by : String

-- `RuleQueryRouter.model_id`
abbrev pub rule_model_id : String
rule_model_id = "rule-offline (deterministic, non-semantic)"

abbrev decision : String → String → RouteDecision
decision engine reason = record { engine = engine; reason = reason; decided_by = rule_model_id }

-- the four rows of the table, from the two signals
unfoldable pub decide_rule : Bool → Bool → RouteDecision
decide_rule true false = decision engine_hybrid reason_anchor_no_cue
decide_rule true true = decision engine_hybrid reason_anchor_beats_cue
decide_rule false true = decision engine_global reason_cue_no_anchor
decide_rule false false = decision engine_hybrid reason_default_local

-- the model's choice, or the fallback if that is unusable
unfoldable pub honour : String → RouteDecision → Option String → RouteDecision
honour model_id fallback none = fallback
honour model_id fallback (some engine) = record {
  engine = engine;
  reason = reason_bedrock_selected;
  decided_by = model_id;
}

-- `_validate_engine`
unfoldable pub validate_engine : Value → Option String
unfolding contains
validate_engine null = none
validate_engine (text s) = if contains engines s then some s else none
validate_engine (other type_name s) = none

module _ (link : String → List Candidate) (lower : String → String) where
  unfoldable pub is_anchored : String → Bool
  is_anchored q = not (is_empty (link q))

  unfoldable pub is_cued : String → Bool
  unfolding occurs_in any
  is_cued q = any (λ cue. occurs_in cue (lower q)) global_cues

  -- `RuleQueryRouter.route`
  unfoldable pub rule_route : String → RouteDecision
  unfolding is_anchored is_cued decide_rule
  rule_route q = decide_rule (is_anchored q) (is_cued q)

  -- `BedrockQueryRouter.route`, with the model's id and its call
  module _ (model_id : String) (converse : String → Option Value) where
    unfoldable pub converse_engine : String → Option String
    unfolding validate_engine
    converse_engine q = elim (converse q) [ none ↦ none | some raw ↦ validate_engine raw ]

    unfoldable pub bedrock_route : String → RouteDecision
    unfolding converse_engine rule_route honour
    bedrock_route q = honour model_id (rule_route q) (converse_engine q)
