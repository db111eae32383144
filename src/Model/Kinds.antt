-- ===== src/Model/Kinds.antt =====
-- The enumerations of model.py. A `StrEnum` member is equal to another when their values are.
use graphrag_aws_template.Prelude.{
  String, Bool, true, ◌≡◌, ◌↔◌, refl, ap, List, [], ◌∷◌, Option, none, some, Eq, ◌==◌, string_eq,
  contains, if◌then◌else◌,
}

pub data EntityKind : Type 0 where
  sig person kep subproject : EntityKind

unfoldable pub entity_value : EntityKind → String
entity_value sig = "SIG"
entity_value person = "Person"
entity_value kep = "KEP"
entity_value subproject = "Subproject"

pub data EdgeKind : Type 0 where
  chairs tech_leads owns authors approves has_subproject : EdgeKind
  collaborates_with supersedes depends_on : EdgeKind

unfoldable pub edge_value : EdgeKind → String
edge_value chairs = "CHAIRS"
edge_value tech_leads = "TECH_LEADS"
edge_value owns = "OWNS"
edge_value authors = "AUTHORS"
edge_value approves = "APPROVES"
edge_value has_subproject = "HAS_SUBPROJECT"
edge_value collaborates_with = "COLLABORATES_WITH"
edge_value supersedes = "SUPERSEDES"
edge_value depends_on = "DEPENDS_ON"

-- the members, in the order of their declaration
abbrev pub edge_kinds : List EdgeKind
edge_kinds =
    chairs ∷ tech_leads ∷ owns ∷ authors ∷ approves ∷ has_subproject ∷ collaborates_with
    ∷ supersedes ∷ depends_on ∷ []

pub data Direction : Type 0 where
  out inward : Direction

-- the member of a value, for the proof that no two members share one
entity_named : String → Option EntityKind
entity_named s =
    if s == "SIG"
    then some sig
    else if s == "Person"
    then some person
    else if s == "KEP"
    then some kep
    else if s == "Subproject"
    then some subproject
    else none

entity_named-entity_value : (k : EntityKind) → entity_named (entity_value k) ≡ some k
unfolding entity_named entity_value
entity_named-entity_value sig = refl
entity_named-entity_value person = refl
entity_named-entity_value kep = refl
entity_named-entity_value subproject = refl

pub entity_value_inj : (k l : EntityKind) → entity_value k ≡ entity_value l → k ≡ l
entity_value_inj k l h =
    cc (ap entity_named h, entity_named-entity_value k, entity_named-entity_value l)

named : List EdgeKind → String → Option EdgeKind
named [] s = none
named (k ∷ ks) s = if edge_value k == s then some k else named ks s

named-edge_value : (k : EdgeKind) → named edge_kinds (edge_value k) ≡ some k
unfolding named edge_value
named-edge_value chairs = refl
named-edge_value tech_leads = refl
named-edge_value owns = refl
named-edge_value authors = refl
named-edge_value approves = refl
named-edge_value has_subproject = refl
named-edge_value collaborates_with = refl
named-edge_value supersedes = refl
named-edge_value depends_on = refl

pub edge_value_inj : (k l : EdgeKind) → edge_value k ≡ edge_value l → k ≡ l
edge_value_inj k l h = cc (ap (named edge_kinds) h, named-edge_value k, named-edge_value l)

abbrev pub entity_beq : EntityKind → EntityKind → Bool
entity_beq k l = entity_value k == entity_value l

pub entity_beq_iff : (k l : EntityKind) → (entity_beq k l ≡ true) ↔ (k ≡ l)
entity_beq_iff k l = (
  λ h. entity_value_inj k l ((string_eq.beq_iff (entity_value k) (entity_value l)).0 h),
  λ e. (string_eq.beq_iff (entity_value k) (entity_value l)).1 (ap entity_value e),
)

instance abbrev pub entity_eq : Eq EntityKind
entity_eq = record { beq = entity_beq; beq_iff = entity_beq_iff }

abbrev pub edge_beq : EdgeKind → EdgeKind → Bool
edge_beq k l = edge_value k == edge_value l

pub edge_beq_iff : (k l : EdgeKind) → (edge_beq k l ≡ true) ↔ (k ≡ l)
edge_beq_iff k l = (
  λ h. edge_value_inj k l ((string_eq.beq_iff (edge_value k) (edge_value l)).0 h),
  λ e. (string_eq.beq_iff (edge_value k) (edge_value l)).1 (ap edge_value e),
)

instance abbrev pub edge_eq : Eq EdgeKind
edge_eq = record { beq = edge_beq; beq_iff = edge_beq_iff }

-- `DETERMINISTIC_EDGE_KINDS`, `LLM_EXTRACTABLE_EDGE_KINDS`
abbrev pub deterministic_edge_kinds : List EdgeKind
deterministic_edge_kinds = chairs ∷ tech_leads ∷ owns ∷ authors ∷ approves ∷ has_subproject ∷ []

abbrev pub llm_extractable_edge_kinds : List EdgeKind
llm_extractable_edge_kinds = collaborates_with ∷ supersedes ∷ depends_on ∷ []

abbrev pub extraction_method_deterministic : String
extraction_method_deterministic = "deterministic"

abbrev pub extraction_method_llm : String
extraction_method_llm = "schema-guided-llm"

unfoldable pub extraction_method_for_kind : EdgeKind → String
unfolding contains edge_value
extraction_method_for_kind kind =
    if contains llm_extractable_edge_kinds kind
    then extraction_method_llm
    else extraction_method_deterministic
