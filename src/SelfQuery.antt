-- ===== src/SelfQuery.antt =====
-- packages/graphrag/src/graphrag/selfquery.py: the metadata filter that is read off a question, and
-- its validation. The links of a text (entity_link.py) are an argument, and so
-- is `str.lower`.
pub mod Query
pub mod Validation
pub mod Filtered
use graphrag_aws_template.Prelude.{
  ℕ, String, Bool, true, false, not, ◌&&◌, ◌||◌, ◌==◌, Option, none, some, List, [], ◌∷◌, ◌++◌, map,
  all, any, loop, contains, is_empty, string_eq, pair_eq, if◌then◌else◌,
}
use graphrag_aws_template.Prelude.Dicts.{Dict, get, put, index_by, keep_values}
use graphrag_aws_template.Prelude.Text.{occurs_in}
use graphrag_aws_template.Chunk.{Chunk}
use graphrag_aws_template.Visibility.{Clearance, get_or}
use graphrag_aws_template.Store.{GraphStore}
use graphrag_aws_template.VectorStore.{Floats, VectorHit, VectorStore}
use graphrag_aws_template.Retrieval.{Embedder, Synthesizer, vector_search}
use graphrag_aws_template.Query.{default_max_hops}
use graphrag_aws_template.Hybrid.{Candidate, HybridResult, hybrid_query, default_seed_cap}

-- `FieldKind`
pub data FieldKind : Type 0 where
  enumerated entity : FieldKind

pub record FieldSpec : Type 0 where
  pub name : String
  pub kind : FieldKind
  pub choices : Option (List String)

-- `FIELDS`, `FIELD_BY_NAME`
abbrev pub source_field : FieldSpec
source_field = record {
  name = "source";
  kind = enumerated;
  choices = some ("community" ∷ "enhancements" ∷ []);
}

abbrev pub entity_field : FieldSpec
entity_field = record { name = "entity_ids"; kind = entity; choices = none }

abbrev pub fields : List FieldSpec
fields = source_field ∷ entity_field ∷ []

unfoldable pub field_by_name : Dict String FieldSpec
unfolding index_by
field_by_name = index_by (λ f. f.name) fields

pub record MetadataFilter : Type 0 where
  pub terms : Dict String (List String)

-- `MetadataFilter.is_empty`
unfoldable pub is_unfiltered : MetadataFilter → Bool
is_unfiltered f = is_empty f.terms

-- one round of the loop of `matches`: whether it goes on
unfoldable pub matches_term : Chunk → String × List String → Bool
unfolding any contains
matches_term chunk (name, values) =
    if name == "source"
    then contains values chunk.source
    else if name == "entity_ids"
    then any (λ v. contains values v) chunk.entity_ids
    else false

unfoldable pub matches : MetadataFilter → Chunk → Bool
unfolding matches_term all
matches f chunk = all (matches_term chunk) f.terms

pub record DroppedFilter : Type 0 where
  pub field_name : String
  pub value : String
  pub reason : String

pub record FilterExtraction : Type 0 where
  pub filter : MetadataFilter
  pub dropped : List DroppedFilter

-- a raw extracted value: a text, a list, of whose items the texts are read, or another object; with
-- its text under `str`
pub data RawValue : Type 0 where
  raw_text : String → RawValue
  raw_list : List (Option String) → String → RawValue
  raw_other : String → RawValue

unfoldable pub texts_of : List (Option String) → List String
texts_of [] = []
texts_of (none ∷ items) = texts_of items
texts_of (some s ∷ items) = s ∷ texts_of items

-- `_as_values`
unfoldable pub as_values : RawValue → List String
unfolding texts_of
as_values (raw_text s) = s ∷ []
as_values (raw_list items shown) = texts_of items
as_values (raw_other shown) = []

abbrev shown_as : RawValue → String
shown_as (raw_text s) = s
shown_as (raw_list items shown) = shown
shown_as (raw_other shown) = shown

-- `values or [str(raw_value)]`
unfoldable pub values_or_shown : RawValue → List String
unfolding as_values
values_or_shown raw =
    let values = as_values raw in if is_empty values then shown_as raw ∷ [] else values

-- the variables of the loop of `validate_filter`
pub record Validated : Type 0 where
  pub kept : Dict String (List String)
  pub dropped : List DroppedFilter

unfoldable pub drop_value : String → String → Validated → String → Validated
drop_value name reason v value = record v {
  dropped = v.dropped ++ record { field_name = name; value = value; reason = reason } ∷ [];
}

-- kept.setdefault(name, []).append(value)
unfoldable pub append_value : String → String → Validated → Validated
unfolding put get_or
append_value name value v = record v {
  kept = put v.kept name (get_or v.kept name [] ++ value ∷ []);
}

-- the same, unless the value is there
unfoldable pub add_value : String → String → Validated → Validated
unfolding put get_or contains
add_value name value v =
    let bucket = get_or v.kept name [] in
    record v {
      kept = put v.kept name (if contains bucket value then bucket else bucket ++ value ∷ []);
    }

-- the branch of an entity, at the candidates
unfoldable pub add_first : String → String → List Candidate → Validated → Validated
unfolding add_value drop_value
add_first name value [] v = drop_value name "no declared-entity match" v value
add_first name value (c ∷ cs) v = add_value name c.entity_id v

module _ (link : String → List Candidate) where
  -- one round of the inner loop, at the field's specification
  unfoldable pub validate_value : FieldSpec → Validated → String → Validated
  unfolding append_value add_first drop_value contains
  validate_value spec v value = elim spec.kind [
    | enumerated ↦ elim spec.choices [
      | none ↦ drop_value spec.name "not in enum" v value
      | some choices ↦
          if contains choices value
          then append_value spec.name value v
          else drop_value spec.name "not in enum" v value
    ]
    | entity ↦ add_first spec.name value (link value) v
  ]

  -- a field's values, at the field's specification if it is declared
  unfoldable pub validate_as : Option FieldSpec → String → RawValue → Validated → Validated
  unfolding validate_value values_or_shown as_values drop_value loop
  validate_as none name raw_value v =
      loop (drop_value name "undeclared field") v (values_or_shown raw_value)
  validate_as (some spec) name raw_value v = loop (validate_value spec) v (as_values raw_value)

  -- one round of the outer loop
  unfoldable pub validate_field : Validated → String × RawValue → Validated
  unfolding validate_as field_by_name get
  validate_field v (name, raw_value) = validate_as (get field_by_name name) name raw_value v

  unfoldable pub validate_filter : Dict String RawValue → FilterExtraction
  unfolding validate_field keep_values loop
  validate_filter raw =
      let v = loop validate_field (record { kept = []; dropped = [] }) raw in
      record {
        filter = record { terms = keep_values (λ values. not (is_empty values)) v.kept };
        dropped = v.dropped;
      }

  -- the end of `BedrockMetadataExtractor.extract`, from the JSON object that the model's text holds
  unfoldable pub extract_parsed : Option (Dict String RawValue) → FilterExtraction
  unfolding validate_filter
  extract_parsed none = record { filter = record { terms = [] }; dropped = [] }
  extract_parsed (some parsed) = validate_filter parsed

  -- `_SOURCE_KEYWORDS`
  abbrev pub source_keywords : Dict String String
  source_keywords =
      ("enhancement", "enhancements")
      ∷ ("enhancements", "enhancements")
      ∷ ("kep repo", "enhancements")
      ∷ ("community", "community")
      ∷ []

  -- one round of the loop over the keywords
  unfoldable pub add_source : String → List String → String × String → List String
  unfolding occurs_in contains
  add_source lowered sources (keyword, repo) =
      if occurs_in keyword lowered && not (contains sources repo)
      then sources ++ repo ∷ []
      else sources

  -- raw[name] = values, if there are any
  unfoldable pub put_values : String → List String → Dict String RawValue → Dict String RawValue
  unfolding put
  put_values name values raw =
      if is_empty values then raw else put raw name (raw_list (map (λ s. some s) values) "")

  -- `RuleMetadataExtractor.extract`
  unfoldable pub rule_extract : (String → String) → String → FilterExtraction
  unfolding add_source put_values validate_filter loop
  rule_extract lower question =
      let sources = loop (add_source (lower question)) [] source_keywords in
      let surfaces = map (λ c. c.surface) (link question) in
      validate_filter (put_values "entity_ids" surfaces (put_values "source" sources []))
