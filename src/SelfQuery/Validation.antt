-- ===== src/SelfQuery/Validation.antt =====
-- selfquery.py, `validate_filter`: the terms that a validated filter holds.
use graphrag_aws_template.Prelude.{
  ◌≡◌, refl, String, Bool, true, not, ◌&&◌, ◌==◌, Option, none, some, List, [], ◌∷◌, all,
  all-append, keep, loop, loop_keeps, contains, is_empty, string_eq, arith, Bool-cases, inl, inr,
  ◌⊎◌, if◌then◌else◌,
}
use graphrag_aws_template.Prelude.Dicts.{Dict, get, put, index_by, keep_values}
use graphrag_aws_template.Visibility.{get_or}
use graphrag_aws_template.Hybrid.{Candidate}
use graphrag_aws_template.SelfQuery.{
  FieldSpec, source_field, entity_field, validate_as, add_first, RawValue, as_values,
  values_or_shown, field_by_name, Validated, drop_value, append_value, add_value, validate_value,
  validate_field, validate_filter,
}

all-put {ℓ} :
    {V : Type ℓ} (p : String × V → Bool) (d : Dict String V) (k : String) (v : V)
    → all p d ≡ true
    → p (k, v) ≡ true
    → all p (put d k v) ≡ true
unfolding all put
all-put p [] k v h q = ground arith
all-put p ((j, w) ∷ d) k v h q = ground (arith, string_eq.beq_iff j k, all-put p d k v)

all-get_or {ℓ} :
    {V : Type ℓ} (p : String × V → Bool) (d : Dict String V) (k : String) (v : V)
    → all p d ≡ true
    → p (k, v) ≡ true
    → p (k, get_or d k v) ≡ true
unfolding all get_or get
all-get_or p [] k v h q = q
all-get_or p ((j, w) ∷ d) k v h q = ground (arith, string_eq.beq_iff j k, all-get_or p d k v)

all-keep {ℓ} :
    {A : Type ℓ} (p q : A → Bool) (xs : List A)
    → all p xs ≡ true
    → all (λ x. q x && p x) (keep q xs) ≡ true
unfolding all keep
all-keep p q [] h = refl
all-keep p q (x ∷ xs) h = ground (arith, all-keep p q xs)

abbrev pub sources : List String
sources = "community" ∷ "enhancements" ∷ []

-- The field is declared, and the values are of its closed set or are ids.
abbrev pub declared : (String → Bool) → String × List String → Bool
declared is_id (name, values) =
    if name == "source"
    then all (λ v. contains sources v) values
    else (name == "entity_ids") && all is_id values

module _ (link : String → List Candidate) (is_id : String → Bool)
    (linked : (s : String) → all (λ c. is_id c.entity_id) (link s) ≡ true) where
  IsDeclared : Validated → Type 0
  IsDeclared v = all (declared is_id) v.kept ≡ true

  append_value-IsDeclared :
      (name value : String) (v : Validated)
      → declared is_id (name, []) ≡ true
      → declared is_id (name, value ∷ []) ≡ true
      → IsDeclared v
      → IsDeclared (append_value name value v)
  unfolding IsDeclared append_value all
  append_value-IsDeclared name value v d e h = all-put (declared is_id) v.kept name _ h (
      ground (
        arith,
        all-get_or (declared is_id) v.kept name [] h d,
        all-append is_id (get_or v.kept name []) (value ∷ []),
        all-append (λ v. contains sources v) (get_or v.kept name []) (value ∷ []),
      ))

  add_value-IsDeclared :
      (name value : String) (v : Validated)
      → declared is_id (name, []) ≡ true
      → declared is_id (name, value ∷ []) ≡ true
      → IsDeclared v
      → IsDeclared (add_value name value v)
  unfolding IsDeclared add_value append_value
  add_value-IsDeclared name value v d e h =
      elim (Bool-cases (contains (get_or v.kept name []) value)) [
        | inl old ↦ rw old (
            all-put (declared is_id) v.kept name _ h
              (all-get_or (declared is_id) v.kept name [] h d))
        | inr new ↦ rw new (append_value-IsDeclared name value v d e h)
      ]

  add_first-IsDeclared :
      (value : String) (cs : List Candidate) (v : Validated)
      → all (λ c. is_id c.entity_id) cs ≡ true
      → IsDeclared v
      → IsDeclared (add_first "entity_ids" value cs v)
  unfolding add_first all
  add_first-IsDeclared value [] v k h = unfold IsDeclared drop_value in h
  add_first-IsDeclared value (c ∷ cs) v k h =
      add_value-IsDeclared "entity_ids" c.entity_id v refl (ground arith) h

  validate_value-IsDeclared :
      (spec : FieldSpec) (v : Validated) (value : String)
      → (spec ≡ source_field) ⊎ (spec ≡ entity_field)
      → IsDeclared v
      → IsDeclared (validate_value link spec v value)
  unfolding validate_value
  validate_value-IsDeclared spec v value (inl p) h =
      rw p (elim (Bool-cases (contains sources value)) [
        | inl fits ↦ rw fits (
            append_value-IsDeclared "source" value v (unfold all in refl)
              (unfold all in ground arith) h)
        | inr other ↦ rw other (unfold IsDeclared drop_value in h)
      ])
  validate_value-IsDeclared spec v value (inr p) h =
      rw p (add_first-IsDeclared value (link value) v (linked value) h)

  declared_cases :
      (name : String) (spec : FieldSpec)
      → get field_by_name name ≡ some spec
      → (spec ≡ source_field) ⊎ (spec ≡ entity_field)
  unfolding field_by_name get index_by
  declared_cases name spec p = elim (Bool-cases ("source" == name)) [
    | inl same ↦ inl (ground arith)
    | inr other ↦ inr (ground arith)
  ]

  validate_as-IsDeclared :
      (o : Option FieldSpec) (name : String) (raw : RawValue) (v : Validated)
      → get field_by_name name ≡ o
      → IsDeclared v
      → IsDeclared (validate_as link o name raw v)
  unfolding validate_as
  validate_as-IsDeclared none name raw v p h =
      loop_keeps IsDeclared (drop_value name "undeclared field") v (values_or_shown raw)
        (λ t x k. unfold IsDeclared drop_value in k) h
  validate_as-IsDeclared (some spec) name raw v p h =
      loop_keeps IsDeclared (validate_value link spec) v (as_values raw)
        (λ t x k. validate_value-IsDeclared spec t x (declared_cases name spec p) k) h

  validate_field-IsDeclared :
      (v : Validated) (entry : String × RawValue)
      → IsDeclared v
      → IsDeclared (validate_field link v entry)
  unfolding validate_field
  validate_field-IsDeclared v (name, raw) h =
      validate_as-IsDeclared (get field_by_name name) name raw v refl h

  -- If all links of a text are ids: each term of a validated filter is of a declared field and has a
  -- value; the values of `source` are of its closed set, and those of `entity_ids` are ids.
  pub validate_filter-declared :
      (raw : Dict String RawValue)
      → all
          (λ term. not (is_empty term.1) && declared is_id term)
          (validate_filter link raw).filter.terms
        ≡ true
  unfolding validate_filter keep_values
  validate_filter-declared raw =
      let v = loop (validate_field link) (record { kept = []; dropped = [] }) raw in
      all-keep (declared is_id) (λ term. not (is_empty term.1)) v.kept
        (unfold IsDeclared in
          loop_keeps IsDeclared (validate_field link) (record { kept = []; dropped = [] }) raw
            validate_field-IsDeclared (unfold IsDeclared all in refl))
