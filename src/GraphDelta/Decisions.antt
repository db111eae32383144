-- ===== src/GraphDelta/Decisions.antt =====
-- What a round of the plan decides for one row: the documents that survive, and the props.
use graphrag_aws_template.Prelude.{
  ◌≡◌, refl, sym, ◌∙◌, String, true, false, not, ◌&&◌, ◌||◌, Option, none, some, List, [], ◌∷◌,
  arith, string_eq, pair_eq, contains, all, is_empty, Option-cases, inl, inr,
}
use graphrag_aws_template.Prelude.Sets.{difference, contains-union, contains-difference}
use graphrag_aws_template.Prelude.Dicts.{get, update, put, get-put}
use graphrag_aws_template.Prelude.Dicts.Entries.{first_of_two}
use graphrag_aws_template.Model.{Props, Value, value_eq, entity_eq}
use graphrag_aws_template.GraphDelta.{
  or_empty, surviving_of, dict_eq, holds, Decision, drop, leave, replace,
}

-- The row after the decision.
abbrev pub outcome {ℓ κ} : {D : Type ℓ} {A : Type κ} → Decision D A → Option A → Option A
outcome (drop d) old = none
outcome leave old = old
outcome (replace a) old = some a

pub contains-surviving_of :
    (old new : Option (List String)) (removed_ids : List String) (p : String)
    → contains (surviving_of old new removed_ids) p
      ≡ ((contains (or_empty old) p && not (contains removed_ids p)) || contains (or_empty new) p)
unfolding contains
contains-surviving_of none new removed_ids p = contains-union [] (or_empty new) p
contains-surviving_of (some old) new removed_ids p = ground (
  arith,
  contains-union (difference old removed_ids) (or_empty new) p,
  contains-difference old removed_ids p,
)

pub get-update :
    (d new : Props) (k : String)
    → get (update d new) k ≡ first_of_two (get (update [] new) k) (get d k)
unfolding update get put
get-update d [] k = refl
get-update d ((j, v) ∷ new) k =
    ground (arith, get-update (put d j v) new k, get-update ((j, v) ∷ []) new k, get-put d j k v)

holds_at :
    (d e : Props) (k : String) (v : Value)
    → all (holds e) d ≡ true
    → get d k ≡ some v
    → get e k ≡ some v
unfolding all get
holds_at [] e k v h g = cc
holds_at ((j, w) ∷ d) e k v h g = elim (Option-cases (get e j)) [
  | inl absent ↦ ground arith
  | inr (u, there) ↦ ground (arith, holds_at d e k v, value_eq.beq_iff u w, string_eq.beq_iff j k)
]

pub dict_eq_at : (d e : Props) (k : String) → dict_eq d e ≡ true → get d k ≡ get e k
unfolding dict_eq
dict_eq_at d e k h = elim (Option-cases (get d k)) [
  | inr (v, there) ↦ there ∙ sym (holds_at d e k v (ground arith) there)
  | inl absent ↦ elim (Option-cases (get e k)) [
    | inl also ↦ absent ∙ sym also
    | inr (w, there) ↦ absurd (ground (arith, holds_at e d k w))
  ]
]

-- The new value of a prop, or else the old one.
abbrev pub overridden : Option Props → Option Props → String → Option Value
overridden none none name = none
overridden (some old) none name = get old name
overridden none (some new) name = get (update [] new) name
overridden (some old) (some new) name = first_of_two (get (update [] new) name) (get old name)

-- The documents of the row are those of the old one that were not removed, and those of the new one.
abbrev pub DocsMerge :
    Option (List String) → Option (List String) → List String → List String → Type 0
DocsMerge old new removed_ids docs =
    (p : String)
    → contains docs p
      ≡ ((contains (or_empty old) p && not (contains removed_ids p)) || contains (or_empty new) p)

pub contains-empty : (xs : List String) (p : String) → is_empty xs ≡ true → contains xs p ≡ false
unfolding contains
contains-empty [] p h = refl
contains-empty (x ∷ xs) p h = cc

pub is_empty-same :
    (xs ys : List String)
    → ((p : String) → contains xs p ≡ contains ys p)
    → is_empty xs ≡ is_empty ys
unfolding contains
is_empty-same [] [] h = refl
is_empty-same [] (y ∷ ys) h = ground (arith, h y, string_eq.beq_iff y y)
is_empty-same (x ∷ xs) [] h = ground (arith, h x, string_eq.beq_iff x x)
is_empty-same (x ∷ xs) (y ∷ ys) h = refl
