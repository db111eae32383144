-- ===== src/Visibility.antt =====
-- packages/graphrag/src/graphrag/visibility.py: the visibility tiers, `compose`, the clearances of
-- the personas, and the resolution of a persona with its default-deny mode. A `ValueError` is an
-- error value that carries the persona's name.
pub mod Compose
pub mod Personas
use graphrag_aws_template.Prelude.{
  ℕ, ltb, leb, String, Bool, true, false, Option, none, some, List, [], ◌∷◌, map, ◌==◌, string_eq,
  contains, keep, if◌then◌else◌,
}
use graphrag_aws_template.Prelude.Dicts.{Dict, get}

pub data Visibility : Type 0 where
  public internal restricted : Visibility

-- `Visibility(...).value`
unfoldable pub value : Visibility → String
value public = "public"
value internal = "internal"
value restricted = "restricted"

-- the members of the enumeration, in the order of their declaration
abbrev pub members : List Visibility
members = public ∷ internal ∷ restricted ∷ []

-- `_RANK`
unfoldable pub ranks : Dict String ℕ
unfolding value
ranks = (value public, 0) ∷ (value internal, 1) ∷ (value restricted, 2) ∷ []

unfoldable pub default_visibility : String
unfolding value
default_visibility = value public

-- `dict.get(key, default)`
unfoldable pub get_or {ℓ} : {V : Type ℓ} → Dict String V → String → V → V
unfolding get
get_or d k v = elim (get d k) [ none ↦ v | some w ↦ w ]

unfoldable pub rank : String → ℕ
unfolding ranks get_or
rank label = get_or ranks label 0

-- the loop of `compose`, from the best tier so far
unfoldable pub compose_from : String → List String → String
unfolding rank
compose_from best [] = best
compose_from best (label ∷ labels) =
    compose_from (if ltb (rank best) (rank label) then label else best) labels

unfoldable pub compose : List String → String
unfolding compose_from value
compose labels = compose_from (value public) labels

-- the set of tiers is a list, of which only `in` is read
pub record Clearance : Type 0 where
  pub persona : String
  pub allowed : List String

unfoldable pub allows : Clearance → String → Bool
unfolding contains
allows c label = contains c.allowed label

unfoldable pub at_or_below : Visibility → List String
unfolding rank value keep
at_or_below level = map value (keep (λ v. leb (rank (value v)) (rank (value level))) members)

unfoldable pub personas : Dict String (List String)
unfolding at_or_below
personas =
    ("public-reader", at_or_below public)
    ∷ ("member", at_or_below internal)
    ∷ ("maintainer", at_or_below restricted)
    ∷ []

-- A clearance, or the `ValueError` about the persona.
pub data Resolved {ℓ} (A : Type ℓ) : Type ℓ where
  ok : A → Resolved A
  unknown_persona : String → Resolved A

unfoldable pub resolve_clearance : String → Resolved Clearance
unfolding personas get
resolve_clearance persona = elim (get personas persona) [
  | none ↦ unknown_persona persona
  | some tiers ↦ ok (record { persona = persona; allowed = tiers })
]

unfoldable pub default_deny_persona : String
default_deny_persona = "default-deny"

abbrev pub map_ok {ℓ κ} : {A : Type ℓ} {B : Type κ} → (A → B) → Resolved A → Resolved B
map_ok f (ok a) = ok (f a)
map_ok f (unknown_persona p) = unknown_persona p

-- the branch of an absent principal; the result `none` is unrestricted
unfoldable pub absent_principal : Bool → Resolved (Option Clearance)
unfolding default_deny_persona
absent_principal true = ok (some (record { persona = default_deny_persona; allowed = [] }))
absent_principal false = ok none

unfoldable pub resolve_clearance_or_default_deny :
    Option String → Bool → Resolved (Option Clearance)
unfolding absent_principal resolve_clearance
resolve_clearance_or_default_deny none default_deny = absent_principal default_deny
resolve_clearance_or_default_deny (some persona) default_deny =
    if persona == "" then absent_principal default_deny else map_ok some (resolve_clearance persona)
