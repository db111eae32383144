-- ===== src/Visibility/Personas.antt =====
-- The personas' clearances, and the branches of `resolve_clearance_or_default_deny`.
use graphrag_aws_template.Prelude.{
  ◌≡◌, ◌≢◌, ◌↔◌, refl, inl, inr, Bool-cases, leb, String, Bool, true, false, Option, none, some,
  arith, ◌==◌, string_eq, contains, leb→le,
}
use graphrag_aws_template.Visibility.{
  Visibility, public, internal, restricted, value, rank, at_or_below, Clearance, allows, Resolved,
  ok, map_ok, unknown_persona, resolve_clearance, resolve_clearance_or_default_deny,
}
use graphrag_aws_template.Visibility.Compose.{IsDownwardClosed}

-- A tier lies in `_at_or_below(level)` exactly when its rank is at most that of the level.
pub at_or_below_lem :
    (level v : Visibility)
    → contains (at_or_below level) (value v) ≡ leb (rank (value v)) (rank (value level))
unfolding at_or_below contains
at_or_below_lem public public = refl
at_or_below_lem public internal = refl
at_or_below_lem public restricted = refl
at_or_below_lem internal public = refl
at_or_below_lem internal internal = refl
at_or_below_lem internal restricted = refl
at_or_below_lem restricted public = refl
at_or_below_lem restricted internal = refl
at_or_below_lem restricted restricted = refl

IsDownwardClosed-at :
    (p : String) (level : Visibility)
    → IsDownwardClosed (record { persona = p; allowed = at_or_below level })
unfolding allows
IsDownwardClosed-at p level v w h k = ground (
  arith,
  at_or_below_lem level v,
  at_or_below_lem level w,
  leb→le (rank (value w)) (rank (value level)),
)

resolved_level :
    (persona : String) (c : Clearance)
    → resolve_clearance persona ≡ ok c
    → (level : Visibility) × (c ≡ record { persona = persona; allowed = at_or_below level })
unfolding resolve_clearance
resolved_level persona c h = elim (Bool-cases ("public-reader" == persona)) [
  | inl e ↦ (public, ground arith)
  | inr e ↦ elim (Bool-cases ("member" == persona)) [
    | inl f ↦ (internal, ground arith)
    | inr f ↦ (restricted, ground arith)
  ]
]

allows-public :
    (p : String) (level : Visibility)
    → allows (record { persona = p; allowed = at_or_below level }) (value public) ≡ true
unfolding allows at_or_below
allows-public p public = refl
allows-public p internal = refl
allows-public p restricted = refl

-- A persona that resolves has a clearance under its own name, closed downwards and with the public
-- tier.
pub resolve_clearance-IsDownwardClosed :
    (persona : String) (c : Clearance)
    → resolve_clearance persona ≡ ok c
    → (c.persona ≡ persona) × IsDownwardClosed c × (allows c (value public) ≡ true)
resolve_clearance-IsDownwardClosed persona c h =
    let (level, e) = resolved_level persona c h in
    rw e (refl, IsDownwardClosed-at persona level, allows-public persona level)

-- No principal: `None` or the empty text.
abbrev pub is_absent : Option String → Bool
is_absent none = true
is_absent (some persona) = persona == ""

map_ok-some : (r : Resolved Clearance) → map_ok some r ≢ ok none
map_ok-some (ok c) h = cc
map_ok-some (unknown_persona p) h = cc

-- With default-deny on, no principal resolves to the unrestricted `None`. With it off, a principal
-- resolves to `None` exactly when it is absent.
pub default_deny-unrestricted :
    (p : Option String)
    → (resolve_clearance_or_default_deny p true ≢ ok none)
      × ((resolve_clearance_or_default_deny p false ≡ ok none) ↔ (is_absent p ≡ true))
unfolding resolve_clearance_or_default_deny
default_deny-unrestricted none = (λ h. cc, (λ h. refl, λ h. refl))
default_deny-unrestricted (some p) = elim (Bool-cases (p == "")) [
  | inl e ↦ rw e (λ h. cc, (λ h. refl, λ h. refl))
  | inr e ↦ rw e (
    map_ok-some (resolve_clearance p),
    (λ h. absurd (map_ok-some (resolve_clearance p) h), λ h. cc),
  )
]

-- If a principal resolves with default-deny on, and its clearance allows some label, then it
-- resolves to the same clearance with default-deny off.
pub default_deny-allows :
    (p : Option String) (c : Clearance) (label : String)
    → resolve_clearance_or_default_deny p true ≡ ok (some c)
    → allows c label ≡ true
    → resolve_clearance_or_default_deny p false ≡ ok (some c)
unfolding resolve_clearance_or_default_deny allows
default_deny-allows p c label h k = ground arith
