-- ===== src/GraphDelta/Plan.antt =====
-- The loops of the plan, and the four loops that apply it, key by key.
use graphrag_aws_template.Prelude.{
  ◌≡◌, refl, Bool, true, false, ◌&&◌, ◌||◌, Option, none, some, List, [], ◌∷◌, map, arith, ◌==◌, Eq,
  string_eq, pair_eq, contains, if◌then◌else◌,
}
use graphrag_aws_template.Prelude.Dicts.Entries.{first_of_two}
use graphrag_aws_template.GraphDelta.Decisions.{outcome}
use graphrag_aws_template.GraphDelta.{
  Decision, drop, leave, replace, Changes, add_decision, decide_all,
}

module _ {ℓ κ} {K : Type ℓ} {A : Type κ} ⦃e : Eq K⦄ (key_of : A → K) where
  -- the last row with the key
  unfoldable pub last_named : K → List A → Option A
  last_named k [] = none
  last_named k (a ∷ rest) =
      first_of_two (last_named k rest) (if key_of a == k then some a else none)

abbrev pub drops {ℓ κ} : {D : Type ℓ} {A : Type κ} → Decision D A → Bool
drops (drop d) = true
drops leave = false
drops (replace a) = false

abbrev pub replacement {ℓ κ} : {D : Type ℓ} {A : Type κ} → Decision D A → Option A
replacement (drop d) = none
replacement leave = none
replacement (replace a) = some a

-- A listed row after its deletion or replacement is the outcome of its decision.
pub outcome_lem {ℓ κ} :
    {D : Type ℓ} {A : Type κ} (d : Decision D A) (old : Option A)
    → first_of_two (replacement d) (if drops d then none else old) ≡ outcome d old
outcome_lem (drop x) old = refl
outcome_lem leave old = refl
outcome_lem (replace a) old = refl

module _ {ℓ κ μ} {K : Type μ} {D : Type ℓ} {A : Type κ} ⦃e : Eq K⦄ (name : D → K) (key_of : A → K)
    (decide : K → Option (Decision D A)) (decision : K → Decision D A)
    (decided : (k : K) → decide k ≡ some (decision k))
    (dropped : (k : K) (d : D) → decision k ≡ drop d → name d ≡ k)
    (replaced : (k : K) (a : A) → decision k ≡ replace a → key_of a ≡ k) where
  pub decide_all-total : (ks : List K) → (c : Changes D A) × (decide_all decide ks ≡ some c)
  unfolding decide_all
  decide_all-total [] = (([], []), refl)
  decide_all-total (k ∷ ks) =
      let (c, rest) = decide_all-total ks in
      (add_decision (decision k) c, ground (arith, decided k))

  contains-add_drop :
      (k j : K) (d : Decision D A) (c : Changes D A)
      → decision k ≡ d
      → contains (map name (add_decision d c).0) j
        ≡ (((k == j) && drops d) || contains (map name c.0) j)
  unfolding contains
  contains-add_drop k j (drop x) c h = ground (arith, dropped k x h)
  contains-add_drop k j leave c h = ground arith
  contains-add_drop k j (replace a) c h = ground arith

  last_named-add_decision :
      (k j : K) (d : Decision D A) (c : Changes D A)
      → decision k ≡ d
      → last_named key_of j (add_decision d c).1
        ≡ first_of_two (last_named key_of j c.1) (if k == j then replacement d else none)
  unfolding last_named
  last_named-add_decision k j (drop x) c h = ground arith
  last_named-add_decision k j leave c h = ground arith
  last_named-add_decision k j (replace a) c h = ground (arith, replaced k a h)

  -- A key is deleted exactly when it is listed and its decision is a deletion.
  pub decide_all-drops :
      (ks : List K) (c : Changes D A) (j : K)
      → decide_all decide ks ≡ some c
      → contains (map name c.0) j ≡ (contains ks j && drops (decision j))
  unfolding decide_all contains
  decide_all-drops [] c j h = ground arith
  decide_all-drops (k ∷ ks) c j h =
      let (r, rest) = decide_all-total ks in
      ground (
        arith,
        decided k,
        decide_all-drops ks r j rest,
        contains-add_drop k j (decision k) r refl,
        e.beq_iff k j,
      )

  -- A key is replaced exactly when it is listed and its decision is a replacement.
  pub decide_all-replaces :
      (ks : List K) (c : Changes D A) (j : K)
      → decide_all decide ks ≡ some c
      → last_named key_of j c.1 ≡ (if contains ks j then replacement (decision j) else none)
  unfolding decide_all contains last_named
  decide_all-replaces [] c j h = ground arith
  decide_all-replaces (k ∷ ks) c j h =
      let (r, rest) = decide_all-total ks in
      ground (
        arith,
        decided k,
        decide_all-replaces ks r j rest,
        last_named-add_decision k j (decision k) r refl,
        e.beq_iff k j,
      )
