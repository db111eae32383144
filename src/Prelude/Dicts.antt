-- ===== src/Prelude/Dicts.antt =====
-- Python's `dict`, as an association list in insertion order.
pub mod Entries
use mathlib.Core.Path.{◌≡◌, refl, ap}
use mathlib.Core.Bool.{Bool, true, false, not, ◌&&◌, ◌||◌}
use mathlib.Core.Option.{Option, none, some}
use mathlib.Core.List.{List, [], ◌∷◌, ◌++◌, map}
use native.Mathlib.Omega.{arith}
use graphrag_aws_template.Prelude.Tests.{if◌then◌else◌, is_some}
use graphrag_aws_template.Prelude.Equality.{Eq, ◌==◌}
use graphrag_aws_template.Prelude.Lists.{keep, contains, Distinct, All}

abbrev pub Dict {ℓ κ} : Type ℓ → Type κ → Type (ℓ ⊔ κ)
Dict K V = List (K × V)

module _ {ℓ κ} {K : Type ℓ} {V : Type κ} where
  unfoldable pub keys : Dict K V → List K
  keys [] = []
  keys ((k, v) ∷ d) = k ∷ keys d

  unfoldable pub values : Dict K V → List V
  values [] = []
  values ((k, v) ∷ d) = v ∷ values d

module _ {ℓ κ} {K : Type ℓ} {V : Type κ} ⦃e : Eq K⦄ where
  -- d.get(k)
  unfoldable pub get : Dict K V → K → Option V
  get [] k = none
  get ((j, v) ∷ d) k = if j == k then some v else get d k

  -- d[k] = v: in place, or at the end
  unfoldable pub put : Dict K V → K → V → Dict K V
  put [] k v = (k, v) ∷ []
  put ((j, w) ∷ d) k v = let rest = put d k v in if j == k then (j, v) ∷ d else (j, w) ∷ rest

  -- d.pop(k, None)
  unfoldable pub remove : Dict K V → K → Dict K V
  remove [] k = []
  remove ((j, w) ∷ d) k = let rest = remove d k in if j == k then rest else (j, w) ∷ rest

  -- d.setdefault(k, v)
  unfoldable pub set_default : Dict K V → K → V → Dict K V
  unfolding get put
  set_default d k v = elim (get d k) [ none ↦ put d k v | some w ↦ d ]

  -- for k, v in new.items(): d.setdefault(k, v)
  unfoldable pub set_defaults : Dict K V → Dict K V → Dict K V
  unfolding set_default
  set_defaults d [] = d
  set_defaults d ((k, v) ∷ new) = set_defaults (set_default d k v) new

  -- d.update(new)
  unfoldable pub update : Dict K V → Dict K V → Dict K V
  unfolding put
  update d [] = d
  update d ((k, v) ∷ new) = update (put d k v) new

  -- {k: v for k, v in d.items() if p(v)}
  unfoldable pub keep_values : (V → Bool) → Dict K V → Dict K V
  keep_values p d = keep (λ entry. p entry.1) d

  unfoldable pub put_all : (V → K) → Dict K V → List V → Dict K V
  unfolding put
  put_all key d [] = d
  put_all key d (v ∷ vs) = put_all key (put d (key v) v) vs

  -- {key(v): v for v in vs}
  unfoldable pub index_by : (V → K) → List V → Dict K V
  unfolding put_all
  index_by key vs = put_all key [] vs

  pub get-put :
      (d : Dict K V) (k j : K) (v : V) → get (put d k v) j ≡ (if k == j then some v else get d j)
  unfolding get put
  get-put [] k j v = refl
  get-put ((i, w) ∷ d) k j v =
      ground (arith, e.beq_iff k j, e.beq_iff i k, e.beq_iff i j, get-put d k j v)

  pub get-remove :
      (d : Dict K V) (k j : K) → get (remove d k) j ≡ (if k == j then none else get d j)
  unfolding get remove
  get-remove [] k j = ground arith
  get-remove ((i, w) ∷ d) k j =
      ground (arith, e.beq_iff k j, e.beq_iff i k, e.beq_iff i j, get-remove d k j)

  pub get-set_default :
      (d : Dict K V) (k j : K) (v : V)
      → get (set_default d k v) j ≡ (if k == j && not (is_some (get d k)) then some v else get d j)
  unfolding set_default
  get-set_default d k j v = ground (arith, get-put d k j v, e.beq_iff k j)

  pub contains-keys : (d : Dict K V) (k : K) → contains (keys d) k ≡ is_some (get d k)
  unfolding contains keys get
  contains-keys [] k = refl
  contains-keys ((j, v) ∷ d) k = ground (arith, contains-keys d k)

  pub contains-keys-put :
      (d : Dict K V) (k j : K) (v : V)
      → contains (keys (put d k v)) j ≡ (k == j || contains (keys d) j)
  contains-keys-put d k j v =
      ground (arith, contains-keys (put d k v) j, contains-keys d j, get-put d k j v)

  pub put-Distinct :
      (d : Dict K V) (k : K) (v : V) → Distinct (keys d) → Distinct (keys (put d k v))
  unfolding put keys
  put-Distinct [] k v h = (unfold contains in refl, tt)
  put-Distinct ((j, w) ∷ d) k v h =
      ground
        (arith, put-Distinct d k v h.1, contains-keys-put d k j v, e.beq_iff k j, e.beq_iff j k)
