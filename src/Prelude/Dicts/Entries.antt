-- ===== src/Prelude/Dicts/Entries.antt =====
-- Dicts whose keys are listed once: what `remove`, a filter, `update` and an index by key do.
use mathlib.Core.Path.{◌≡◌, refl}
use mathlib.Core.Bool.{Bool, false}
use mathlib.Core.Option.{Option, none, some}
use mathlib.Core.List.{[], ◌∷◌, ◌++◌}
use native.Mathlib.Omega.{arith}
use graphrag_aws_template.Prelude.Tests.{if◌then◌else◌}
use graphrag_aws_template.Prelude.Equality.{Eq}
use graphrag_aws_template.Prelude.Lists.{keep, contains, Distinct}
use graphrag_aws_template.Prelude.Dicts.{
  Dict, keys, values, get, put, remove, set_default, set_defaults, keep_values, put_all, index_by,
  get-put, get-remove, get-set_default, contains-keys, put-Distinct,
}

abbrev pub filter_some {ℓ} : {A : Type ℓ} → (A → Bool) → Option A → Option A
filter_some p none = none
filter_some p (some a) = if p a then some a else none

-- the first choice, if there is one
abbrev pub first_of_two {ℓ} : {A : Type ℓ} → Option A → Option A → Option A
first_of_two none o = o
first_of_two (some a) o = some a

module _ {ℓ κ} {K : Type ℓ} {V : Type κ} ⦃e : Eq K⦄ where
  get-none : (d : Dict K V) (k : K) → contains (keys d) k ≡ false → get d k ≡ none
  get-none d k h = ground (arith, contains-keys d k)

  pub remove-Distinct : (d : Dict K V) (k : K) → Distinct (keys d) → Distinct (keys (remove d k))
  unfolding remove keys
  remove-Distinct [] k h = tt
  remove-Distinct ((j, v) ∷ d) k h = ground (
    arith,
    remove-Distinct d k h.1,
    contains-keys (remove d k) j,
    contains-keys d j,
    get-remove d k j,
  )

  pub get-keep_values :
      (p : V → Bool) (d : Dict K V) (k : K)
      → Distinct (keys d)
      → get (keep_values p d) k ≡ filter_some p (get d k)
  unfolding get keep_values keep keys
  get-keep_values p [] k h = refl
  get-keep_values p ((j, v) ∷ d) k h =
      ground (arith, get-keep_values p d k h.1, e.beq_iff j k, get-none d k)

  pub keep_values-Distinct :
      (p : V → Bool) (d : Dict K V) → Distinct (keys d) → Distinct (keys (keep_values p d))
  unfolding keep_values keep keys
  keep_values-Distinct p [] h = tt
  keep_values-Distinct p ((j, v) ∷ d) h = ground (
    arith,
    keep_values-Distinct p d h.1,
    contains-keys (keep_values p d) j,
    get-keep_values p d j h.1,
    get-none d j,
  )

  pub get-set_defaults :
      (d new : Dict K V) (k : K) → get (set_defaults d new) k ≡ first_of_two (get d k) (get new k)
  unfolding set_defaults
  get-set_defaults d [] k = unfold get in ground arith
  get-set_defaults d ((j, v) ∷ new) k =
      unfold get in
      ground
        (arith, get-set_defaults (set_default d j v) new k, get-set_default d j k v, e.beq_iff j k)

  pub put_new : (d : Dict K V) (k : K) (v : V) → get d k ≡ none → put d k v ≡ d ++ (k, v) ∷ []
  unfolding put get
  put_new [] k v h = refl
  put_new ((j, w) ∷ d) k v h = ground (arith, put_new d k v)

  -- The value stored under a key has that key.
  pub record IsKeyedBy (key : V → K) (d : Dict K V) : Type (ℓ ⊔ κ) where
    pub once : Distinct (keys d)
    pub named : (k : K) (v : V) → get d k ≡ some v → key v ≡ k

  module _ (key : V → K) where
    pub put-IsKeyedBy :
        (d : Dict K V) (k : K) (v : V) → key v ≡ k → IsKeyedBy key d → IsKeyedBy key (put d k v)
    put-IsKeyedBy d k v same h = record {
      once = put-Distinct d k v h.once;
      named = λ j w g. ground (arith, get-put d k j v, e.beq_iff k j, h.named j w);
    }

    pub remove-IsKeyedBy : (d : Dict K V) (k : K) → IsKeyedBy key d → IsKeyedBy key (remove d k)
    remove-IsKeyedBy d k h = record {
      once = remove-Distinct d k h.once;
      named = λ j w g. ground (arith, get-remove d k j, h.named j w);
    }

    pub keep_values-IsKeyedBy :
        (p : V → Bool) (d : Dict K V) → IsKeyedBy key d → IsKeyedBy key (keep_values p d)
    keep_values-IsKeyedBy p d h = record {
      once = keep_values-Distinct p d h.once;
      named = λ j w g. ground (arith, get-keep_values p d j h.once, h.named j w);
    }

    IsKeyedBy-tail : (j : K) (v : V) (d : Dict K V) → IsKeyedBy key ((j, v) ∷ d) → IsKeyedBy key d
    unfolding keys get
    IsKeyedBy-tail j v d h = record {
      once = h.once.1;
      named = λ k w g. ground (arith, h.named k w, e.beq_iff j k, contains-keys d j, h.once.0);
    }

    get-put_all :
        (d acc : Dict K V) (k : K)
        → IsKeyedBy key d
        → get (put_all key acc (values d)) k ≡ first_of_two (get d k) (get acc k)
    unfolding put_all values get keys
    get-put_all [] acc k h = refl
    get-put_all ((j, v) ∷ d) acc k h =
        let same : key v ≡ j = h.named j v (ground (arith, e.beq_iff j j)) in
        ground (
          arith,
          get-put_all d (put acc (key v) v) k (IsKeyedBy-tail j v d h),
          get-put acc (key v) k v,
          e.beq_iff j k,
          e.beq_iff (key v) k,
          contains-keys d j,
          h.once.0,
        )

    -- {key(v): v for v in d.values()} holds what d holds.
    pub get-index_by :
        (d : Dict K V) (k : K) → IsKeyedBy key d → get (index_by key (values d)) k ≡ get d k
    unfolding index_by
    get-index_by d k h = unfold get in ground (arith, get-put_all d [] k h)
