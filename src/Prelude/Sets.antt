-- ===== src/Prelude/Sets.antt =====
-- Python's sets, as lists: what a set contains is all that the statements read of it. The order of
-- the list is one possible order of iteration.
use mathlib.Core.Path.{◌≡◌, refl}
use mathlib.Core.Bool.{Bool, true, false, not, ◌&&◌, ◌||◌}
use mathlib.Core.List.{List, [], ◌∷◌, ◌++◌}
use native.Mathlib.Omega.{arith}
use graphrag_aws_template.Prelude.Tests.{Bool-ext}
use graphrag_aws_template.Prelude.Equality.{Eq, ◌==◌}
use graphrag_aws_template.Prelude.Lists.{
  contains, keep, all, Distinct, contains-append, contains-keep, keep-Distinct,
}

module _ {ℓ} {A : Type ℓ} ⦃e : Eq A⦄ where
  -- set(xs): each element once, in the order of first occurrence
  unfoldable pub dedupe : List A → List A
  dedupe [] = []
  dedupe (x ∷ xs) = x ∷ keep (λ y. not (x == y)) (dedupe xs)

  -- a - b
  unfoldable pub difference : List A → List A → List A
  difference xs ys = keep (λ x. not (contains ys x)) xs

  -- a | b
  unfoldable pub union : List A → List A → List A
  unfolding difference
  union xs ys = xs ++ difference ys xs

  -- a & b
  unfoldable pub intersection : List A → List A → List A
  intersection xs ys = keep (λ x. contains ys x) xs

  -- a <= b, a == b
  unfoldable pub subset : List A → List A → Bool
  subset xs ys = all (λ x. contains ys x) xs

  unfoldable pub set_eq : List A → List A → Bool
  unfolding subset
  set_eq xs ys = subset xs ys && subset ys xs

  pub contains-dedupe : (xs : List A) (a : A) → contains (dedupe xs) a ≡ contains xs a
  unfolding dedupe contains
  contains-dedupe [] a = refl
  contains-dedupe (x ∷ xs) a =
      ground (arith, contains-keep (λ y. not (x == y)) (dedupe xs) a, contains-dedupe xs a)

  pub dedupe-Distinct : (xs : List A) → Distinct (dedupe xs)
  unfolding dedupe
  dedupe-Distinct [] = tt
  dedupe-Distinct (x ∷ xs) = ground (
    arith,
    contains-keep (λ y. not (x == y)) (dedupe xs) x,
    keep-Distinct (λ y. not (x == y)) (dedupe xs) (dedupe-Distinct xs),
    e.beq_iff x x,
  )

  pub contains-difference :
      (xs ys : List A) (a : A)
      → contains (difference xs ys) a ≡ (contains xs a && not (contains ys a))
  unfolding difference
  contains-difference xs ys a = contains-keep (λ x. not (contains ys x)) xs a

  pub contains-intersection :
      (xs ys : List A) (a : A) → contains (intersection xs ys) a ≡ (contains xs a && contains ys a)
  unfolding intersection
  contains-intersection xs ys a = contains-keep (λ x. contains ys x) xs a

  pub contains-union :
      (xs ys : List A) (a : A) → contains (union xs ys) a ≡ (contains xs a || contains ys a)
  unfolding union
  contains-union xs ys a =
      ground (arith, contains-append xs (difference ys xs) a, contains-difference ys xs a)

  pub append-Distinct :
      (xs ys : List A)
      → Distinct xs
      → Distinct ys
      → ((a : A) → contains xs a ≡ true → contains ys a ≡ false)
      → Distinct (xs ++ ys)
  unfolding contains
  append-Distinct [] ys dx dy apart = dy
  append-Distinct (x ∷ xs) ys dx dy apart = (
    ground (arith, contains-append xs ys x, apart x, e.beq_iff x x),
    append-Distinct xs ys dx.1 dy (λ a h. apart a (ground arith)),
  )

  pub union-Distinct : (xs ys : List A) → Distinct xs → Distinct ys → Distinct (union xs ys)
  unfolding union
  union-Distinct xs ys dx dy =
      append-Distinct xs (difference ys xs) dx (keep-Distinct (λ x. not (contains xs x)) ys dy)
        λ a h. ground (arith, contains-difference ys xs a)

  pub subset_at :
      (xs ys : List A) (a : A) → subset xs ys ≡ true → contains xs a ≡ true → contains ys a ≡ true
  unfolding subset all contains
  subset_at [] ys a h k = cc
  subset_at (x ∷ xs) ys a h k = ground (arith, subset_at xs ys a, e.beq_iff x a)

  pub subset_of :
      (xs ys : List A)
      → ((a : A) → contains xs a ≡ true → contains ys a ≡ true)
      → subset xs ys ≡ true
  unfolding subset all contains
  subset_of [] ys h = refl
  subset_of (x ∷ xs) ys h =
      ground (arith, h x, e.beq_iff x x, subset_of xs ys (λ a k. h a (ground arith)))

  -- Equal sets contain the same elements.
  pub set_eq_at : (xs ys : List A) (a : A) → set_eq xs ys ≡ true → contains xs a ≡ contains ys a
  unfolding set_eq
  set_eq_at xs ys a h =
      Bool-ext (contains xs a) (contains ys a) (λ k. subset_at xs ys a (ground arith) k)
        λ k. subset_at ys xs a (ground arith) k

-- The order in which Python goes through a set is not fixed: any function that lists the same
-- elements may be taken for it.
pub record IterationOrder {ℓ} {A : Type ℓ} (e : Eq A) : Type ℓ where
  pub listed : List A → List A
  pub same : (xs : List A) (a : A) → contains ⦃e = e⦄ (listed xs) a ≡ contains ⦃e = e⦄ xs a
