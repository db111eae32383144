-- ===== src/Prelude/Lists.antt =====
-- Lists measured by native numbers, filtered by Boolean tests, and Python's `in`.
use Prim.Native.Nat.{ℕ, zero, suc, ◌+◌, ◌≤◌, min}
use mathlib.Core.Path.{◌≡◌, refl, ap, subst, sym}
use mathlib.Core.Logic.{inl, inr}
use mathlib.Core.Bool.{Bool, true, false, ◌&&◌, ◌||◌}
use mathlib.Core.List.{List, [], ◌∷◌, ◌++◌, map}
use native.Mathlib.Omega.{arith}
use graphrag_aws_template.Prelude.Tests.{if◌then◌else◌, Bool-cases}
use graphrag_aws_template.Prelude.Equality.{Eq, ◌==◌}

module _ {ℓ} {A : Type ℓ} where
  abbrev pub length : List A → ℕ
  length [] = 0
  length (x ∷ xs) = suc (length xs)

  -- xs[:n]
  unfoldable pub take : ℕ → List A → List A
  take zero xs = []
  take (suc n) [] = []
  take (suc n) (x ∷ xs) = x ∷ take n xs

  -- [x for x in xs if p(x)]
  unfoldable pub keep : (A → Bool) → List A → List A
  keep p [] = []
  keep p (x ∷ xs) = let rest = keep p xs in if p x then x ∷ rest else rest

  -- any(p(x) for x in xs), all(p(x) for x in xs)
  unfoldable pub any : (A → Bool) → List A → Bool
  any p [] = false
  any p (x ∷ xs) = p x || any p xs

  unfoldable pub all : (A → Bool) → List A → Bool
  all p [] = true
  all p (x ∷ xs) = p x && all p xs

  -- `not xs`
  abbrev pub is_empty : List A → Bool
  is_empty [] = true
  is_empty (x ∷ xs) = false

  abbrev pub All {κ} : (A → Type κ) → List A → Type κ
  All P [] = Unit
  All P (x ∷ xs) = P x × All P xs

  pub any-ext : (p q : A → Bool) (xs : List A) → ((x : A) → p x ≡ q x) → any p xs ≡ any q xs
  unfolding any
  any-ext p q [] h = refl
  any-ext p q (x ∷ xs) h = ground (arith, h x, any-ext p q xs h)

  pub any-append : (p : A → Bool) (xs ys : List A) → any p (xs ++ ys) ≡ (any p xs || any p ys)
  unfolding any
  any-append p [] ys = refl
  any-append p (x ∷ xs) ys = ground (arith, any-append p xs ys)

  pub all-append : (p : A → Bool) (xs ys : List A) → all p (xs ++ ys) ≡ (all p xs && all p ys)
  unfolding all
  all-append p [] ys = refl
  all-append p (x ∷ xs) ys = ground (arith, all-append p xs ys)

  pub any-or : (p q : A → Bool) (xs : List A) → any (λ x. p x || q x) xs ≡ (any p xs || any q xs)
  unfolding any
  any-or p q [] = refl
  any-or p q (x ∷ xs) = ground (arith, any-or p q xs)

  pub any_witness : (p : A → Bool) (xs : List A) → any p xs ≡ true → (a : A) × (p a ≡ true)
  unfolding any
  any_witness p [] h = cc
  any_witness p (x ∷ xs) h = elim (Bool-cases (p x)) [
    | inl here ↦ (x, here)
    | inr later ↦ any_witness p xs (ground arith)
  ]

  -- where the first element is that passes
  pub any-split :
      (p : A → Bool) (xs : List A)
      → any p xs ≡ true
      → (before : List A) × (a : A) × (after : List A) × (xs ≡ before ++ a ∷ after) × (p a ≡ true)
  unfolding any
  any-split p [] h = absurd (ground arith)
  any-split p (x ∷ xs) h = elim (Bool-cases (p x)) [
    | inl here ↦ ([], x, xs, refl, here)
    | inr later ↦
        let (before, a, after, there, q) = any-split p xs (ground arith) in
        (x ∷ before, a, after, ap (◌∷◌ x) there, q)
  ]

  pub All-of_all {κ} :
      (p : A → Bool) {P : A → Type κ}
      → ((a : A) → p a ≡ true → P a)
      → (xs : List A) → all p xs ≡ true
      → All P xs
  unfolding all
  All-of_all p f [] h = tt
  All-of_all p f (x ∷ xs) h = (f x (ground arith), All-of_all p f xs (ground arith))

  pub any-false : (xs : List A) → any (λ x. false) xs ≡ false
  unfolding any
  any-false [] = refl
  any-false (x ∷ xs) = any-false xs

  pub length-append : (xs ys : List A) → length (xs ++ ys) ≡ length xs + length ys
  length-append [] ys = omega arith
  length-append (x ∷ xs) ys = omega (arith, length-append xs ys)

  pub length-take-le : (n : ℕ) (xs : List A) → length (take n xs) ≤ n
  unfolding take
  length-take-le zero xs = omega arith
  length-take-le (suc n) [] = omega arith
  length-take-le (suc n) (x ∷ xs) = omega (arith, length-take-le n xs)

  pub length-take : (k : ℕ) (xs : List A) → length (take k xs) ≡ min k (length xs)
  unfolding take
  length-take zero xs = omega arith
  length-take (suc k) [] = omega arith
  length-take (suc k) (x ∷ xs) = omega (arith, length-take k xs)

  pub take_all : (n : ℕ) (xs : List A) → length xs ≤ n → take n xs ≡ xs
  unfolding take
  take_all zero [] h = refl
  take_all zero (x ∷ xs) h = absurd (omega arith)
  take_all (suc n) [] h = refl
  take_all (suc n) (x ∷ xs) h = ap (◌∷◌ x) (take_all n xs (omega arith))

  pub All-append {κ} : (P : A → Type κ) (xs ys : List A) → All P xs → All P ys → All P (xs ++ ys)
  All-append P [] ys hx hy = hy
  All-append P (x ∷ xs) ys hx hy = (hx.0, All-append P xs ys hx.1 hy)

  pub All-keep {κ} :
      (P : A → Type κ) (p : A → Bool) (xs : List A)
      → ((x : A) → p x ≡ true → P x)
      → All P (keep p xs)
  unfolding keep
  All-keep P p [] h = tt
  All-keep P p (x ∷ xs) h = elim (Bool-cases (p x)) [
    | inl fits ↦ rw fits (h x fits, All-keep P p xs h)
    | inr fails ↦ rw fails (All-keep P p xs h)
  ]

  pub All-take {κ} : (P : A → Type κ) (k : ℕ) (xs : List A) → All P xs → All P (take k xs)
  unfolding take
  All-take P zero xs h = tt
  All-take P (suc k) [] h = tt
  All-take P (suc k) (x ∷ xs) h = (h.0, All-take P k xs h.1)

pub All-map {ℓ κ μ} :
    {A : Type ℓ} {B : Type κ} (P : B → Type μ) (f : A → B) (xs : List A)
    → All (λ x. P (f x)) xs
    → All P (map f xs)
All-map P f [] h = tt
All-map P f (x ∷ xs) h = (h.0, All-map P f xs h.1)

module _ {ℓ} {A : Type ℓ} ⦃e : Eq A⦄ where
  -- a in xs
  unfoldable pub contains : List A → A → Bool
  contains [] a = false
  contains (x ∷ xs) a = (x == a) || contains xs a

  abbrev pub Distinct : List A → Type 0
  Distinct [] = Unit
  Distinct (x ∷ xs) = (contains xs x ≡ false) × Distinct xs

  pub contains-append :
      (xs ys : List A) (a : A) → contains (xs ++ ys) a ≡ (contains xs a || contains ys a)
  unfolding contains
  contains-append [] ys a = refl
  contains-append (x ∷ xs) ys a = ground (arith, contains-append xs ys a)

  pub contains-keep :
      (p : A → Bool) (xs : List A) (a : A) → contains (keep p xs) a ≡ (contains xs a && p a)
  unfolding contains keep
  contains-keep p [] a = refl
  contains-keep p (x ∷ xs) a = ground (arith, contains-keep p xs a, e.beq_iff x a)

  pub keep-Distinct : (p : A → Bool) (xs : List A) → Distinct xs → Distinct (keep p xs)
  unfolding keep
  keep-Distinct p [] d = tt
  keep-Distinct p (x ∷ xs) d = ground (arith, keep-Distinct p xs d.1, contains-keep p xs x)

  pub contains-take :
      (n : ℕ) (xs : List A) (a : A) → contains (take n xs) a ≡ true → contains xs a ≡ true
  unfolding contains take
  contains-take zero xs a h = cc
  contains-take (suc n) [] a h = h
  contains-take (suc n) (x ∷ xs) a h = ground (arith, contains-take n xs a)

  pub take-Distinct : (n : ℕ) (xs : List A) → Distinct xs → Distinct (take n xs)
  unfolding take
  take-Distinct zero xs d = tt
  take-Distinct (suc n) [] d = tt
  take-Distinct (suc n) (x ∷ xs) d = ground (arith, take-Distinct n xs d.1, contains-take n xs x)

  -- A property of every element, as a property of what the list contains.
  pub All-of_contains {κ} :
      (P : A → Type κ) (xs : List A) → ((a : A) → contains xs a ≡ true → P a) → All P xs
  unfolding contains
  All-of_contains P [] h = tt
  All-of_contains P (x ∷ xs) h =
      (h x (ground (arith, e.beq_iff x x)), All-of_contains P xs (λ a k. h a (ground arith)))

  pub All_at {κ} : (P : A → Type κ) (xs : List A) (a : A) → All P xs → contains xs a ≡ true → P a
  unfolding contains
  All_at P [] a h k = cc
  All_at P (x ∷ xs) a h k = elim (Bool-cases (x == a)) [
    | inl same ↦ subst P ((e.beq_iff x a).0 same) h.0
    | inr other ↦ All_at P xs a h.1 (ground arith)
  ]

module _ {ℓ} {A : Type ℓ} ⦃e : Eq A⦄ (p : A → Bool) where
  pub all_at : (xs : List A) (a : A) → all p xs ≡ true → contains xs a ≡ true → p a ≡ true
  unfolding all contains
  all_at [] a h k = cc
  all_at (x ∷ xs) a h k = ground (arith, all_at xs a, e.beq_iff x a)

  pub all_of : (xs : List A) → ((a : A) → contains xs a ≡ true → p a ≡ true) → all p xs ≡ true
  unfolding all contains
  all_of [] h = refl
  all_of (x ∷ xs) h = ground (arith, h x, e.beq_iff x x, all_of xs (λ a k. h a (ground arith)))

  pub any_of : (xs : List A) (a : A) → contains xs a ≡ true → p a ≡ true → any p xs ≡ true
  unfolding any contains
  any_of [] a h k = cc
  any_of (x ∷ xs) a h k = ground (arith, any_of xs a, e.beq_iff x a)

  pub any_at : (xs : List A) → any p xs ≡ true → (a : A) × (contains xs a ≡ true) × (p a ≡ true)
  unfolding any contains
  any_at [] h = cc
  any_at (x ∷ xs) h = elim (Bool-cases (p x)) [
    | inl here ↦ (x, ground (arith, e.beq_iff x x), here)
    | inr later ↦ let (a, c, q) = any_at xs (ground arith) in (a, ground arith, q)
  ]

module _ {ℓ κ} {S : Type ℓ} {A : Type κ} where
  -- for x in xs: step
  unfoldable pub loop : (S → A → S) → S → List A → S
  loop step s [] = s
  loop step s (x ∷ xs) = loop step (step s x) xs

  -- An invariant of the step is one of the loop.
  pub loop_keeps {μ} :
      (P : S → Type μ) (step : S → A → S) (s : S) (xs : List A)
      → ((t : S) (x : A) → P t → P (step t x))
      → P s
      → P (loop step s xs)
  unfolding loop
  loop_keeps P step s [] h p = p
  loop_keeps P step s (x ∷ xs) h p = loop_keeps P step (step s x) xs h (h s x p)

module _ {ℓ κ} {A : Type ℓ} {B : Type κ} where
  pub any-swap :
      (p : A → B → Bool) (xs : List A) (ys : List B)
      → any (λ x. any (λ y. p x y) ys) xs ≡ any (λ y. any (λ x. p x y) xs) ys
  unfolding any
  any-swap p [] ys = sym (any-false ys)
  any-swap p (x ∷ xs) ys =
      ground (arith, any-swap p xs ys, any-or (λ y. p x y) (λ y. any (λ z. p z y) xs) ys)

module _ {ℓ κ} {A : Type ℓ} {B : Type κ} ⦃e : Eq B⦄ where
  pub contains-map :
      (f : A → B) (xs : List A) (b : B) → contains (map f xs) b ≡ any (λ x. f x == b) xs
  unfolding contains any
  contains-map f [] b = refl
  contains-map f (x ∷ xs) b = ground (arith, contains-map f xs b)

-- The images of a list, each among those of another one.
pub contains-map-all {ℓ κ} :
    {A : Type ℓ} {B : Type κ} ⦃e : Eq B⦄ (f : A → B) (xs ys : List A)
    → ((a : A) → contains (map f ys) (f a) ≡ true → contains (map f xs) (f a) ≡ true)
    → all (λ y. contains (map f xs) (f y)) ys ≡ true
unfolding all contains
contains-map-all f xs [] h = refl
contains-map-all ⦃e⦄ f xs (y ∷ ys) h =
    ground (arith, h y, e.beq_iff (f y) (f y), contains-map-all f xs ys (λ a k. h a (ground arith)))
