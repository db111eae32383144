-- ===== src/Prelude/Sorting.antt =====
-- `sorted`: a stable sort by a total order, and the order of texts by code points.
use Prim.Native.Nat.{ℕ, suc, compare as compare_ℕ, Ordering}
use Prim.Native.Char.{code}
use Prim.Native.String.compare
use Prim.Native.String.{String, compare, then as and_then}
use mathlib.Core.Path.{◌≡◌, refl, ◌∙◌}
use mathlib.Core.Bool.{Bool, true, false, ◌||◌}
use mathlib.Core.Logic.{inl, inr}
use mathlib.Core.List.{List, [], ◌∷◌, map}
use native.Mathlib.Omega.{arith}
use text.Mathlib.Text.{is_le}
use text.Mathlib.TextEquality.{path_by_compare}
use graphrag_aws_template.Prelude.Tests.{if◌then◌else◌, Bool-cases}
use graphrag_aws_template.Prelude.Equality.{Eq, ◌==◌, string_eq}
use graphrag_aws_template.Prelude.Lists.{contains, Distinct, All, length}

pub record Order {ℓ} (A : Type ℓ) : Type ℓ where
  pub le : A → A → Bool
  pub total : (a b : A) → le a b ≡ false → le b a ≡ true
  pub trans : (a b c : A) → le a b ≡ true → le b c ≡ true → le a c ≡ true

module _ {ℓ} {A : Type ℓ} ⦃o : Order A⦄ where
  unfoldable pub insert_sorted : A → List A → List A
  insert_sorted a [] = a ∷ []
  insert_sorted a (x ∷ xs) =
      let rest = insert_sorted a xs in if o.le a x then a ∷ x ∷ xs else x ∷ rest

  unfoldable pub sorted : List A → List A
  unfolding insert_sorted
  sorted [] = []
  sorted (x ∷ xs) = insert_sorted x (sorted xs)

  abbrev pub Below : A → List A → Type 0
  Below a xs = All (λ x. o.le a x ≡ true) xs

  abbrev pub IsSorted : List A → Type 0
  IsSorted [] = Unit
  IsSorted (x ∷ xs) = Below x xs × IsSorted xs

  Below-trans : (a b : A) (xs : List A) → o.le a b ≡ true → Below b xs → Below a xs
  Below-trans a b [] h k = tt
  Below-trans a b (x ∷ xs) h k = (o.trans a b x h k.0, Below-trans a b xs h k.1)

  Below-insert_sorted :
      (a b : A) (xs : List A) → o.le a b ≡ true → Below a xs → Below a (insert_sorted b xs)
  unfolding insert_sorted
  Below-insert_sorted a b [] h k = (h, tt)
  Below-insert_sorted a b (x ∷ xs) h k = ground (arith, Below-insert_sorted a b xs h k.1)

  insert_sorted-IsSorted : (a : A) (xs : List A) → IsSorted xs → IsSorted (insert_sorted a xs)
  unfolding insert_sorted
  insert_sorted-IsSorted a [] s = (tt, tt)
  insert_sorted-IsSorted a (x ∷ xs) s = elim (Bool-cases (o.le a x)) [
    | inl h ↦ rw h ((h, Below-trans a x xs h s.0), s)
    | inr h ↦ rw h (Below-insert_sorted x a xs (o.total a x h) s.0, insert_sorted-IsSorted a xs s.1)
  ]

  pub sorted-IsSorted : (xs : List A) → IsSorted (sorted xs)
  unfolding sorted
  sorted-IsSorted [] = tt
  sorted-IsSorted (x ∷ xs) = insert_sorted-IsSorted x (sorted xs) (sorted-IsSorted xs)

  length-insert_sorted : (a : A) (xs : List A) → length (insert_sorted a xs) ≡ suc (length xs)
  unfolding insert_sorted
  length-insert_sorted a [] = refl
  length-insert_sorted a (x ∷ xs) = ground (arith, length-insert_sorted a xs)

  pub length-sorted : (xs : List A) → length (sorted xs) ≡ length xs
  unfolding sorted
  length-sorted [] = refl
  length-sorted (x ∷ xs) = omega (arith, length-insert_sorted x (sorted xs), length-sorted xs)

module _ {ℓ κ} {A : Type ℓ} {B : Type κ} ⦃o : Order A⦄ ⦃e : Eq B⦄ (f : A → B) where
  contains-map-insert_sorted :
      (a : A) (xs : List A) (b : B)
      → contains (map f (insert_sorted a xs)) b ≡ ((f a == b) || contains (map f xs) b)
  unfolding insert_sorted contains
  contains-map-insert_sorted a [] b = refl
  contains-map-insert_sorted a (x ∷ xs) b = ground (arith, contains-map-insert_sorted a xs b)

  pub contains-map-sorted :
      (xs : List A) (b : B) → contains (map f (sorted xs)) b ≡ contains (map f xs) b
  unfolding sorted contains
  contains-map-sorted [] b = refl
  contains-map-sorted (x ∷ xs) b =
      ground (arith, contains-map-insert_sorted x (sorted xs) b, contains-map-sorted xs b)

module _ {ℓ} {A : Type ℓ} ⦃o : Order A⦄ ⦃e : Eq A⦄ where
  contains-insert_sorted :
      (a : A) (xs : List A) (b : A) → contains (insert_sorted a xs) b ≡ ((a == b) || contains xs b)
  unfolding insert_sorted contains
  contains-insert_sorted a [] b = refl
  contains-insert_sorted a (x ∷ xs) b = ground (arith, contains-insert_sorted a xs b)

  pub contains-sorted : (xs : List A) (b : A) → contains (sorted xs) b ≡ contains xs b
  unfolding sorted contains
  contains-sorted [] b = refl
  contains-sorted (x ∷ xs) b =
      ground (arith, contains-insert_sorted x (sorted xs) b, contains-sorted xs b)

  insert_sorted-Distinct :
      (a : A) (xs : List A) → contains xs a ≡ false → Distinct xs → Distinct (insert_sorted a xs)
  unfolding insert_sorted contains
  insert_sorted-Distinct a [] h d = (refl, tt)
  insert_sorted-Distinct a (x ∷ xs) h d = ground (
    arith,
    insert_sorted-Distinct a xs (ground arith) d.1,
    contains-insert_sorted a xs x,
    e.beq_iff a x,
    e.beq_iff x a,
  )

  pub sorted-Distinct : (xs : List A) → Distinct xs → Distinct (sorted xs)
  unfolding sorted
  sorted-Distinct [] d = tt
  sorted-Distinct (x ∷ xs) d =
      insert_sorted-Distinct x (sorted xs) (contains-sorted xs x ∙ d.0) (sorted-Distinct xs d.1)

-- Texts compare by their code points.
abbrev pub text_le : String → String → Bool
text_le s t = is_le (compare s t)

-- One step of the comparison, at the codes of the two first characters.
step_total :
    (m n : ℕ) (a b : Ordering)
    → (is_le a ≡ false → is_le b ≡ true)
    → is_le (and_then (compare_ℕ m n) a) ≡ false
    → is_le (and_then (compare_ℕ n m) b) ≡ true
step_total m n a b h k = ground arith

step_trans :
    (l m n : ℕ) (a b c : Ordering)
    → (is_le a ≡ true → is_le b ≡ true → is_le c ≡ true)
    → is_le (and_then (compare_ℕ l m) a) ≡ true
    → is_le (and_then (compare_ℕ m n) b) ≡ true
    → is_le (and_then (compare_ℕ l n) c) ≡ true
step_trans l m n a b c h k j = ground arith

pub text_le_total : (s t : String) → text_le s t ≡ false → text_le t s ≡ true
text_le_total String.[] String.[] h = refl
text_le_total String.[] (String.◌∷◌ d t) h = ground (arith, compare.nil-cons d t)
text_le_total (String.◌∷◌ c s) String.[] h = rw compare.nil-cons
text_le_total (String.◌∷◌ c s) (String.◌∷◌ d t) h = rw compare.cons-cons (
    step_total (code c) (code d) (compare s t) (compare t s) (text_le_total s t)
      (rw compare.cons-cons at h))

pub text_le_trans : (s t u : String) → text_le s t ≡ true → text_le t u ≡ true → text_le s u ≡ true
text_le_trans String.[] t String.[] h k = refl
text_le_trans String.[] t (String.◌∷◌ e u) h k = rw compare.nil-cons
text_le_trans (String.◌∷◌ c s) String.[] u h k = ground (arith, compare.cons-nil c s)
text_le_trans (String.◌∷◌ c s) (String.◌∷◌ d t) String.[] h k = ground (arith, compare.cons-nil d t)
text_le_trans (String.◌∷◌ c s) (String.◌∷◌ d t) (String.◌∷◌ e u) h k = rw compare.cons-cons (
    step_trans (code c) (code d) (code e) (compare s t) (compare t u) (compare s u)
      (text_le_trans s t u) (rw compare.cons-cons at h) (rw compare.cons-cons at k))

instance abbrev pub text_order : Order String
text_order = record { le = text_le; total = text_le_total; trans = text_le_trans }

-- Pairs compare by their first parts, and by the second where those are equal.
abbrev pub pair_le : String × String → String × String → Bool
pair_le p q = if p.0 == q.0 then text_le p.1 q.1 else text_le p.0 q.0

step_antisym :
    (m n : ℕ) (a b : Ordering)
    → (is_le a ≡ true → is_le b ≡ true → a ≡ Ordering.eq)
    → is_le (and_then (compare_ℕ m n) a) ≡ true
    → is_le (and_then (compare_ℕ n m) b) ≡ true
    → and_then (compare_ℕ m n) a ≡ Ordering.eq
step_antisym m n a b h k j = ground arith

compare-eq_of_le :
    (s t : String) → text_le s t ≡ true → text_le t s ≡ true → compare s t ≡ Ordering.eq
compare-eq_of_le String.[] String.[] h k = refl
compare-eq_of_le String.[] (String.◌∷◌ d t) h k = ground (arith, compare.cons-nil d t)
compare-eq_of_le (String.◌∷◌ c s) String.[] h k = ground (arith, compare.cons-nil c s)
compare-eq_of_le (String.◌∷◌ c s) (String.◌∷◌ d t) h k = rw compare.cons-cons (
    step_antisym (code c) (code d) (compare s t) (compare t s) (compare-eq_of_le s t)
      (rw compare.cons-cons at h) (rw compare.cons-cons at k))

pub text_le_antisym : (s t : String) → text_le s t ≡ true → text_le t s ≡ true → s ≡ t
text_le_antisym s t h k = path_by_compare s t (compare-eq_of_le s t h k)

pub pair_le_total : (p q : String × String) → pair_le p q ≡ false → pair_le q p ≡ true
pair_le_total (a, b) (c, d) h =
    ground
      (arith, string_eq.beq_iff a c, string_eq.beq_iff c a, text_le_total a c, text_le_total b d)

pub pair_le_trans :
    (p q r : String × String) → pair_le p q ≡ true → pair_le q r ≡ true → pair_le p r ≡ true
pair_le_trans (a, b) (c, d) (u, v) h k = ground (
  arith,
  string_eq.beq_iff a c,
  string_eq.beq_iff c u,
  string_eq.beq_iff a u,
  text_le_trans b d v,
  text_le_trans a c u,
  text_le_antisym a c,
)

instance abbrev pub pair_order : Order (String × String)
pair_order = record { le = pair_le; total = pair_le_total; trans = pair_le_trans }
