-- ===== src/Prelude/Keeping.antt =====
-- Lemmas on `keep` and on appending lists.
use graphrag_aws_template.Prelude.{
  ◌≡◌, refl, ap, String, string_eq, Bool, true, List, [], ◌∷◌, ◌++◌, map, arith, keep, contains,
}

pub append-nil {ℓ} : {A : Type ℓ} (xs : List A) → xs ++ [] ≡ xs
append-nil [] = refl
append-nil (x ∷ xs) = ap (◌∷◌ x) (append-nil xs)

pub append_assoc {ℓ} : {A : Type ℓ} (xs ys zs : List A) → (xs ++ ys) ++ zs ≡ xs ++ (ys ++ zs)
append_assoc [] ys zs = refl
append_assoc (x ∷ xs) ys zs = ap (◌∷◌ x) (append_assoc xs ys zs)

pub keep-ext {ℓ} :
    {A : Type ℓ} (p q : A → Bool) (xs : List A) → ((x : A) → p x ≡ q x) → keep p xs ≡ keep q xs
unfolding keep
keep-ext p q [] h = refl
keep-ext p q (x ∷ xs) h = ground (arith, h x, keep-ext p q xs h)

pub keep-append {ℓ} :
    {A : Type ℓ} (p : A → Bool) (xs ys : List A) → keep p (xs ++ ys) ≡ keep p xs ++ keep p ys
unfolding keep
keep-append p [] ys = refl
keep-append p (x ∷ xs) ys = ground (arith, keep-append p xs ys)

pub keep_idem {ℓ} : {A : Type ℓ} (p : A → Bool) (xs : List A) → keep p (keep p xs) ≡ keep p xs
unfolding keep
keep_idem p [] = refl
keep_idem p (x ∷ xs) = ground (arith, keep_idem p xs)

pub keep_all {ℓ} :
    {A : Type ℓ} (p : A → Bool) (xs : List A) → ((x : A) → p x ≡ true) → keep p xs ≡ xs
unfolding keep
keep_all p [] h = refl
keep_all p (x ∷ xs) h = ground (arith, h x, keep_all p xs h)

pub kept-passes {ℓ} :
    {A : Type ℓ} (f : A → String) (q : String → Bool) (xs : List A) (p : String)
    → contains (map f (keep (λ x. q (f x)) xs)) p ≡ true
    → q p ≡ true
unfolding keep contains
kept-passes f q [] p h = absurd (ground arith)
kept-passes f q (x ∷ xs) p h = ground (arith, kept-passes f q xs p, string_eq.beq_iff (f x) p)
