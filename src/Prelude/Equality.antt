-- ===== src/Prelude/Equality.antt =====
-- Python's `==`, as an instance: a Boolean test that decides equality of the model's values.
use Prim.Native.String.{String}
use mathlib.Core.Path.{◌≡◌, refl}
use mathlib.Core.Logic.{◌↔◌}
use mathlib.Core.Bool.{Bool, true, ◌&&◌}
use native.Mathlib.Omega.{arith}
use text.Mathlib.Text.{◌==◌ as text_beq}
use text.Mathlib.TextEquality.{eq_iff}

-- a Boolean test, and that it decides equality
pub record Eq {ℓ} (T : Type ℓ) : Type ℓ where
  pub beq : T → T → Bool
  pub beq_iff : (x y : T) → (beq x y ≡ true) ↔ (x ≡ y)

infix 50 ◌==◌
abbrev pub ◌==◌ {ℓ} : {A : Type ℓ} ⦃e : Eq A⦄ → A → A → Bool
◌==◌ ⦃e⦄ = e.beq

module _ {ℓ κ} {A : Type ℓ} {B : Type κ} where
  abbrev pub pair_beq : Eq A → Eq B → A × B → A × B → Bool
  pair_beq d e p q = d.beq p.0 q.0 && e.beq p.1 q.1

  pub pair_beq_iff : (d : Eq A) (e : Eq B) (p q : A × B) → (pair_beq d e p q ≡ true) ↔ (p ≡ q)
  pair_beq_iff d e (a, b) (c, f) = ground (arith, d.beq_iff a c, e.beq_iff b f)

  instance abbrev pub pair_eq : ⦃d : Eq A⦄ ⦃e : Eq B⦄ → Eq (A × B)
  pair_eq ⦃d⦄ ⦃e⦄ = record { beq = pair_beq d e; beq_iff = pair_beq_iff d e }

module _ {ℓ} {A : Type ℓ} ⦃e : Eq A⦄ where
  pub beq_refl : (a : A) → (a == a) ≡ true
  beq_refl a = (e.beq_iff a a).1 refl

instance abbrev pub string_eq : Eq String
string_eq = record { beq = text_beq; beq_iff = eq_iff }
