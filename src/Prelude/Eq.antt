-- ===== src/Prelude/Eq.antt =====
-- Keys: a type with a Boolean equality that decides it.
use Prim.Native.Nat.{ℕ}
use Prim.Native.String.{String}
use mathlib.Core.Path.{◌≡◌, refl}
use mathlib.Core.Logic.{◌↔◌}
use mathlib.Core.Bool.{Bool, true}
use text.Mathlib.Text.{◌==◌ as str_eq}
use text.Mathlib.TextEquality.{eq_iff}
use native.Mathlib.Omega.{arith}
use openpaw.Prelude.Tests.{◌==◌, ==_iff}

pub record Keyed {ℓ} (A : Type ℓ) : Type ℓ where
  pub beq : A → A → Bool
  pub beq_iff : (a b : A) → (beq a b ≡ true) ↔ (a ≡ b)

-- The operator `==` of the source at a key type.
infix 50 ◌=?◌
abbrev pub ◌=?◌ {ℓ} : {A : Type ℓ} ⦃e : Keyed A⦄ → A → A → Bool
◌=?◌ ⦃e⦄ = e.beq

instance abbrev pub nat_keyed : Keyed ℕ
nat_keyed = record { beq = ◌==◌; beq_iff = ==_iff }

instance abbrev pub string_keyed : Keyed String
string_keyed = record { beq = str_eq; beq_iff = eq_iff }

pub =?_refl {ℓ} : {A : Type ℓ} ⦃e : Keyed A⦄ (a : A) → (a =? a) ≡ true
=?_refl ⦃e⦄ a = (e.beq_iff a a).1 refl

pub =?_sym {ℓ} : {A : Type ℓ} ⦃e : Keyed A⦄ (a b : A) → (a =? b) ≡ (b =? a)
=?_sym ⦃e⦄ a b = ground (arith, e.beq_iff a b, e.beq_iff b a)
