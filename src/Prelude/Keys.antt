-- ===== src/Prelude/Keys.antt =====
-- Decidable keys, with one test `==` for numbers and texts.
use Prim.Native.Nat.{ℕ}
use Prim.Native.String.{String}
use mathlib.Core.Path.{◌≡◌, refl}
use mathlib.Core.Logic.{◌↔◌, ◌≢◌, ◌⊎◌, inl, inr}
use mathlib.Core.Bool.{Bool, true, false}
use native.Mathlib.Omega.{arith}
use text.Mathlib.Text.{◌==◌ as str_eqb}
use text.Mathlib.TextEquality.{eq_iff}
use anser.Prelude.Tests.{nat_eqb, nat_eqb_iff, Bool-cases}

-- A type of keys has a test that decides their equality.
pub record Key {ℓ} (K : Type ℓ) : Type ℓ where
  pub test : (j k : K) → Bool
  pub test_iff : (j k : K) → (test j k ≡ true) ↔ (j ≡ k)

infix 50 ◌==◌
abbrev pub ◌==◌ {ℓ} : {K : Type ℓ} ⦃key : Key K⦄ (j k : K) → Bool
◌==◌ ⦃key⦄ j k = key.test j k

instance abbrev pub string_key : Key String
string_key = record { test = str_eqb; test_iff = λ j k. eq_iff j k }

instance abbrev pub nat_key : Key ℕ
nat_key = record { test = nat_eqb; test_iff = λ j k. nat_eqb_iff j k }

module _ {ℓ} {A : Type ℓ} ⦃e : Key A⦄ where
  pub ==_self : (a : A) → (a == a) ≡ true
  ==_self a = (e.test_iff a a).1 refl

  pub ==_ne : (a b : A) → a ≢ b → (a == b) ≡ false
  ==_ne a b h = ground (arith, e.test_iff a b)

  pub Key-cases : (a b : A) → (a ≡ b) ⊎ (a ≢ b)
  Key-cases a b = elim (Bool-cases (a == b)) [
    | inl same ↦ inl ((e.test_iff a b).0 same)
    | inr differ ↦ inr (λ p. ground (arith, e.test_iff a b))
  ]
