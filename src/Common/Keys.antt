-- ===== src/Common/Keys.antt =====
-- Types with a test of equality: the keys of Go's maps.
use Prim.Native.Nat.{ℕ}
use Prim.Native.String.{String}
use mathlib.Core.Bool.{Bool, true}
use mathlib.Core.Logic.{◌↔◌}
use mathlib.Core.Path.{◌≡◌, refl}
use text.Mathlib.Text.{◌==◌ as str_eq}
use text.Mathlib.TextEquality.{eq_iff}
use ida_pilot.Common.Tests.{eqb, eqb_iff}

pub record Key {ℓ} (K : Type ℓ) : Type ℓ where
  pub same : K → K → Bool
  pub same_iff : (a b : K) → (same a b ≡ true) ↔ (a ≡ b)

infix 50 ◌==◌
abbrev pub ◌==◌ {ℓ} : {K : Type ℓ} ⦃key : Key K⦄ → K → K → Bool
◌==◌ ⦃key⦄ = key.same

instance abbrev pub number_key : Key ℕ
number_key = record { same = eqb; same_iff = eqb_iff }

instance abbrev pub string_key : Key String
string_key = record { same = str_eq; same_iff = eq_iff }

pub same_self {ℓ} : {K : Type ℓ} ⦃key : Key K⦄ (a : K) → (a == a) ≡ true
same_self ⦃key⦄ a = (key.same_iff a a).1 refl

pub eq_of_same {ℓ} : {K : Type ℓ} ⦃key : Key K⦄ (a b : K) → (a == b) ≡ true → a ≡ b
eq_of_same ⦃key⦄ a b h = (key.same_iff a b).0 h
