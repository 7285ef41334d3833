-- ===== src/Base/Equality.antt =====
-- Python's `==` for the types whose equality the program tests, and texts as their code points.
use Prim.Native.Nat.{ℕ}
use mathlib.Core.Path.{◌≡◌, refl}
use mathlib.Core.Logic.{◌↔◌, ite}
use mathlib.Core.Bool.{Bool, true, false, ◌||◌}
use mathlib.Core.List.{List, [], ◌∷◌}
use mathlib.Core.Option.{Option}
use native.Mathlib.Omega.{arith}
use native.Mathlib.Decide.{ℕ_discrete}
use setuora_lite.Base.Tests.{nat_beq}

-- An equality test with its meaning.
pub record Eq {ℓ} (T : Type ℓ) : Type ℓ where
  pub same : T → T → Bool
  pub same_iff : (x y : T) → (same x y ≡ true) ↔ (x ≡ y)

infix 50 ◌==◌
abbrev pub ◌==◌ {ℓ} : {T : Type ℓ} ⦃eq : Eq T⦄ → T → T → Bool
◌==◌ ⦃eq⦄ x y = eq.same x y

-- A text is the list of its code points.
abbrev pub Text : Type 0
Text = List ℕ

pub nat_beq_iff : (a b : ℕ) → (nat_beq a b ≡ true) ↔ (a ≡ b)
nat_beq_iff a b = ground arith

instance abbrev pub nat_eq : Eq ℕ
nat_eq = record { same = nat_beq; same_iff = nat_beq_iff }

abbrev pub by_dec {ℓ} : {A : Type ℓ} → Discrete A → A → A → Bool
by_dec d a b = ite (d a b) true false

pub by_dec_iff {ℓ} : {A : Type ℓ} (d : Discrete A) (a b : A) → (by_dec d a b ≡ true) ↔ (a ≡ b)
by_dec_iff d a b = ground arith

abbrev pub eq_of_discrete {ℓ} : {A : Type ℓ} → Discrete A → Eq A
eq_of_discrete d = record { same = by_dec d; same_iff = by_dec_iff d }

unfoldable pub Text-discrete : Discrete Text
unfolding ℕ_discrete
Text-discrete = hlevel ℕ_discrete

instance abbrev pub text_eq : Eq Text
text_eq = eq_of_discrete Text-discrete

unfoldable pub Option-discrete : Discrete (Option ℕ)
unfolding ℕ_discrete
Option-discrete = hlevel ℕ_discrete

instance abbrev pub option_eq : Eq (Option ℕ)
option_eq = eq_of_discrete Option-discrete

module _ {ℓ} {A : Type ℓ} ⦃e : Eq A⦄ where
  pub ==_refl : (a : A) → (a == a) ≡ true
  ==_refl a = (e.same_iff a a).1 refl

  pub eq_of_== : (a b : A) → (a == b) ≡ true → a ≡ b
  eq_of_== a b h = (e.same_iff a b).0 h

  -- `a in xs`
  abbrev pub one_of : A → List A → Bool
  one_of a [] = false
  one_of a (x ∷ xs) = (a == x) || one_of a xs
