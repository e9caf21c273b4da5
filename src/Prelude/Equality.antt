-- ===== src/Prelude/Equality.antt =====
-- Python's `==` on values: an interface, filled from a decision of equality.
use Prim.Native.String.{String}
use Prim.Native.Nat.{ℕ}
use mathlib.Core.Path.{◌≡◌, refl}
use mathlib.Core.Logic.{◌↔◌}
use mathlib.Core.Bool.{Bool, true, false}
use text.Mathlib.Text.{◌==◌ as str_eq}
use text.Mathlib.TextEquality.{eq_iff}
use alert2ir.Prelude.Tests.{nat_eq, nat_eq_iff}

pub record Eq {κ} (K : Type κ) : Type κ where
  pub equal : K → K → Bool
  pub equal_iff : (x y : K) → (equal x y ≡ true) ↔ (x ≡ y)

module _ {κ} {K : Type κ} ⦃equality : Eq K⦄ where
  infix 50 ◌==◌
  abbrev pub ◌==◌ : K → K → Bool
  ◌==◌ = equality.equal

  pub ==_iff : (x y : K) → ((x == y) ≡ true) ↔ (x ≡ y)
  ==_iff = equality.equal_iff

  pub ==_refl : (x : K) → (x == x) ≡ true
  ==_refl x = (equality.equal_iff x x).1 refl

abbrev pub is_yes {ℓ} : {P : Type ℓ} → Dec P → Bool
is_yes (yes p) = true
is_yes (no p) = false

pub is_yes_iff {ℓ} : {P : Type ℓ} (d : Dec P) → (is_yes d ≡ true) ↔ P
is_yes_iff (yes p) = (λ _. p, λ _. refl)
is_yes_iff (no p) = (λ h. cc, λ q. absurd (p q))

abbrev pub eq_of_discrete {ℓ} : {A : Type ℓ} → Discrete A → Eq A
eq_of_discrete d = record { equal = λ a b. is_yes (d a b); equal_iff = λ a b. is_yes_iff (d a b) }

pub dec_of_test {ℓ} : {A : Type ℓ} (a b : A) (t : Bool) → ((t ≡ true) ↔ (a ≡ b)) → Dec (a ≡ b)
dec_of_test a b true h = yes (h.0 refl)
dec_of_test a b false h = no (λ e. cc (h.1 e))

unfoldable pub string_discrete : Discrete String
unfolding dec_of_test
string_discrete a b = dec_of_test a b (str_eq a b) (eq_iff a b)

instance abbrev pub string_equality : Eq String
string_equality = record { equal_iff = eq_iff; equal = str_eq }

instance abbrev pub nat_equality : Eq ℕ
nat_equality = record { equal_iff = nat_eq_iff; equal = nat_eq }
