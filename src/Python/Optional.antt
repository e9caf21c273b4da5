-- ===== src/Python/Optional.antt =====
-- Optional values: `is None` tests, and equality.
use alert2ir.Prelude.{Option, none, some, Bool, true, false, Eq, ◌==◌, ◌≡◌, refl, ◌↔◌}

module _ {ℓ} {A : Type ℓ} where
  -- value is None
  abbrev pub is_none : Option A → Bool
  is_none none = true
  is_none (some a) = false

  -- value is not None
  abbrev pub is_some : Option A → Bool
  is_some none = false
  is_some (some a) = true

  -- `value is not None and test(value)`
  abbrev pub when_some : Option A → (A → Bool) → Bool
  when_some none test = false
  when_some (some a) test = test a

  module _ ⦃e : Eq A⦄ where
    abbrev pub option_eq : Option A → Option A → Bool
    option_eq none none = true
    option_eq (some a) (some b) = a == b
    option_eq _ _ = false

    pub option_eq_iff : (x y : Option A) → (option_eq x y ≡ true) ↔ (x ≡ y)
    option_eq_iff none none = (λ h. refl, λ h. refl)
    option_eq_iff none (some b) = (λ h. cc, λ h. cc)
    option_eq_iff (some a) none = (λ h. cc, λ h. cc)
    option_eq_iff (some a) (some b) =
        (λ h. cc ((e.equal_iff a b).0 h), λ h. (e.equal_iff a b).1 (cc))

instance abbrev pub option_equality {ℓ} : {A : Type ℓ} ⦃e : Eq A⦄ → Eq (Option A)
option_equality = record { equal = option_eq; equal_iff = option_eq_iff }
