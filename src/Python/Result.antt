-- ===== src/Python/Result.antt =====
-- Python's exceptions as values. A pure function that may raise returns a `Result`. A message is
-- kept where the source writes one that the program's own errors differ by.
use alert2ir.Prelude.{Bool, true, false, ℕ, String, List, ◌≡◌, refl, ◌⊎◌, inl, inr}

pub data Exc : Type 0 where
  value_error : String → Exc
  key_error type_error timeout_error : Exc
  runtime_error : String → Exc
  -- backends/router.py
  unsupported_capabilities : List String → Exc
  ambiguous_backend : List String → List String → Exc
  -- backends/base.py
  submission_rejected submission_unknown execution_error protocol_error : Exc
  -- application/processing.py
  persistence_unavailable : String → Exc
  idempotency_conflict : ℕ → Exc
  -- adapters/splunk
  authentication_error validation_error : Exc
  -- integrations/splunk/alert2ir_delivery
  action_input_error action_configuration_error : String → Exc
  connection_failure request_timeout : Exc
  -- IndexError and AssertionError
  index_error assertion_error : Exc
  -- any other subclass of Exception, raised by code outside the repository
  other_error : Exc

-- a returned value, or a raised exception
pub data Result {κ} (T : Type κ) : Type κ where
  err : Exc → Result T
  ok : T → Result T

module _ {κ μ} {A : Type κ} {B : Type μ} where
  infixl 5 ◌>>=◌
  abbrev pub ◌>>=◌ : Result A → (A → Result B) → Result B
  ok value >>= rest = rest value
  err raised >>= rest = err raised

module _ {μ} {B : Type μ} where
  infixl 5 ◌>>◌
  abbrev pub ◌>>◌ : Result (Unit {0}) → Result B → Result B
  ok passed >> rest = rest
  err raised >> rest = err raised

-- `if condition: raise ValueError(message)`
abbrev pub raise_if : Bool → String → Result (Unit {0})
raise_if true message = err (value_error message)
raise_if false message = ok tt

-- `if condition: raise exception`, for any class
abbrev pub raise_exc_if : Bool → Exc → Result (Unit {0})
raise_exc_if true e = err e
raise_exc_if false e = ok tt

-- A sequence of two checks passes exactly when both pass.
pub >>-ok : (m k : Result (Unit {0})) → (m >> k) ≡ ok tt → (m ≡ ok tt) × (k ≡ ok tt)
>>-ok (ok tt) k h = (refl, h)
>>-ok (err e) k h = absurd (cc)

-- The same for a block that follows a check.
pub check-ok {ℓ} :
    {B : Type ℓ} (m : Result (Unit {0})) (k : Result B) (b : B) → (m >> k) ≡ ok b → k ≡ ok b
check-ok (ok tt) k b h = h
check-ok (err e) k b h = absurd (cc)

pub passed-ok {ℓ} :
    {B : Type ℓ} (m : Result (Unit {0})) (k : Result B) (b : B) → (m >> k) ≡ ok b → m ≡ ok tt
passed-ok (ok tt) k b h = refl
passed-ok (err e) k b h = absurd (cc)

-- a check that passed
pub raise_exc_if-false : (b : Bool) (e : Exc) → raise_exc_if b e ≡ ok tt → b ≡ false
raise_exc_if-false false e h = refl
raise_exc_if-false true e h = absurd (cc)

pub raise_if-false : (b : Bool) (message : String) → raise_if b message ≡ ok tt → b ≡ false
raise_if-false false message h = refl
raise_if-false true message h = absurd (cc)

pub Result-cases {ℓ} :
    {A : Type ℓ} (r : Result A) → ((e : Exc) × (r ≡ err e)) ⊎ ((a : A) × (r ≡ ok a))
Result-cases (err e) = inl (e, refl)
Result-cases (ok a) = inr (a, refl)

module _ {ℓ κ} {A : Type ℓ} {B : Type κ} where
  -- a block that returned: its first step returned, and so did the rest
  pub bind-ok :
      (r : Result A) (f : A → Result B) (b : B)
      → (r >>= f) ≡ ok b
      → (a : A) × (r ≡ ok a) × (f a ≡ ok b)
  bind-ok (ok a) f b h = (a, refl, h)
  bind-ok (err e) f b h = absurd (cc)
