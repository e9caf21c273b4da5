-- ===== src/Python/Action.antt =====
-- Methods that change an object and may raise. What was written before a raise stays written, so
-- the state comes back beside an exception too.
use alert2ir.Prelude.{Option, none, some, ◌≡◌, refl}
use alert2ir.Python.Result.{Exc, Result, ok, err, key_error}

abbrev pub Action {ℓ κ} : Type ℓ → Type κ → Type (ℓ ⊔ κ)
Action S A = S → Result A × S

module _ {ℓ κ} {S : Type ℓ} {A : Type κ} where
  abbrev pub pure : A → Action S A
  pure a s = (ok a, s)

  abbrev pub raise : Exc → Action S A
  raise e s = (err e, s)

  abbrev pub lift : Result A → Action S A
  lift r s = (r, s)

  abbrev pub gets : (S → A) → Action S A
  gets f s = (ok (f s), s)

  -- d[k], of a lookup
  abbrev pub or_key_error : Option A → Action S A
  or_key_error none = raise key_error
  or_key_error (some a) = pure a

abbrev pub modify {ℓ} : {S : Type ℓ} → (S → S) → Action S (Unit {0})
modify f s = (ok tt, f s)

module _ {ℓ κ μ} {S : Type ℓ} {A : Type κ} {B : Type μ} where
  abbrev continue : Result A → (A → Action S B) → Action S B
  continue (ok a) f s = f a s
  continue (err e) f s = (err e, s)

  infixl 5 ◌>>=◌
  abbrev pub ◌>>=◌ : Action S A → (A → Action S B) → Action S B
  ◌>>=◌ m f s = continue (m s).0 f (m s).1

  -- a block that returned: its first step returned, and so did the rest
  pub >>=-ok :
      (m : Action S A) (f : A → Action S B) (s : S) (b : B)
      → ((m >>= f) s).0 ≡ ok b
      → (a : A) × ((m s).0 ≡ ok a) × ((f a (m s).1).0 ≡ ok b)
  >>=-ok m f s b h = go (m s).0 refl h
    where
      go :
          (r : Result A)
          → (m s).0 ≡ r
          → (continue r f (m s).1).0 ≡ ok b
          → (a : A) × ((m s).0 ≡ ok a) × ((f a (m s).1).0 ≡ ok b)
      go (ok a) e h = (a, e, h)
      go (err x) e h = absurd (cc)

module _ {ℓ κ} {S : Type ℓ} {B : Type κ} where
  infixl 5 ◌>>◌
  abbrev pub ◌>>◌ : Action S (Unit {0}) → Action S B → Action S B
  ◌>>◌ m k = m >>= λ _. k

  pub check-ok :
      (r : Result (Unit {0})) (k : Action S B) (s : S) (b : B)
      → ((lift r >> k) s).0 ≡ ok b
      → (k s).0 ≡ ok b
  check-ok (ok tt) k s b h = h
  check-ok (err e) k s b h = absurd (cc)
