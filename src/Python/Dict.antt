-- ===== src/Python/Dict.antt =====
-- dict: an association list in insertion order. A write to a present key keeps its place, and one
-- to a missing key goes to the end.
use alert2ir.Prelude.{
  ◌⊎◌, inl, inr, Bool-cases, Option, none, some, List, [], ◌∷◌, ◌≡◌, refl, ◌↔◌, true, ◌&&◌, Eq,
  ◌==◌, arith, if◌then◌else◌, ◌≢◌,
}

abbrev pub Dict {ℓ κ} : Type ℓ → Type κ → Type (ℓ ⊔ κ)
Dict K V = List (K × V)

module _ {ℓ κ} {K : Type ℓ} {V : Type κ} ⦃e : Eq K⦄ where
  -- d.get(k)
  unfoldable pub get : Dict K V → K → Option V
  get [] k = none
  get ((j, v) ∷ d) k = if j == k then some v else get d k

  -- d[k] = v
  unfoldable pub put : Dict K V → K → V → Dict K V
  put [] k v = (k, v) ∷ []
  put ((j, w) ∷ d) k v = if j == k then (j, v) ∷ d else (j, w) ∷ put d k v

  pub get-put :
      (d : Dict K V) (written key : K) (value : V)
      → get (put d written value) key ≡ (if written == key then some value else get d key)
  unfolding get put
  get-put [] written key value = refl
  get-put ((i, w) ∷ d) written key value = ground (
    arith,
    e.equal_iff i written,
    e.equal_iff i key,
    e.equal_iff written key,
    get-put d written key value,
  )

  pub get-put_self : (d : Dict K V) (k : K) (v : V) → get (put d k v) k ≡ some v
  get-put_self d k v = ground (arith, get-put d k k v, e.equal_iff k k)

  pub get-put_ne : (d : Dict K V) (k j : K) (v : V) → k ≢ j → get (put d k v) j ≡ get d j
  get-put_ne d k j v h = ground (arith, get-put d k j v, e.equal_iff k j)

module _ {ℓ κ} {K : Type ℓ} {V : Type κ} ⦃e : Eq K⦄ where
  -- a lookup after a write, by cases on the key
  pub put-some :
      (d : Dict K V) (k j : K) (v w : V)
      → get (put d k v) j ≡ some w
      → ((j ≡ k) × (w ≡ v)) ⊎ (get d j ≡ some w)
  put-some d k j v w h = ground (arith, get-put d k j v, e.equal_iff k j)

  -- a present key stays present
  pub put-present :
      (d : Dict K V) (k j : K) (v w : V)
      → get d j ≡ some w
      → (u : V) × (get (put d k v) j ≡ some u) × (((j ≡ k) × (u ≡ v)) ⊎ (u ≡ w))
  put-present d k j v w h = elim (Bool-cases (k == j)) [
    | inl hit ↦ (v, ground (arith, get-put d k j v), ground (arith, e.equal_iff k j))
    | inr miss ↦ (w, ground (arith, get-put d k j v), inr refl)
  ]

  -- a write to a missing key keeps every value
  pub get-put_fresh :
      (d : Dict K V) (k j : K) (v w : V)
      → get d k ≡ none
      → get d j ≡ some w
      → get (put d k v) j ≡ some w
  get-put_fresh d k j v w fresh h = ground (arith, get-put d k j v, e.equal_iff k j)

-- d.values(), in insertion order
module _ {ℓ κ} {K : Type ℓ} {V : Type κ} where
  unfoldable pub values : Dict K V → List V
  values [] = []
  values ((k, v) ∷ d) = v ∷ values d

-- A key that is a tuple.
pub pair_eq_iff {ℓ κ} :
    {A : Type ℓ} {B : Type κ} ⦃a : Eq A⦄ ⦃b : Eq B⦄ (x y : A × B)
    → ((x.0 == y.0 && x.1 == y.1) ≡ true) ↔ (x ≡ y)
pair_eq_iff ⦃a⦄ ⦃b⦄ x y = ground (arith, a.equal_iff x.0 y.0, b.equal_iff x.1 y.1)

instance abbrev pub pair_equality {ℓ κ} :
    {A : Type ℓ} {B : Type κ} ⦃a : Eq A⦄ ⦃b : Eq B⦄ → Eq (A × B)
pair_equality = record { equal = λ x y. x.0 == y.0 && x.1 == y.1; equal_iff = pair_eq_iff }
