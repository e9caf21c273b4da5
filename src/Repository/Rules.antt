-- ===== src/Repository/Rules.antt =====
-- Rules for the building blocks of the repository's methods: what holds of the outcome of a block
-- if it holds on each of its branches.
use alert2ir.Prelude.{
  ◌==◌, ==_iff, nat_equality, arith, String, Option, none, some, Bool, true, false, ◌≡◌, refl,
  if◌then◌else◌,
}
use alert2ir.Python.Result.{Exc, Result, ok, err, raise_if}
use alert2ir.Python.Action.{Action, lift, ◌>>=◌, ◌>>◌}
use alert2ir.Python.Result.{key_error}
use alert2ir.Python.Dict.{get}
use alert2ir.Backends.Base.{Uuid}
use alert2ir.Application.Orchestrator.{construct}
use alert2ir.Application.States.{
  ProcessingState, ExecutionAttemptState, processing_state_equality, attempt_state_equality,
}
use alert2ir.Application.Record.{ProcessingRecord}
use alert2ir.Application.Attempt.{ExecutionAttempt}
use alert2ir.Repository.Progress.{with_attempt}
use alert2ir.Repository.Store.{Repository, having, when_found, load_record}

module _ {ℓ κ} {B : Type ℓ} (P : Result B × Repository → Type κ) (s : Repository) where
  pub raise_if-rule :
      (b : Bool) (message : String) (k : Action Repository B)
      → ((e : Exc) → P (err e, s))
      → (b ≡ false → P (k s))
      → P ((lift (raise_if b message) >> k) s)
  raise_if-rule true message k raised rest = raised _
  raise_if-rule false message k raised rest = rest refl

  pub if-rule :
      (b : Bool) (k l : Action Repository B)
      → (b ≡ true → P (k s))
      → (b ≡ false → P (l s))
      → P ((if b then k else l) s)
  if-rule true k l yes_ no_ = yes_ refl
  if-rule false k l yes_ no_ = no_ refl

module _ {ℓ κ μ} {A : Type ℓ} {B : Type κ} (P : Result B × Repository → Type μ)
    (s : Repository) where
  pub lift-rule :
      (r : Result A) (f : A → Action Repository B)
      → ((e : Exc) → P (err e, s))
      → ((a : A) → r ≡ ok a → P (f a s))
      → P ((lift r >>= f) s)
  lift-rule (ok a) f raised rest = rest a refl
  lift-rule (err e) f raised rest = raised e

  pub construct-rule :
      (check : A → Result (Unit {0})) (a : A) (f : A → Action Repository B)
      → ((e : Exc) → P (err e, s))
      → (check a ≡ ok tt → P (f a s))
      → P ((lift (construct check a) >>= f) s)
  construct-rule check a f raised rest = go (check a) refl
    where
      go : (r : Result (Unit {0})) → check a ≡ r → P ((lift (construct check a) >>= f) s)
      go (ok tt) e = rw e (rest e)
      go (err x) e = rw e (raised x)

module _ {ℓ κ μ} {A : Type ℓ} {B : Type κ} (P : Result (Option B) × Repository → Type μ)
    (s : Repository) where
  pub when_found-rule :
      (o : Option A) (f : A → Action Repository (Option B))
      → P (ok none, s)
      → ((a : A) → o ≡ some a → P (f a s))
      → P (when_found o f s)
  when_found-rule none f missing rest = missing
  when_found-rule (some a) f missing rest = rest a refl

pub having-some {ℓ} :
    {A : Type ℓ} (test : A → Bool) (o : Option A) {a : A}
    → having test o ≡ some a
    → (o ≡ some a) × (test a ≡ true)
having-some test none h = absurd (cc)
having-some test (some x) h = ground arith

-- the call returned, and not with None
abbrev pub answered {ℓ} : {A : Type ℓ} → Result (Option A) → Bool
answered (ok (some a)) = true
answered (ok none) = false
answered (err e) = false

-- self._records[k], before the rest of a method
module _ {ℓ κ} {B : Type ℓ} (P : Result B × Repository → Type κ) (s : Repository) where
  pub load_record-rule :
      (k : Uuid) (f : ProcessingRecord → Action Repository B)
      → P (err key_error, s)
      → ((r : ProcessingRecord) → get s.records k ≡ some r → P (f r s))
      → P ((load_record k >>= f) s)
  load_record-rule k f missing rest = go (get s.records k) refl
    where
      go : (o : Option ProcessingRecord) → get s.records k ≡ o → P ((load_record k >>= f) s)
      go none e = rw e missing
      go (some r) e = rw e (rest r e)

module _ {ℓ κ} {A : Type ℓ} (P : Result (Option A) × Repository → Type κ) (s : Repository) where
  pub with_attempt-rule :
      (k : Uuid) (x : ExecutionAttemptState) (y : ProcessingState)
      (body : ExecutionAttempt → ProcessingRecord → Action Repository (Option A))
      → ((r : Result (Option A)) → answered r ≡ false → P (r, s))
      → ((a : ExecutionAttempt) (c : ProcessingRecord)
          → get s.attempts k ≡ some a
          → a.state ≡ x
          → get s.records a.processing_id ≡ some c
          → c.state ≡ y
          → P (body a c s))
      → P (with_attempt k x y body s)
  with_attempt-rule k x y body kept rest =
      when_found-rule P s (having (λ a. a.state == x) (get s.attempts k)) _ (kept _ refl) λ a e.
        let (found, in_state) = having-some (λ b. b.state == x) (get s.attempts k) e in
        load_record-rule P s a.processing_id _ (kept _ refl) λ c found_record.
          if-rule P s (c.state == y) _ _
            (λ in_state'.
              rest a c found ((==_iff a.state x).0 in_state) found_record
                ((==_iff c.state y).0 in_state'))
            (λ _. kept _ refl)
