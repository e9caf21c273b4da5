-- ===== src/Processing/Keeps/Claiming.antt =====
-- A granted claim makes the operation key of its attempt ready to be given to the backend.
use alert2ir.Prelude.{
  ◌==◌, ==_iff, ℕ, String, Option, some, ◌∷◌, ◌≡◌, ◌≢◌, refl, false, Bool-cases, arith, inl, inr,
  nat_equality, subst, ap, sym, ◌∙◌,
}
use alert2ir.Python.Result.{Result, ok, err, persistence_unavailable}
use alert2ir.Python.DateTime.{DateTime}
use alert2ir.Python.Dict.{get, get-put_self}
use alert2ir.Python.Action.{Action, ◌>>=◌}
use alert2ir.Backends.Base.{Uuid}
use alert2ir.Application.States.{ProcessingState, ExecutionAttemptState}
use alert2ir.Application.Record.{record_post_init}
use alert2ir.Application.Attempt.{ExecutionAttempt, attempt_post_init}
use alert2ir.Repository.Store.{Repository, write_attempt}
use alert2ir.Repository.Plans.{contains_id}
use alert2ir.Repository.Progress.{
  claim_attempt_for_submission, claim_writes, claimed_attempt, moved_record,
}
use alert2ir.Repository.Rules.{with_attempt-rule, construct-rule}
use alert2ir.Repository.Effects.Progress.{claim-Change}
use alert2ir.Processing.World.{World, or_unavailable, catch}
use alert2ir.Processing.Invariant.{WorldInv, IsSubmittable, Change-WorldInv}

-- the key has not been given to a backend, and belongs to a claimed attempt
pub record Ready (key : Uuid) (w : World) : Type 0 where
  pub world : WorldInv w
  pub unsent : contains_id key w.submissions ≡ false
  pub started : IsSubmittable key w.repository

pub reading-Ready :
    (key : Uuid) (w : World) (n : ℕ) → Ready key w → Ready key (record w { ordinal = n })
reading-Ready key w n r = record {
  world = record {
    repository = r.world.repository;
    submitted = r.world.submitted;
    distinct = r.world.distinct;
  };
  unsent = r.unsent;
  started = r.started;
}

-- the world after the key is given to the backend
pub sent-WorldInv :
    (key : Uuid) (w : World) (n : ℕ)
    → Ready key w
    → WorldInv (record w { ordinal = n; submissions = key ∷ w.submissions })
sent-WorldInv key w n r = record {
  repository = r.world.repository;
  submitted = λ k h. elim (Bool-cases (k == key)) [
    | inl e ↦ rw ((==_iff k key).0 e) r.started
    | inr e ↦ r.world.submitted k (ground arith)
  ];
  distinct = (r.unsent, r.world.distinct);
}

module _ (s : Repository) (a : Uuid) (now : DateTime) where
  abbrev Granted : Result (Option ExecutionAttempt) × Repository → Type 0
  Granted out =
      (x : ExecutionAttempt)
      → out.0 ≡ ok (some x)
      → (y : ExecutionAttempt) × (get s.attempts a ≡ some y)
        × (y.state ≡ ExecutionAttemptState.planned)
        × (y.operation_key ≡ x.operation_key)
        × (get out.1.attempts a ≡ some x)
        × (x.state ≢ ExecutionAttemptState.planned)

  pub claim-Granted : Granted (claim_attempt_for_submission a now s)
  unfolding claim_attempt_for_submission
  claim-Granted =
      with_attempt-rule Granted s a ExecutionAttemptState.planned ProcessingState.planned
        (claim_writes a now) (λ r e x h. absurd (cc))
        λ y c found state found_record state'.
          construct-rule Granted s attempt_post_init (claimed_attempt y now) _
            (λ e x h. absurd (cc))
            λ valid.
              construct-rule Granted (write_attempt s a (claimed_attempt y now)) record_post_init
                (moved_record c ProcessingState.submitting now) _ (λ e x h. absurd (cc))
                λ valid' x h.
                  let e : x ≡ claimed_attempt y now = cc in
                  rw e (
                    y,
                    found,
                    state,
                    refl,
                    get-put_self s.attempts a (claimed_attempt y now),
                    λ e'. absurd (cc),
                  )

-- a granted claim, in a world that has the invariant
pub claim-Ready :
    (w : World) (a : Uuid) (now : DateTime) (n : ℕ) (x : ExecutionAttempt)
    → WorldInv w
    → (claim_attempt_for_submission a now w.repository).0 ≡ ok (some x)
    → Ready x.operation_key
        (record w { repository = (claim_attempt_for_submission a now w.repository).1; ordinal = n })
claim-Ready w a now n x inv h =
    let (y, found, planned, same, found', started) = claim-Granted w.repository a now x h in
    record {
      world = Change-WorldInv w _ n inv (claim-Change w.repository inv.repository a now);
      unsent = elim (Bool-cases (contains_id x.operation_key w.submissions)) [
        | inl e ↦
            let (b, z, found_z, own, started_z) = inv.submitted x.operation_key e in
            let b_a : b ≡ a = inv.repository.distinct_keys b a z y found_z found (own ∙ sym same) in
            let same_found : get w.repository.attempts a ≡ some z =
              subst (λ i. get w.repository.attempts i ≡ some z) b_a found_z in
            absurd (started_z (ground arith))
        | inr e ↦ e
      ];
      started = (a, x, found', refl, started);
    }

module _ {ℓ κ} {A : Type ℓ} {B : Type κ} where
  pub from-bind :
      (m : Action World A) (f : A → Action World B) (w : World)
      → WorldInv (m w).1
      → ((a : A) → (m w).0 ≡ ok a → WorldInv (f a (m w).1).1)
      → WorldInv ((m >>= f) w).1
  from-bind m f w h kf = go (m w) refl h kf
    where
      go :
          (o : Result A × World)
          → m w ≡ o
          → WorldInv (m w).1
          → ((a : A) → (m w).0 ≡ ok a → WorldInv (f a (m w).1).1)
          → WorldInv ((m >>= f) w).1
      go (ok a, v) e h kf = rw (e) (rw e at (kf a (ap (λ o. o.0) e)))
      go (err x, v) e h kf = rw (e) (rw e at h)

module _ {ℓ} {A : Type ℓ} where
  -- what `or_unavailable` returns, its body returned
  pub or_unavailable-ok :
      (message : String) (m : Action World A) (w : World) (a : A)
      → (or_unavailable message m w).0 ≡ ok a
      → ((m w).0 ≡ ok a) × ((or_unavailable message m w).1 ≡ (m w).1)
  or_unavailable-ok message m w a h = go (m w).0 refl h
    where
      go :
          (r : Result A)
          → (m w).0 ≡ r
          → (or_unavailable message m w).0 ≡ ok a
          → ((m w).0 ≡ ok a) × ((or_unavailable message m w).1 ≡ (m w).1)
      go (ok b) e h = (e ∙ (rw (e, or_unavailable, catch) at h), rw (e, or_unavailable, catch) refl)
      go (err x) e h = absurd (
          let h' : err (persistence_unavailable message) ≡ ok a =
            rw (e, or_unavailable, catch) at h in
          cc)
