-- ===== src/Processing/Idempotency.antt =====
-- `process` under an idempotency key that is already bound.
use alert2ir.Prelude.{
  inl, inr, Bool-cases, suc, String, some, ◌≡◌, true, refl, if◌then◌else◌, nat_equality,
  string_equality,
}
use alert2ir.Python.Result.{Result, ok, err, idempotency_conflict}
use alert2ir.Python.Dict.{get, pair_equality}
use alert2ir.Core.Models.{CanonicalAlert}
use alert2ir.Backends.Base.{Uuid}
use alert2ir.Application.Fingerprint.{fingerprint_version}
use alert2ir.Application.Record.{ProcessingRecord}
use alert2ir.Repository.Acceptance.{is_valid_key}
use alert2ir.Repository.Replays.{accept_bound}
use alert2ir.Processing.World.{Processor, World, in_repository, or_unavailable, catch}
use alert2ir.Processing.Acceptance.{
  process, is_conflict, fingerprint, ProcessingOutcome, follow_acceptance,
}

-- the answer that a bound record gives to an alert
abbrev pub bound_answer : Processor → CanonicalAlert → ProcessingRecord → Result ProcessingOutcome
bound_answer p alert r =
    if is_conflict r (fingerprint p alert)
    then err (idempotency_conflict r.processing_id)
    else ok (record { outcome_record = r; replayed = true })

-- A call of `process` whose valid idempotency key is already bound, under the alert's source, to a
-- stored record never changes the repository and never submits: it answers with the record as
-- replayed when version and digest of the fingerprint agree, and otherwise raises the conflict
-- with the record's processing ID.
pub process_bound :
    (p : Processor) (alert : CanonicalAlert) (key : String) (w : World) (k : Uuid)
    (r : ProcessingRecord)
    → is_valid_key key ≡ true
    → get w.repository.idempotency (alert.source.source, key) ≡ some k
    → get w.repository.records k ≡ some r
    → process p alert key w ≡ (bound_answer p alert r, record w { ordinal = suc (suc w.ordinal) })
unfolding process in_repository
process_bound p alert key w k r valid bound found =
    let accepted =
      accept_bound w.repository (p.processing_id_factory w.ordinal) k alert alert.source.source key
        fingerprint_version (fingerprint p alert) (p.clock (suc w.ordinal)) r refl valid bound
        found in
    elim (Bool-cases (is_conflict r (fingerprint p alert))) [
      | inl e ↦ rw (accepted, or_unavailable, catch, e) (rw accepted refl)
      | inr e ↦ rw (accepted, or_unavailable, catch, e, follow_acceptance) (rw accepted refl)
    ]
