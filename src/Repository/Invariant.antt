-- ===== src/Repository/Invariant.antt =====
-- The invariant of the in-memory repository: its dicts agree with one another, and every stored
-- value has passed its checks.
use alert2ir.Prelude.{
  String, some, ◌≡◌, refl, true, nat_equality, string_equality, arith, inl, inr, ◌∙◌, sym,
}
use alert2ir.Python.Result.{ok}
use alert2ir.Python.Dict.{put-some, put-present, get, put, pair_equality}
use alert2ir.Backends.Base.{Uuid}
use alert2ir.Application.Record.{ProcessingRecord, record_post_init}
use alert2ir.Application.Attempt.{ExecutionAttempt, attempt_post_init}
use alert2ir.Repository.Store.{Repository, write_record, write_attempt, empty}
use alert2ir.Repository.Plans.{contains_id}
use alert2ir.Repository.Change.{RecordWrite, AttemptWrite}

pub record IsRecordOf (s : Repository) (k : Uuid) (r : ProcessingRecord) : Type 0 where
  pub valid : record_post_init r ≡ ok tt
  pub own_id : r.processing_id ≡ k
  pub bound :
      (scope key : String)
      → r.idempotency_scope ≡ some scope
      → r.idempotency_key ≡ some key
      → get s.idempotency (scope, key) ≡ some k

pub record IsAttemptOf (s : Repository) (k : Uuid) (a : ExecutionAttempt) : Type 0 where
  pub valid : attempt_post_init a ≡ ok tt
  pub own_id : a.attempt_id ≡ k
  pub bound : get s.attempt_by_processing a.processing_id ≡ some k
  pub known_key : contains_id a.operation_key s.operation_keys ≡ true

pub record Inv (s : Repository) : Type 0 where
  pub records : (k : Uuid) (r : ProcessingRecord) → get s.records k ≡ some r → IsRecordOf s k r
  pub attempts : (k : Uuid) (a : ExecutionAttempt) → get s.attempts k ≡ some a → IsAttemptOf s k a
  pub bound_record :
      (scope key : String) (k : Uuid)
      → get s.idempotency (scope, key) ≡ some k
      → (r : ProcessingRecord) × (get s.records k ≡ some r)
        × (r.idempotency_scope ≡ some scope)
        × (r.idempotency_key ≡ some key)
  pub bound_attempt :
      (k a : Uuid)
      → get s.attempt_by_processing k ≡ some a
      → (x : ExecutionAttempt) × (get s.attempts a ≡ some x) × (x.processing_id ≡ k)
  pub attempt_record :
      (k a : Uuid)
      → get s.attempt_by_processing k ≡ some a
      → (r : ProcessingRecord) × (get s.records k ≡ some r)
  pub distinct_keys :
      (a b : Uuid) (x y : ExecutionAttempt)
      → get s.attempts a ≡ some x
      → get s.attempts b ≡ some y
      → x.operation_key ≡ y.operation_key
      → a ≡ b

pub Inv-empty : Inv empty
unfolding get
Inv-empty = record {
  records = λ k r h. absurd (cc);
  attempts = λ k a h. absurd (cc);
  bound_record = λ scope key k h. absurd (cc);
  bound_attempt = λ k a h. absurd (cc);
  attempt_record = λ k a h. absurd (cc);
  distinct_keys = λ a b x y h. absurd (cc);
}

-- What a write elsewhere leaves in place.
pub kept_record :
    (s t : Repository) (k : Uuid) (r : ProcessingRecord)
    → IsRecordOf s k r
    → t.idempotency ≡ s.idempotency
    → IsRecordOf t k r
kept_record s t k r old e = record {
  valid = old.valid;
  own_id = old.own_id;
  bound = λ scope key p q. rw e (old.bound scope key p q);
}

pub kept_attempt :
    (s t : Repository) (k : Uuid) (a : ExecutionAttempt)
    → IsAttemptOf s k a
    → t.attempt_by_processing ≡ s.attempt_by_processing
    → t.operation_keys ≡ s.operation_keys
    → IsAttemptOf t k a
kept_attempt s t k a old e f = record {
  valid = old.valid;
  own_id = old.own_id;
  bound = rw e old.bound;
  known_key = rw f old.known_key;
}

module _ {s : Repository} {k : Uuid} {r r' : ProcessingRecord} (inv : Inv s)
    (write : RecordWrite s k r r') where
  moved_record-IsRecordOf : IsRecordOf (write_record s k r') k r'
  moved_record-IsRecordOf =
      let old = inv.records k r write.found in
      let step = write.step in
      record {
        valid = write.valid;
        own_id = step.same_id ∙ old.own_id;
        bound =
            λ scope key p q. old.bound scope key (sym step.same_scope ∙ p) (sym step.same_key ∙ q);
      }

  pub write_record-Inv : Inv (write_record s k r')
  write_record-Inv = record {
    records = λ j x h. elim (put-some s.records k j r' x h) [
      | inl (e, f) ↦ rw (e, f) moved_record-IsRecordOf
      | inr old ↦ kept_record s (write_record s k r') j x (inv.records j x old) refl
    ];
    attempts = λ j a h. kept_attempt s (write_record s k r') j a (inv.attempts j a h) refl refl;
    bound_record = λ scope key j h.
        let (x, found, p, q) = inv.bound_record scope key j h in
        let (u, now, which) = put-present s.records k j r' x found in
        (u, now, ground (arith, write.found, write.step), ground (arith, write.found, write.step));
    bound_attempt = inv.bound_attempt;
    attempt_record = λ j a h.
        let (x, found) = inv.attempt_record j a h in
        let (u, now, which) = put-present s.records k j r' x found in (u, now);
    distinct_keys = inv.distinct_keys;
  }

module _ {s : Repository} {k : Uuid} {a a' : ExecutionAttempt} (inv : Inv s)
    (write : AttemptWrite s k a a') where
  moved_attempt-IsAttemptOf : IsAttemptOf (write_attempt s k a') k a'
  moved_attempt-IsAttemptOf =
      let old = inv.attempts k a write.found in
      let step = write.step in
      record {
        valid = write.valid;
        own_id = step.same_id ∙ old.own_id;
        bound = rw step.same_processing old.bound;
        known_key = rw step.same_key old.known_key;
      }

  -- the attempt that stood at a key before the write, with the key that it keeps
  written_before :
      (j : Uuid) (x : ExecutionAttempt)
      → get (put s.attempts k a') j ≡ some x
      → (y : ExecutionAttempt) × (get s.attempts j ≡ some y)
        × (y.operation_key ≡ x.operation_key)
        × (y.processing_id ≡ x.processing_id)
  written_before j x h = elim (put-some s.attempts k j a' x h) [
    | inl (e, f) ↦
        (a, rw e write.found, rw f (sym write.step.same_key), rw f (sym write.step.same_processing))
    | inr old ↦ (x, old, refl, refl)
  ]

  pub write_attempt-Inv : Inv (write_attempt s k a')
  write_attempt-Inv = record {
    records = λ j x h. kept_record s (write_attempt s k a') j x (inv.records j x h) refl;
    attempts = λ j x h. elim (put-some s.attempts k j a' x h) [
      | inl (e, f) ↦ rw (e, f) moved_attempt-IsAttemptOf
      | inr old ↦ kept_attempt s (write_attempt s k a') j x (inv.attempts j x old) refl refl
    ];
    bound_record = inv.bound_record;
    bound_attempt = λ j b h.
        let (x, found, p) = inv.bound_attempt j b h in
        let (u, now, which) = put-present s.attempts k b a' x found in
        (u, now, ground (arith, write.found, write.step));
    attempt_record = inv.attempt_record;
    distinct_keys = λ b c x y p q e.
        let (x', px, kx, _x) = written_before b x p in
        let (y', py, ky, _y) = written_before c y q in
        inv.distinct_keys b c x' y' px py (kx ∙ e ∙ sym ky);
  }
