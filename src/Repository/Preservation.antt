-- ===== src/Repository/Preservation.antt =====
-- Every change that an operation may make keeps the invariant.
use alert2ir.Prelude.{
  String, some, ◌≡◌, refl, nat_equality, string_equality, arith, inl, inr, ◌∙◌, sym, ==_refl,
}
use alert2ir.Python.Dict.{get, put, get-put_self, get-put_fresh, put-some, pair_equality}
use alert2ir.Backends.Base.{Uuid}
use alert2ir.Application.Record.{ProcessingRecord}
use alert2ir.Application.Attempt.{ExecutionAttempt}
use alert2ir.Repository.Store.{Repository, write_attempt}
use alert2ir.Repository.Plans.{bind_attempt}
use alert2ir.Repository.Change.{
  Change, unchanged, accepts, moves, advances, updates, plans, Acceptance, Planning,
}
use alert2ir.Repository.Invariant.{
  Inv, IsRecordOf, IsAttemptOf, kept_record, kept_attempt, write_record-Inv, write_attempt-Inv,
}

abbrev accepted_state : Repository → Uuid → String → String → ProcessingRecord → Repository
accepted_state s k scope key r = record s {
  records = put s.records k r;
  idempotency = put s.idempotency (scope, key) k;
}

module _ {s : Repository} {k : Uuid} {scope key : String} {r : ProcessingRecord} (inv : Inv s)
    (new : Acceptance s k scope key r) where
  new-IsRecordOf : IsRecordOf (accepted_state s k scope key r) k r
  new-IsRecordOf = record {
    valid = new.valid;
    own_id = new.own_id;
    bound = λ scope' key' p q.
        ground (arith, p, q, new.own_scope, new.own_key, get-put_self s.idempotency (scope, key) k);
  }

  old-IsRecordOf :
      (j : Uuid) (x : ProcessingRecord)
      → IsRecordOf s j x
      → IsRecordOf (accepted_state s k scope key r) j x
  old-IsRecordOf j x old = record {
    valid = old.valid;
    own_id = old.own_id;
    bound = λ scope' key' p q.
        get-put_fresh s.idempotency (scope, key) (scope', key') k j new.unbound
          (old.bound scope' key' p q);
  }

  accepts-Inv : Inv (accepted_state s k scope key r)
  accepts-Inv = record {
    records = λ j x h. elim (put-some s.records k j r x h) [
      | inl (e, f) ↦ rw (e, f) new-IsRecordOf
      | inr old ↦ old-IsRecordOf j x (inv.records j x old)
    ];
    attempts = λ j a h. kept_attempt s _ j a (inv.attempts j a h) refl refl;
    bound_record = λ scope' key' j h.
        elim (put-some s.idempotency (scope, key) (scope', key') k j h) [
          | inl (e, f) ↦ (
            r,
            rw f (get-put_self s.records k r),
            ground (arith, new.own_scope, e),
            ground (arith, new.own_key, e),
          )
          | inr old ↦
              let (x, found, p, q) = inv.bound_record scope' key' j old in
              (x, get-put_fresh s.records k j r x new.fresh found, p, q)
        ];
    bound_attempt = inv.bound_attempt;
    attempt_record = λ j a h.
        let (x, found) = inv.attempt_record j a h in
        (x, get-put_fresh s.records k j r x new.fresh found);
    distinct_keys = inv.distinct_keys;
  }

abbrev planned_state : Repository → Uuid → Uuid → Uuid → ExecutionAttempt → Repository
planned_state s k a key x = bind_attempt k a key (write_attempt s a x)

module _ {s : Repository} {k a key : Uuid} {x : ExecutionAttempt} (inv : Inv s)
    (new : Planning s k a key x) where
  new-IsAttemptOf : IsAttemptOf (planned_state s k a key x) a x
  new-IsAttemptOf = record {
    valid = new.valid;
    own_id = new.own_id;
    bound = rw new.own_processing (get-put_self s.attempt_by_processing k a);
    known_key = rw new.own_key (ground (arith, ==_refl key));
  }

  old-IsAttemptOf :
      (j : Uuid) (y : ExecutionAttempt)
      → IsAttemptOf s j y
      → IsAttemptOf (planned_state s k a key x) j y
  old-IsAttemptOf j y old = record {
    valid = old.valid;
    own_id = old.own_id;
    bound = get-put_fresh s.attempt_by_processing k y.processing_id a j new.no_attempt old.bound;
    known_key = ground (arith, old.known_key);
  }

  -- a stored attempt does not have the new key
  other_key :
      (j : Uuid) (y : ExecutionAttempt)
      → get s.attempts j ≡ some y
      → y.operation_key ≡ x.operation_key
      → ⊥
  other_key j y h e = ground (arith, (inv.attempts j y h).known_key, new.fresh_key, new.own_key, e)

  new_distinct_keys :
      (b c : Uuid) (y z : ExecutionAttempt)
      → get (put s.attempts a x) b ≡ some y
      → get (put s.attempts a x) c ≡ some z
      → y.operation_key ≡ z.operation_key
      → b ≡ c
  new_distinct_keys b c y z p q e = elim (put-some s.attempts a b x y p) [
    | inl (eb, ey) ↦ elim (put-some s.attempts a c x z q) [
      | inl (ec, ez) ↦ eb ∙ sym ec
      | inr old ↦ absurd (other_key c z old (ground arith))
    ]
    | inr old ↦ elim (put-some s.attempts a c x z q) [
      | inl (ec, ez) ↦ absurd (other_key b y old (ground arith))
      | inr old' ↦ inv.distinct_keys b c y z old old' e
    ]
  ]

  plans-Inv : (r : ProcessingRecord) → get s.records k ≡ some r → Inv (planned_state s k a key x)
  plans-Inv r present = record {
    records = λ j y h. kept_record s _ j y (inv.records j y h) refl;
    attempts = λ j y h. elim (put-some s.attempts a j x y h) [
      | inl (e, f) ↦ rw (e, f) new-IsAttemptOf
      | inr old ↦ old-IsAttemptOf j y (inv.attempts j y old)
    ];
    bound_record = inv.bound_record;
    bound_attempt = λ j b h. elim (put-some s.attempt_by_processing k j a b h) [
      | inl (e, f) ↦ (x, rw f (get-put_self s.attempts a x), new.own_processing ∙ sym e)
      | inr old ↦
          let (y, found, p) = inv.bound_attempt j b old in
          (y, get-put_fresh s.attempts a b x y new.fresh found, p)
    ];
    attempt_record = λ j b h. elim (put-some s.attempt_by_processing k j a b h) [
      | inl (e, f) ↦ (r, rw e present)
      | inr old ↦ inv.attempt_record j b old
    ];
    distinct_keys = new_distinct_keys;
  }

-- a change keeps the invariant
pub Change-Inv : {s t : Repository} → Inv s → Change s t → Inv t
Change-Inv inv (unchanged e) = rw e inv
Change-Inv inv (accepts k scope key r new e) = rw e (accepts-Inv inv new)
Change-Inv inv (moves k r r' w e) = rw e (write_record-Inv inv w)
Change-Inv inv (advances a x x' w e) = rw e (write_attempt-Inv inv w)
Change-Inv inv (updates k a r r' x x' w v e) = rw e (
    write_attempt-Inv (write_record-Inv inv w)
      (record { found = v.found; step = v.step; valid = v.valid }))
Change-Inv {s} inv (plans k a key r r' x w new e) = rw e (
    plans-Inv (write_record-Inv inv w)
      (record {
        no_attempt = new.no_attempt;
        fresh = new.fresh;
        fresh_key = new.fresh_key;
        own_id = new.own_id;
        own_processing = new.own_processing;
        own_key = new.own_key;
        is_planned = new.is_planned;
        valid = new.valid;
      })
      r' (get-put_self s.records k r'))
