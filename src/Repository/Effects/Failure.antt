-- ===== src/Repository/Effects/Failure.antt =====
-- What the failure operations do to the repository.
use alert2ir.Prelude.{
  Bool, nat_eq_iff, String, Option, none, some, List, ◌≡◌, refl, true, nat_equality, arith, ◌==◌,
  ◌&&◌,
}
use alert2ir.Python.Result.{Result, ok, err}
use alert2ir.Python.Action.{pure, ◌>>◌}
use alert2ir.Python.DateTime.{DateTime}
use alert2ir.Python.Dict.{get}
use alert2ir.Python.Optional.{option_eq}
use alert2ir.Backends.Base.{Uuid}
use alert2ir.Application.States.{
  ProcessingState, ExecutionAttemptState, processing_state_equality, attempt_state_equality, member,
  active_attempt_states, processing_transition_allowed,
}
use alert2ir.Application.Record.{ProcessingRecord, record_post_init}
use alert2ir.Application.RecordFacts.{completed_has_time, failed_has_no_time}
use alert2ir.Application.Attempt.{ExecutionAttempt, attempt_post_init}
use alert2ir.Repository.Store.{Repository, having, write_record}
use alert2ir.Repository.Failure.{
  failed_record, failed_attempt, failing_attempt, found_attempt, fail_attempt, fail_processing,
  expected_processing, recovery_attempt, recovery_record, mark_recovery_required,
}
use alert2ir.Repository.Rules.{
  construct-rule, when_found-rule, load_record-rule, if-rule, having-some,
}
use alert2ir.Repository.Change.{
  Change, unchanged, moves, updates, RecordStep, AttemptStep, RecordWrite,
}
use alert2ir.Repository.Invariant.{Inv}
use alert2ir.Repository.Effects.Progress.{attempt_first-Change}

failed_record-step :
    (r : ProcessingRecord) (category detail : String) (now : DateTime)
    → record_post_init r ≡ ok tt
    → record_post_init (failed_record r category detail now) ≡ ok tt
    → RecordStep r (failed_record r category detail now)
unfolding processing_transition_allowed
failed_record-step r category detail now valid valid' = ground (
  arith,
  completed_has_time r valid,
  failed_has_no_time (failed_record r category detail now) valid',
)

failed_attempt-step :
    (a : ExecutionAttempt) (category detail : String) (now : DateTime)
    → member a.state active_attempt_states ≡ true
    → AttemptStep a (failed_attempt a category detail now)
failed_attempt-step a category detail now e = ground arith

recovery_attempt-step :
    (a : ExecutionAttempt) (state : ProcessingState) (category detail : String)
    → option_eq (some state) (expected_processing a.state) ≡ true
    → AttemptStep a (recovery_attempt a category detail)
recovery_attempt-step a state category detail e = ground arith

recovery_record-step :
    (r : ProcessingRecord) (state : ExecutionAttemptState) (category detail : String)
    (now : DateTime)
    → option_eq (some r.state) (expected_processing state) ≡ true
    → RecordStep r (recovery_record r category detail now)
unfolding processing_transition_allowed
recovery_record-step r state category detail now e = ground arith

-- the attempt that is to fail too is a stored one of this processing, and active
pub data Target (s : Repository) (k : Uuid) (t : Option (Uuid × ExecutionAttempt)) : Type 0 where
  no_target : t ≡ none → Target s k t
  target :
      (a : Uuid) (x : ExecutionAttempt)
      → t ≡ some (a, x)
      → get s.attempts a ≡ some x
      → x.processing_id ≡ k
      → member x.state active_attempt_states ≡ true
      → Target s k t

pub failing_attempt-Target :
    (s : Repository) (k : Uuid) (a : Option Uuid) (t : Option (Uuid × ExecutionAttempt))
    → failing_attempt s k a ≡ some t
    → Target s k t
failing_attempt-Target s k none t e = no_target (ground arith)
failing_attempt-Target s k (some a) t e = go (having test (get s.attempts a)) refl e
  where
    test : ExecutionAttempt → Bool
    test x = x.processing_id == k && member x.state active_attempt_states

    go :
        (o : Option ExecutionAttempt)
        → having test (get s.attempts a) ≡ o
        → found_attempt a o ≡ some t
        → Target s k t
    go none p q = absurd (cc)
    go (some x) p q =
        let (found, passed) = having-some test (get s.attempts a) p in
        target a x (ground arith) found (ground (arith, passed, nat_eq_iff x.processing_id k))
          (ground (arith, passed))

module _ (s : Repository) (inv : Inv s) where
  fail-Target-Change :
      (k : Uuid) (c : ProcessingRecord) (t : Option (Uuid × ExecutionAttempt))
      (category detail : String) (now : DateTime)
      → Target s k t
      → RecordWrite s k c (failed_record c category detail now)
      → Change s
          ((fail_attempt t category detail now >> pure (some (failed_record c category detail now)))
            (write_record s k (failed_record c category detail now))).1
  fail-Target-Change k c t category detail now (no_target e) write =
      rw e (moves k c (failed_record c category detail now) write refl)
  fail-Target-Change k c t category detail now (target a x e found own active) write =
      rw e (go (attempt_post_init x') refl)
    where
      c' : ProcessingRecord
      c' = failed_record c category detail now

      x' : ExecutionAttempt
      x' = failed_attempt x category detail now

      go :
          (r : Result (Unit {0}))
          → attempt_post_init x' ≡ r
          → Change s
              ((fail_attempt (some (a, x)) category detail now >> pure (some c'))
                (write_record s k c')).1
      go (ok tt) p = rw p (
          updates k a c c' x x' write
            (record {
              found = found;
              step = failed_attempt-step x category detail now active;
              valid = p;
            })
            refl)
      go (err q) p = rw p (moves k c c' write refl)

  pub fail-Change :
      (k : Uuid) (expected : List ProcessingState) (category detail : String) (a : Option Uuid)
      (now : DateTime)
      → Change s (fail_processing k expected category detail a now s).1
  unfolding fail_processing
  fail-Change k expected category detail a now =
      when_found-rule (λ out. Change s out.1) s
        (having (λ r. member r.state expected) (get s.records k)) _ (unchanged refl)
        λ c e.
          when_found-rule (λ out. Change s out.1) s (failing_attempt s k a) _ (unchanged refl)
            λ t e'.
              construct-rule (λ out. Change s out.1) s record_post_init
                (failed_record c category detail now) _ (λ _. unchanged refl)
                λ valid.
                  let found =
                    (having-some (λ (r : ProcessingRecord). member r.state expected)
                      (get s.records k) e).0 in
                  fail-Target-Change k c t category detail now (failing_attempt-Target s k a t e')
                    (record {
                      found = found;
                      step =
                          failed_record-step c category detail now (inv.records k c found).valid
                            valid;
                      valid = valid;
                    })

  pub recovery-Change :
      (k : Uuid) (expected : List ExecutionAttemptState) (category detail : String) (now : DateTime)
      → Change s (mark_recovery_required k expected category detail now s).1
  unfolding mark_recovery_required
  recovery-Change k expected category detail now =
      when_found-rule (λ out. Change s out.1) s
        (having (λ a. member a.state expected) (get s.attempts k)) _ (unchanged refl)
        λ a e.
          load_record-rule (λ out. Change s out.1) s a.processing_id _ (unchanged refl)
            λ c found_record.
              if-rule (λ out. Change s out.1) s
                (option_eq (some c.state) (expected_processing a.state)) _ _
                (λ same.
                  attempt_first-Change s inv k a (recovery_attempt a category detail) c
                    (recovery_record c category detail now) (λ x r. some r)
                    ((having-some (λ (x : ExecutionAttempt). member x.state expected)
                      (get s.attempts k) e).0)
                    found_record (recovery_attempt-step a c.state category detail same)
                    (recovery_record-step c a.state category detail now same))
                (λ _. unchanged refl)
