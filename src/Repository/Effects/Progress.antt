-- ===== src/Repository/Effects/Progress.antt =====
-- What the operations on an attempt under way do to the repository.
use alert2ir.Prelude.{subst, sym, not, some, nat_equality, String, Option, ◌≡◌, refl, true, arith}
use alert2ir.Python.Action.{lift, pure, ◌>>=◌, ◌>>◌}
use alert2ir.Python.DateTime.{DateTime}
use alert2ir.Python.Dict.{get}
use alert2ir.Core.Workflow.{is_investigate}
use alert2ir.Backends.Base.{Uuid}
use alert2ir.Application.Orchestrator.{OrchestrationResult, construct}
use alert2ir.Application.States.{
  ProcessingState, ExecutionAttemptState, processing_transition_allowed,
}
use alert2ir.Application.Record.{ProcessingRecord, record_post_init}
use alert2ir.Application.Attempt.{ExecutionAttempt, attempt_post_init}
use alert2ir.Repository.Store.{Repository, write_attempt, save_attempt, save_record}
use alert2ir.Repository.Progress.{
  with_attempt, claim_writes, submitted_writes, poll_writes, complete_writes,
  claim_attempt_for_submission, mark_attempt_submitted, record_poll, complete_processing,
  claimed_attempt, moved_record, submitted_attempt, polled_attempt, polled_record,
  completed_attempt, completed_record,
}
use alert2ir.Repository.Rules.{with_attempt-rule, construct-rule, raise_if-rule}
use alert2ir.Repository.Change.{
  AttemptWrite, Change, unchanged, advances, updates, RecordStep, AttemptStep,
}
use alert2ir.Repository.Invariant.{Inv}

claim-step :
    (a : ExecutionAttempt) (now : DateTime)
    → a.state ≡ ExecutionAttemptState.planned
    → AttemptStep a (claimed_attempt a now)
claim-step a now e = ground arith

moved-step :
    (r : ProcessingRecord) (state : ProcessingState) (now : DateTime)
    → processing_transition_allowed r.state state ≡ true
    → RecordStep r (moved_record r state now)
unfolding processing_transition_allowed
moved-step r state now e = ground arith

submit-step :
    (a : ExecutionAttempt) (external : String) (now : DateTime)
    → a.state ≡ ExecutionAttemptState.submitting
    → AttemptStep a (submitted_attempt a external now)
submit-step a external now e = ground arith

poll-step :
    (a : ExecutionAttempt) (remote : String) (category detail : Option String) (now : DateTime)
    → a.state ≡ ExecutionAttemptState.submitted
    → AttemptStep a (polled_attempt a remote category detail now)
poll-step a remote category detail now e = ground arith

polled_record-step :
    (r : ProcessingRecord) (category detail : Option String) (now : DateTime)
    → r.state ≡ ProcessingState.submitted
    → RecordStep r (polled_record r category detail now)
polled_record-step r category detail now e = ground arith

complete-step :
    (a : ExecutionAttempt) (now : DateTime)
    → a.state ≡ ExecutionAttemptState.submitted
    → AttemptStep a (completed_attempt a now)
complete-step a now e = ground arith

completed_record-step :
    (r : ProcessingRecord) (result : OrchestrationResult) (now : DateTime)
    → r.state ≡ ProcessingState.submitted
    → RecordStep r (completed_record r result now)
unfolding processing_transition_allowed
completed_record-step r result now e = ground arith

move_allowed :
    (r : ProcessingRecord) (x y : ProcessingState)
    → r.state ≡ x
    → processing_transition_allowed x y ≡ true
    → processing_transition_allowed r.state y ≡ true
move_allowed r x y e h = rw e h

module _ (s : Repository) (inv : Inv s) where
  record_key :
      (j : Uuid) (c : ProcessingRecord)
      → get s.records j ≡ some c
      → get s.records c.processing_id ≡ some c
  record_key j c found =
      subst (λ i. get s.records i ≡ some c) (sym ((inv.records j c found).own_id)) found

  -- The attempt is written, then the record; an exception between the two leaves the first write.
  pub attempt_first-Change {ℓ} :
      {B : Type ℓ} (k : Uuid) (a a' : ExecutionAttempt) (c c' : ProcessingRecord)
      (answer : ExecutionAttempt → ProcessingRecord → Option B)
      → get s.attempts k ≡ some a
      → get s.records a.processing_id ≡ some c
      → AttemptStep a a'
      → RecordStep c c'
      → Change s
          ((lift (construct attempt_post_init a') >>= λ x.
              save_attempt k x
              >> (lift (construct record_post_init c') >>= λ r.
                  save_record c.processing_id r >> pure (answer x r)))
            s).1
  attempt_first-Change k a a' c c' answer found found_record step step' =
      construct-rule (λ out. Change s out.1) s attempt_post_init a' _ (λ _. unchanged refl)
        λ valid.
          let write : AttemptWrite s k a a' = record {
            found = found;
            step = step;
            valid = valid;
          } in
          construct-rule (λ out. Change s out.1) (write_attempt s k a') record_post_init c' _
            (λ _. advances k a a' write refl)
            λ valid'.
              updates c.processing_id k c c' a a'
                (record {
                  found = record_key a.processing_id c found_record;
                  step = step';
                  valid = valid';
                })
                write refl

  pub claim-Change : (k : Uuid) (now : DateTime) → Change s (claim_attempt_for_submission k now s).1
  unfolding claim_attempt_for_submission processing_transition_allowed
  claim-Change k now =
      with_attempt-rule (λ out. Change s out.1) s k ExecutionAttemptState.planned
        ProcessingState.planned (claim_writes k now) (λ _ _. unchanged refl)
        λ a c found in_state found_record in_state'.
          attempt_first-Change k a (claimed_attempt a now) c
            (moved_record c ProcessingState.submitting now) (λ x r. some x) found found_record
            (claim-step a now in_state)
            (moved-step c ProcessingState.submitting now
              (move_allowed c ProcessingState.planned ProcessingState.submitting in_state' refl))

  pub submitted-Change :
      (k : Uuid) (external : String) (now : DateTime)
      → Change s (mark_attempt_submitted k external now s).1
  unfolding mark_attempt_submitted processing_transition_allowed
  submitted-Change k external now =
      with_attempt-rule (λ out. Change s out.1) s k ExecutionAttemptState.submitting
        ProcessingState.submitting (submitted_writes k external now) (λ _ _. unchanged refl)
        λ a c found in_state found_record in_state'.
          attempt_first-Change k a (submitted_attempt a external now) c
            (moved_record c ProcessingState.submitted now) (λ x r. some x) found found_record
            (submit-step a external now in_state)
            (moved-step c ProcessingState.submitted now
              (move_allowed c ProcessingState.submitting ProcessingState.submitted in_state' refl))

  pub poll-Change :
      (k : Uuid) (remote : String) (category detail : Option String) (now : DateTime)
      → Change s (record_poll k remote category detail now s).1
  unfolding record_poll
  poll-Change k remote category detail now =
      with_attempt-rule (λ out. Change s out.1) s k ExecutionAttemptState.submitted
        ProcessingState.submitted (poll_writes k remote category detail now) (λ _ _. unchanged refl)
        λ a c found in_state found_record in_state'.
          attempt_first-Change k a (polled_attempt a remote category detail now) c
            (polled_record c category detail now) (λ x r. some x) found found_record
            (poll-step a remote category detail now in_state)
            (polled_record-step c category detail now in_state')

  pub complete-Change :
      (k : Uuid) (result : OrchestrationResult) (now : DateTime)
      → Change s (complete_processing k result now s).1
  unfolding complete_processing
  complete-Change k result now =
      raise_if-rule (λ out. Change s out.1) s (not (is_investigate result.decision.outcome))
        "attempt completion requires an investigate result"
        (with_attempt k ExecutionAttemptState.submitted ProcessingState.submitted
          (complete_writes k result now))
        (λ _. unchanged refl)
        λ _.
          with_attempt-rule (λ out. Change s out.1) s k ExecutionAttemptState.submitted
            ProcessingState.submitted (complete_writes k result now) (λ _ _. unchanged refl)
            λ a c found in_state found_record in_state'.
              construct-rule (λ out. Change s out.1) s attempt_post_init (completed_attempt a now) _
                (λ _. unchanged refl)
                λ valid.
                  construct-rule (λ out. Change s out.1) s record_post_init
                    (completed_record c result now) _ (λ _. unchanged refl)
                    λ valid'.
                      updates c.processing_id k c (completed_record c result now) a
                        (completed_attempt a now)
                        (record {
                          found = record_key a.processing_id c found_record;
                          step = completed_record-step c result now in_state';
                          valid = valid';
                        })
                        (record {
                          found = found;
                          step = complete-step a now in_state;
                          valid = valid;
                        })
                        refl
