-- ===== src/Repository/Failure.antt =====
-- src/alert2ir/persistence/memory.py: the failure of a processing, and the state that waits for
-- recovery.
use alert2ir.Prelude.{String, Option, none, some, List, ◌&&◌, ◌==◌, nat_equality, if◌then◌else◌}
use alert2ir.Python.DateTime.{DateTime}
use alert2ir.Python.Dict.{get}
use alert2ir.Python.Action.{Action, pure, lift, gets, ◌>>=◌, ◌>>◌}
use alert2ir.Python.Optional.{option_equality}
use alert2ir.Backends.Base.{Uuid}
use alert2ir.Application.Orchestrator.{construct}
use alert2ir.Application.States.{
  ProcessingState, ExecutionAttemptState, processing_state_equality, attempt_state_equality, member,
  active_attempt_states,
}
use alert2ir.Application.Record.{ProcessingRecord, record_post_init}
use alert2ir.Application.Attempt.{ExecutionAttempt, attempt_post_init}
use alert2ir.Repository.Store.{
  when_found, Repository, having, save_record, save_attempt, load_record,
}

abbrev pub failed_record : ProcessingRecord → String → String → DateTime → ProcessingRecord
failed_record current category detail now = record current {
  state = ProcessingState.failed;
  updated_at = now;
  failed_at = some now;
  error_category = some category;
  error_detail = some detail;
}

abbrev pub failed_attempt : ExecutionAttempt → String → String → DateTime → ExecutionAttempt
failed_attempt attempt category detail now = record attempt {
  state = ExecutionAttemptState.failed;
  failed_at = some now;
  error_category = some category;
  error_detail = some detail;
}

abbrev pub found_attempt :
    Uuid → Option ExecutionAttempt → Option (Option (Uuid × ExecutionAttempt))
found_attempt attempt_id none = none
found_attempt attempt_id (some attempt) = some (some (attempt_id, attempt))

-- The attempt that `fail_processing` is to fail too, if one is named. The outer `none` is the
-- early `return None`.
abbrev pub failing_attempt :
    Repository → Uuid → Option Uuid → Option (Option (Uuid × ExecutionAttempt))
failing_attempt s processing_id none = some none
failing_attempt s processing_id (some attempt_id) = found_attempt attempt_id (
    having (λ a. a.processing_id == processing_id && member a.state active_attempt_states)
      (get s.attempts attempt_id))

-- if attempt is not None: self._attempts[attempt_id] = replace(attempt, state=FAILED, …)
abbrev pub fail_attempt :
    Option (Uuid × ExecutionAttempt) → String → String → DateTime → Action Repository (Unit {0})
fail_attempt none category detail now = pure tt
fail_attempt (some (attempt_id, attempt)) category detail now = do
  failed ← lift (construct attempt_post_init (failed_attempt attempt category detail now))
  save_attempt attempt_id failed

unfoldable pub fail_processing :
    Uuid
    → List ProcessingState
    → String
    → String
    → Option Uuid
    → DateTime
    → Action Repository (Option ProcessingRecord)
fail_processing processing_id expected category detail attempt_id now = do
  found ← gets (λ s. get s.records processing_id)
  when_found (having (λ r. member r.state expected) found) λ current. do
    target ← gets (λ s. failing_attempt s processing_id attempt_id)
    when_found target λ attempt. do
      failed ← lift (construct record_post_init (failed_record current category detail now))
      save_record processing_id failed
      fail_attempt attempt category detail now
      pure (some failed)

-- the state of the record that goes with the attempt's
abbrev pub expected_processing : ExecutionAttemptState → Option ProcessingState
expected_processing ExecutionAttemptState.submitting = some ProcessingState.submitting
expected_processing ExecutionAttemptState.submitted = some ProcessingState.submitted
expected_processing _ = none

abbrev pub recovery_attempt : ExecutionAttempt → String → String → ExecutionAttempt
recovery_attempt attempt category detail = record attempt {
  state = ExecutionAttemptState.recovery_required;
  error_category = some category;
  error_detail = some detail;
}

abbrev pub recovery_record : ProcessingRecord → String → String → DateTime → ProcessingRecord
recovery_record current category detail now = record current {
  state = ProcessingState.recovery_required;
  updated_at = now;
  error_category = some category;
  error_detail = some detail;
}

unfoldable pub mark_recovery_required :
    Uuid
    → List ExecutionAttemptState
    → String
    → String
    → DateTime
    → Action Repository (Option ProcessingRecord)
mark_recovery_required attempt_id expected category detail now = do
  found ← gets (λ s. get s.attempts attempt_id)
  when_found (having (λ a. member a.state expected) found) λ attempt. do
    current ← load_record attempt.processing_id
    if some current.state == expected_processing attempt.state
        then (do
          waiting ← lift (construct attempt_post_init (recovery_attempt attempt category detail))
          save_attempt attempt_id waiting
          recovery ← lift (construct record_post_init (recovery_record current category detail now))
          save_record current.processing_id recovery
          pure (some recovery))
        else pure none
