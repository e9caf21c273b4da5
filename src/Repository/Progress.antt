-- ===== src/Repository/Progress.antt =====
-- src/alert2ir/persistence/memory.py: the operations on an attempt that is under way. Where the
-- source writes the attempt before it builds the new record, so does the model: an exception of
-- the record's checks then leaves the attempt written.
use alert2ir.Prelude.{String, Option, none, some, not, ◌==◌, nat_equality, if◌then◌else◌}
use alert2ir.Python.Result.{raise_if}
use alert2ir.Python.DateTime.{DateTime}
use alert2ir.Python.Dict.{get}
use alert2ir.Python.Action.{Action, pure, lift, gets, ◌>>=◌, ◌>>◌}
use alert2ir.Core.Workflow.{is_investigate}
use alert2ir.Backends.Base.{Uuid}
use alert2ir.Application.Orchestrator.{OrchestrationResult, construct}
use alert2ir.Application.States.{
  ProcessingState, ExecutionAttemptState, processing_state_equality, attempt_state_equality,
}
use alert2ir.Application.Record.{ProcessingRecord, record_post_init}
use alert2ir.Application.Attempt.{ExecutionAttempt, attempt_post_init}
use alert2ir.Repository.Store.{
  when_found, Repository, having, save_record, save_attempt, load_record,
}

-- The common shape of the operations on an attempt: the attempt and its record must both be in
-- the given states; otherwise the answer is None.
abbrev pub with_attempt {ℓ} :
    {A : Type ℓ}
    → Uuid
    → ExecutionAttemptState
    → ProcessingState
    → (ExecutionAttempt → ProcessingRecord → Action Repository (Option A))
    → Action Repository (Option A)
with_attempt attempt_id attempt_state state body = do
  found ← gets (λ s. get s.attempts attempt_id)
  when_found (having (λ a. a.state == attempt_state) found) λ attempt. do
    current ← load_record attempt.processing_id
    if current.state == state then body attempt current else pure none

-- replace(attempt, state=SUBMITTING, started_at=now)
abbrev pub claimed_attempt : ExecutionAttempt → DateTime → ExecutionAttempt
claimed_attempt attempt now = record attempt {
  state = ExecutionAttemptState.submitting;
  started_at = some now;
}

-- replace(record, state=…, updated_at=now)
abbrev pub moved_record : ProcessingRecord → ProcessingState → DateTime → ProcessingRecord
moved_record current state now = record current { state = state; updated_at = now }

-- the writes of `claim_attempt_for_submission`, for an attempt and a record in the right states
unfoldable pub claim_writes :
    Uuid
    → DateTime
    → ExecutionAttempt
    → ProcessingRecord
    → Action Repository (Option ExecutionAttempt)
claim_writes attempt_id now attempt current = do
  claimed ← lift (construct attempt_post_init (claimed_attempt attempt now))
  save_attempt attempt_id claimed
  updated ← lift (construct record_post_init (moved_record current ProcessingState.submitting now))
  save_record current.processing_id updated
  pure (some claimed)

unfoldable pub claim_attempt_for_submission :
    Uuid → DateTime → Action Repository (Option ExecutionAttempt)
unfolding claim_writes
claim_attempt_for_submission attempt_id now =
    with_attempt attempt_id ExecutionAttemptState.planned ProcessingState.planned
      (claim_writes attempt_id now)

-- replace(attempt, state=SUBMITTED, …)
abbrev pub submitted_attempt : ExecutionAttempt → String → DateTime → ExecutionAttempt
submitted_attempt attempt external now = record attempt {
  state = ExecutionAttemptState.submitted;
  external_operation_id = some external;
  submitted_at = some now;
}

-- the writes of `mark_attempt_submitted`, for an attempt and a record in the right states
unfoldable pub submitted_writes :
    Uuid
    → String
    → DateTime
    → ExecutionAttempt
    → ProcessingRecord
    → Action Repository (Option ExecutionAttempt)
submitted_writes attempt_id external now attempt current = do
  submitted ← lift (construct attempt_post_init (submitted_attempt attempt external now))
  save_attempt attempt_id submitted
  updated ← lift (construct record_post_init (moved_record current ProcessingState.submitted now))
  save_record current.processing_id updated
  pure (some submitted)

unfoldable pub mark_attempt_submitted :
    Uuid → String → DateTime → Action Repository (Option ExecutionAttempt)
unfolding submitted_writes
mark_attempt_submitted attempt_id external now =
    with_attempt attempt_id ExecutionAttemptState.submitting ProcessingState.submitting
      (submitted_writes attempt_id external now)

abbrev pub polled_attempt :
    ExecutionAttempt → String → Option String → Option String → DateTime → ExecutionAttempt
polled_attempt attempt remote category detail now = record attempt {
  last_polled_at = some now;
  last_remote_state = some remote;
  error_category = category;
  error_detail = detail;
}

abbrev pub polled_record :
    ProcessingRecord → Option String → Option String → DateTime → ProcessingRecord
polled_record current category detail now = record current {
  updated_at = now;
  error_category = category;
  error_detail = detail;
}

-- the writes of `record_poll`, for an attempt and a record in the right states
unfoldable pub poll_writes :
    Uuid
    → String
    → Option String
    → Option String
    → DateTime
    → ExecutionAttempt
    → ProcessingRecord
    → Action Repository (Option ExecutionAttempt)
poll_writes attempt_id remote category detail now attempt current = do
  polled ← lift (construct attempt_post_init (polled_attempt attempt remote category detail now))
  save_attempt attempt_id polled
  updated ← lift (construct record_post_init (polled_record current category detail now))
  save_record current.processing_id updated
  pure (some polled)

unfoldable pub record_poll :
    Uuid
    → String
    → Option String
    → Option String
    → DateTime
    → Action Repository (Option ExecutionAttempt)
unfolding poll_writes
record_poll attempt_id remote category detail now =
    with_attempt attempt_id ExecutionAttemptState.submitted ProcessingState.submitted
      (poll_writes attempt_id remote category detail now)

abbrev pub completed_attempt : ExecutionAttempt → DateTime → ExecutionAttempt
completed_attempt attempt now = record attempt {
  state = ExecutionAttemptState.completed;
  completed_at = some now;
  last_polled_at = some now;
  last_remote_state = some "succeeded";
  error_category = none;
  error_detail = none;
}

abbrev pub completed_record : ProcessingRecord → OrchestrationResult → DateTime → ProcessingRecord
completed_record current result now = record current {
  state = ProcessingState.completed;
  updated_at = now;
  completed_at = some now;
  completed_result = some result;
  error_category = none;
  error_detail = none;
}

-- the writes of `complete_processing`, for an attempt and a record in the right states
unfoldable pub complete_writes :
    Uuid
    → OrchestrationResult
    → DateTime
    → ExecutionAttempt
    → ProcessingRecord
    → Action Repository (Option ProcessingRecord)
complete_writes attempt_id result now attempt current = do
  finished ← lift (construct attempt_post_init (completed_attempt attempt now))
  updated ← lift (construct record_post_init (completed_record current result now))
  save_attempt attempt_id finished
  save_record current.processing_id updated
  pure (some updated)

unfoldable pub complete_processing :
    Uuid → OrchestrationResult → DateTime → Action Repository (Option ProcessingRecord)
unfolding complete_writes
complete_processing attempt_id result now = do
  lift (
      raise_if (not (is_investigate result.decision.outcome))
        "attempt completion requires an investigate result")
  with_attempt attempt_id ExecutionAttemptState.submitted ProcessingState.submitted
      (complete_writes attempt_id result now)
