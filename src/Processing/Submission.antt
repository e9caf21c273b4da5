-- ===== src/Processing/Submission.antt =====
-- src/alert2ir/application/processing.py: `_submit`. The attempt is claimed before the backend is
-- called, and the backend is called once for a claim.
use alert2ir.Prelude.{ℕ, String, Option, none, some, [], ◌∷◌, if◌then◌else◌}
use alert2ir.Python.Result.{
  Exc, Result, ok, err, submission_rejected, runtime_error, persistence_unavailable,
}
use alert2ir.Python.Action.{Action, pure, raise, ◌>>=◌}
use alert2ir.Core.Workflow.{InvestigationRequest}
use alert2ir.Backends.Base.{
  InvestigationBackend, SubmittedOperation, Returned, instance_of, other_object,
}
use alert2ir.Application.Orchestrator.{backend_for_name}
use alert2ir.Application.States.{ProcessingState, ExecutionAttemptState}
use alert2ir.Application.Record.{ProcessingRecord, record_request}
use alert2ir.Application.Attempt.{ExecutionAttempt}
use alert2ir.Repository.Progress.{claim_attempt_for_submission, mark_attempt_submitted}
use alert2ir.Repository.Failure.{fail_processing, mark_recovery_required}
use alert2ir.Processing.World.{
  Processor, World, in_repository, calling_submit, remaining, expired, reread, or_reread, catch,
  or_unavailable,
}
use alert2ir.Processing.Polling.{poll_submitted}

module _ (p : Processor) (current : ProcessingRecord) where
  -- mark_recovery_required(…) or self._reread(…), from the submitting state
  unfoldable pub submit_recovery :
      ExecutionAttempt → String → String → Action World ProcessingRecord
  submit_recovery claimed category detail = or_reread p current.processing_id (
      mark_recovery_required claimed.attempt_id (ExecutionAttemptState.submitting ∷ []) category
        detail)

  -- the backend rejected the submission before it created anything
  unfoldable pub submit_rejected : ExecutionAttempt → Action World ProcessingRecord
  submit_rejected claimed = or_reread p current.processing_id (
      fail_processing current.processing_id (ProcessingState.submitting ∷ [])
        "backend_submission_failed" "backend definitively rejected submission"
        (some claimed.attempt_id))

  -- The identity of the operation could not be stored: recovery is marked, whatever comes of it,
  -- and the exception goes on.
  unfoldable pub identity_lost : ExecutionAttempt → Exc → Action World (Option ExecutionAttempt)
  identity_lost claimed e = do
    marked ←
        catch
          (in_repository p (
            mark_recovery_required claimed.attempt_id (ExecutionAttemptState.submitting ∷ [])
              "backend_submission_unknown" "external operation identity could not be persisted"))
          (λ e'. pure none)
    raise (persistence_unavailable "external operation identity could not be persisted")

  -- the poll that follows a stored submission, of the record as it is then
  unfoldable pub follow : Option ℕ → Option ExecutionAttempt → Action World ProcessingRecord
  follow deadline none = reread p current.processing_id
  follow deadline (some submitted) = do
    durable ← reread p current.processing_id
    poll_submitted p durable submitted deadline

  unfoldable pub submit_known :
      ExecutionAttempt → Option ℕ → SubmittedOperation → Action World ProcessingRecord
  unfolding identity_lost follow
  submit_known claimed deadline submitted = do
    durable ←
        catch
          (in_repository p
            (mark_attempt_submitted claimed.attempt_id submitted.external_operation_id))
          (identity_lost claimed)
    follow deadline durable

  -- the branches on the outcome of the submission
  unfoldable pub submitted :
      ExecutionAttempt
      → Option ℕ
      → Result (Returned SubmittedOperation)
      → Action World ProcessingRecord
  unfolding submit_known submit_rejected submit_recovery
  submitted claimed deadline (ok (instance_of operation)) = submit_known claimed deadline operation
  submitted claimed deadline (ok other_object) =
      submit_recovery claimed "backend_submission_unknown" "backend submission outcome is unknown"
  submitted claimed deadline (err submission_rejected) = submit_rejected claimed
  submitted claimed deadline (err e) =
      submit_recovery claimed "backend_submission_unknown" "backend submission outcome is unknown"

  -- what follows a granted claim
  unfoldable pub submit_claimed :
      InvestigationBackend
      → InvestigationRequest
      → Option ℕ
      → ExecutionAttempt
      → Action World ProcessingRecord
  unfolding submitted submit_recovery
  submit_claimed backend request deadline claimed = do
    timeout ← remaining p deadline
    if expired timeout
        then submit_recovery claimed "recovery_required"
            "reconciliation deadline expired before backend submission"
        else (do
          outcome ← calling_submit backend request claimed.operation_key timeout
          submitted claimed deadline outcome)

  unfoldable pub claimed_or_reread :
      InvestigationBackend
      → InvestigationRequest
      → Option ℕ
      → Option ExecutionAttempt
      → Action World ProcessingRecord
  unfolding submit_claimed
  claimed_or_reread backend request deadline none = reread p current.processing_id
  claimed_or_reread backend request deadline (some claimed) =
      submit_claimed backend request deadline claimed

  unfoldable pub claim_and_submit :
      ExecutionAttempt
      → InvestigationBackend
      → InvestigationRequest
      → Option ℕ
      → Action World ProcessingRecord
  unfolding claimed_or_reread
  claim_and_submit attempt backend request deadline = do
    timeout ← remaining p deadline
    if expired timeout then pure current else (do
      claimed ←
          or_unavailable "execution attempt claim could not be persisted"
            (in_repository p (claim_attempt_for_submission attempt.attempt_id))
      claimed_or_reread backend request deadline claimed)

  -- backend_for_name, and failure where no one backend has the name
  unfoldable pub submit_named :
      ExecutionAttempt
      → InvestigationRequest
      → Option ℕ
      → Option InvestigationBackend
      → Action World ProcessingRecord
  unfolding claim_and_submit
  submit_named attempt request deadline none = or_reread p current.processing_id (
      fail_processing current.processing_id (ProcessingState.planned ∷ []) "backend_selection_error"
        "persisted backend is not configured" (some attempt.attempt_id))
  submit_named attempt request deadline (some backend) =
      claim_and_submit attempt backend request deadline

  unfoldable pub submit_known_plan :
      ExecutionAttempt
      → Option InvestigationRequest
      → Option String
      → Option ℕ
      → Action World ProcessingRecord
  unfolding submit_named
  submit_known_plan attempt (some request) (some backend_name) deadline =
      submit_named attempt request deadline (backend_for_name p.orchestrator backend_name)
  submit_known_plan attempt _ _ deadline =
      raise (runtime_error "planned processing is missing execution data")

  -- _submit
  unfoldable pub submit : ExecutionAttempt → Option ℕ → Action World ProcessingRecord
  unfolding submit_known_plan
  submit attempt deadline =
      submit_known_plan attempt (record_request current) current.selected_backend deadline
