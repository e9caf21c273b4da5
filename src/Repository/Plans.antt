-- ===== src/Repository/Plans.antt =====
-- src/alert2ir/persistence/memory.py: the operations that follow the decision on an accepted alert,
-- `store_no_action_result` and `store_plan`.
use alert2ir.Prelude.{
  String, Option, none, some, List, [], ◌∷◌, Bool, false, not, ◌&&◌, ◌||◌, ◌==◌, nat_equality,
  string_equality,
}
use alert2ir.Python.Result.{raise_if}
use alert2ir.Python.DateTime.{DateTime}
use alert2ir.Python.Dict.{get, put, pair_equality}
use alert2ir.Python.Action.{Action, pure, lift, gets, modify, ◌>>=◌, ◌>>◌}
use alert2ir.Python.Optional.{is_some}
use alert2ir.Core.Workflow.{Decision, Incident, InvestigationRequest, is_investigate}
use alert2ir.Backends.Base.{Uuid}
use alert2ir.Application.Orchestrator.{OrchestrationResult, construct}
use alert2ir.Application.States.{
  ProcessingState, ExecutionAttemptState, processing_state_equality, attempt_state_equality,
}
use alert2ir.Application.Record.{ProcessingRecord, record_post_init}
use alert2ir.Application.Attempt.{ExecutionAttempt, attempt_post_init}
use alert2ir.Repository.Store.{when_found, Repository, having, save_record, save_attempt}

pub record PlannedProcessing : Type 0 where
  pub planned_record : ProcessingRecord
  pub attempt : ExecutionAttempt

-- replace(current, state=COMPLETED, …) of `store_no_action_result`
abbrev pub no_action_record : ProcessingRecord → OrchestrationResult → DateTime → ProcessingRecord
no_action_record current result now = record current {
  state = ProcessingState.completed;
  updated_at = now;
  completed_result = some result;
  completed_at = some now;
}

-- the part of `store_no_action_result` under the lock
unfoldable pub no_action_write :
    Uuid → OrchestrationResult → DateTime → Action Repository (Option ProcessingRecord)
no_action_write processing_id result now = do
  found ← gets (λ s. get s.records processing_id)
  when_found (having (λ r. r.state == ProcessingState.accepted) found) λ current. do
    updated ← lift (construct record_post_init (no_action_record current result now))
    save_record processing_id updated
    pure (some updated)

unfoldable pub store_no_action_result :
    Uuid → OrchestrationResult → DateTime → Action Repository (Option ProcessingRecord)
unfolding no_action_write
store_no_action_result processing_id result now = do
  lift (
      raise_if (is_investigate result.decision.outcome)
        "no-action completion requires a no_action result")
  no_action_write processing_id result now

abbrev pub contains_id : Uuid → List Uuid → Bool
contains_id k [] = false
contains_id k (x ∷ xs) = k == x || contains_id k xs

-- replace(current, state=PLANNED, …) of `store_plan`
abbrev pub planned_record_of :
    ProcessingRecord
    → Decision
    → Incident
    → InvestigationRequest
    → String
    → DateTime
    → ProcessingRecord
planned_record_of current decision incident request backend now = record current {
  state = ProcessingState.planned;
  updated_at = now;
  planned_decision = some decision;
  planned_incident = some incident;
  planned_request = some request;
  selected_backend = some backend;
}

-- the first attempt of a processing
abbrev pub planned_attempt : Uuid → Uuid → Uuid → String → DateTime → ExecutionAttempt
planned_attempt attempt_id processing_id operation_key backend now = record {
  attempt_id = attempt_id;
  processing_id = processing_id;
  attempt_number = 1;
  operation_key = operation_key;
  backend = backend;
  state = ExecutionAttemptState.planned;
  created_at = now;
  started_at = none;
  submitted_at = none;
  last_polled_at = none;
  completed_at = none;
  failed_at = none;
  external_operation_id = none;
  last_remote_state = none;
  error_category = none;
  error_detail = none;
}

-- self._attempt_by_processing[processing_id] = attempt_id; self._operation_keys.add(operation_key)
abbrev pub bind_attempt : Uuid → Uuid → Uuid → Repository → Repository
bind_attempt processing_id attempt_id operation_key s = record s {
  attempt_by_processing = put s.attempt_by_processing processing_id attempt_id;
  operation_keys = operation_key ∷ s.operation_keys;
}

-- the writes of `store_plan`, for an accepted record with no attempt
unfoldable pub plan_writes :
    Uuid
    → Decision
    → Incident
    → InvestigationRequest
    → String
    → Uuid
    → Uuid
    → DateTime
    → ProcessingRecord
    → Action Repository (Option PlannedProcessing)
plan_writes processing_id decision incident request backend attempt_id operation_key now current =
    do
      taken ←
          gets
            (λ s. is_some (get s.attempts attempt_id) || contains_id operation_key s.operation_keys)
      lift (raise_if taken "attempt or operation key already exists")
      planned ← lift (
          construct record_post_init
            (planned_record_of current decision incident request backend now))
      attempt ← lift (
          construct attempt_post_init
            (planned_attempt attempt_id processing_id operation_key backend now))
      save_record processing_id planned
      save_attempt attempt_id attempt
      modify (bind_attempt processing_id attempt_id operation_key)
      pure (some (record { planned_record = planned; attempt = attempt }))

-- the part of `store_plan` under the lock
unfoldable pub plan_write :
    Uuid
    → Decision
    → Incident
    → InvestigationRequest
    → String
    → Uuid
    → Uuid
    → DateTime
    → Action Repository (Option PlannedProcessing)
unfolding plan_writes
plan_write processing_id decision incident request backend attempt_id operation_key now = do
  found ← gets (λ s. get s.records processing_id)
  bound ← gets (λ s. is_some (get s.attempt_by_processing processing_id))
  when_found (having (λ r. r.state == ProcessingState.accepted && not bound) found)
      (plan_writes processing_id decision incident request backend attempt_id operation_key now)

unfoldable pub store_plan :
    Uuid
    → Decision
    → Incident
    → InvestigationRequest
    → String
    → Uuid
    → Uuid
    → DateTime
    → Action Repository (Option PlannedProcessing)
unfolding plan_write
store_plan processing_id decision incident request backend attempt_id operation_key now = do
  lift (
      raise_if (not (is_investigate decision.outcome))
        "execution plan requires an investigate decision")
  plan_write processing_id decision incident request backend attempt_id operation_key now
