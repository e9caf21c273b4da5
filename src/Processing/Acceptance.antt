-- ===== src/Processing/Acceptance.antt =====
-- src/alert2ir/application/processing.py: `_advance_accepted` and `_process`, from the acceptance
-- of an alert to its plan.
use alert2ir.Prelude.{
  ℕ, String, Option, none, some, List, [], ◌∷◌, Bool, true, false, not, ◌||◌, ◌==◌, nat_equality,
  if◌then◌else◌, Eq, eq_of_discrete, ℕ_discrete, string_equality,
}
use alert2ir.Python.Result.{
  Exc, Result, ok, err, unsupported_capabilities, ambiguous_backend, runtime_error,
  idempotency_conflict,
}
use alert2ir.Python.Optional.{option_equality}
use alert2ir.Python.Action.{Action, pure, raise, lift, ◌>>=◌}
use alert2ir.Core.Models.{CanonicalAlert}
use alert2ir.Core.Workflow.{
  DecisionOutcome, investigate, no_action, Decision, Incident, InvestigationRequest,
}
use alert2ir.Backends.Base.{InvestigationBackend}
use alert2ir.Application.Orchestrator.{PlanningResult, result_post_init, construct, plan}
use alert2ir.Application.Fingerprint.{canonical_fingerprint_document, fingerprint_version}
use alert2ir.Application.States.{ProcessingState}
use alert2ir.Application.Record.{ProcessingRecord}
use alert2ir.Repository.Acceptance.{accept_processing}
use alert2ir.Repository.Plans.{PlannedProcessing, store_no_action_result, store_plan}
use alert2ir.Repository.Failure.{fail_processing}
use alert2ir.Processing.World.{
  Processor, World, reading, in_repository, reread, stored_or, or_unavailable,
}
use alert2ir.Processing.Submission.{submit}

-- equality of two digests
unfoldable pub digest_discrete : Discrete (List ℕ)
digest_discrete = hlevel ℕ_discrete

instance abbrev pub digest_equality : Eq (List ℕ)
digest_equality = eq_of_discrete digest_discrete

module _ (p : Processor) (current : ProcessingRecord) where
  -- _fail_without_attempt
  unfoldable pub fail_without_attempt : String → String → Action World (Option ProcessingRecord)
  fail_without_attempt category detail = or_unavailable "planning failure could not be persisted" (
      in_repository p (
        fail_processing current.processing_id (ProcessingState.accepted ∷ []) category detail none))

  -- `if failed is None: return self._reread(…)`, and otherwise the RuntimeError
  unfoldable pub planning_failed : Option ProcessingRecord → Action World ProcessingRecord
  planning_failed none = reread p current.processing_id
  planning_failed (some failed) = raise (runtime_error "processing planning failed")

  -- the handlers of an exception of the plan
  unfoldable pub handle_plan_error : Exc → Action World ProcessingRecord
  unfolding fail_without_attempt planning_failed
  handle_plan_error (unsupported_capabilities required) = do
    failed ←
        fail_without_attempt "unsupported_capability"
          "no configured backend supports the required capability"
    raise (unsupported_capabilities required)
  handle_plan_error (ambiguous_backend required eligible) = do
    failed ← fail_without_attempt "backend_selection_error" "backend selection was ambiguous"
    raise (ambiguous_backend required eligible)
  handle_plan_error e = do
    failed ← fail_without_attempt "backend_selection_error" "processing planning failed"
    planning_failed failed

  unfoldable pub finish_no_action : Decision → Action World ProcessingRecord
  finish_no_action decision = do
    result ← lift (
        construct result_post_init (record {
          decision = decision;
          incident = none;
          investigation_request = none;
          investigation_result = none;
        }))
    completed ←
        or_unavailable "no-action completion could not be persisted"
          (in_repository p (store_no_action_result current.processing_id result))
    stored_or completed (reread p current.processing_id)

  unfoldable pub submit_planned :
      Option ℕ → Option PlannedProcessing → Action World ProcessingRecord
  submit_planned deadline none = reread p current.processing_id
  submit_planned deadline (some planned) = submit p planned.planned_record planned.attempt deadline

  unfoldable pub store_and_submit :
      Decision
      → Incident
      → InvestigationRequest
      → InvestigationBackend
      → Option ℕ
      → Action World ProcessingRecord
  unfolding submit_planned
  store_and_submit decision incident request backend deadline = do
    attempt_id ← reading p.attempt_id_factory
    operation_key ← reading p.operation_key_factory
    planned ← or_unavailable "execution plan could not be persisted" (
        in_repository p (
          store_plan current.processing_id decision incident request backend.name attempt_id
            operation_key))
    submit_planned deadline planned

  unfoldable pub investigate_plan :
      Decision
      → Option Incident
      → Option InvestigationRequest
      → Option InvestigationBackend
      → Option ℕ
      → Action World ProcessingRecord
  unfolding store_and_submit
  investigate_plan decision (some incident) (some request) (some backend) deadline =
      store_and_submit decision incident request backend deadline
  investigate_plan decision _ _ _ deadline =
      raise (runtime_error "investigation plan is incomplete")

  -- the branches on the decision of a plan
  unfoldable pub follow_outcome :
      DecisionOutcome → PlanningResult → Option ℕ → Action World ProcessingRecord
  unfolding finish_no_action investigate_plan
  follow_outcome no_action planned deadline = finish_no_action planned.decision
  follow_outcome investigate planned deadline =
      investigate_plan planned.decision planned.incident planned.investigation_request
        planned.backend deadline

  unfoldable pub follow_plan : Result PlanningResult → Option ℕ → Action World ProcessingRecord
  unfolding follow_outcome handle_plan_error
  follow_plan (err e) deadline = handle_plan_error e
  follow_plan (ok planned) deadline = follow_outcome planned.decision.outcome planned deadline

  -- _advance_accepted
  unfoldable pub advance_accepted : Option ℕ → Action World ProcessingRecord
  unfolding follow_plan
  advance_accepted deadline = follow_plan (plan p.orchestrator current.alert) deadline

pub record ProcessingOutcome : Type 0 where
  pub outcome_record : ProcessingRecord
  pub replayed : Bool

-- fingerprint_canonical_alert(alert), the digest
abbrev pub fingerprint : Processor → CanonicalAlert → List ℕ
fingerprint p alert = p.digest (canonical_fingerprint_document alert)

-- record.fingerprint_version != … or record.request_fingerprint != …
unfoldable pub is_conflict : ProcessingRecord → List ℕ → Bool
unfolding digest_discrete
is_conflict r digest =
    not (r.fingerprint_version == some fingerprint_version)
    || not (r.request_fingerprint == some digest)

-- what follows an acceptance that was not in conflict
unfoldable pub follow_acceptance :
    Processor → ProcessingRecord → Bool → Action World ProcessingOutcome
unfolding advance_accepted
follow_acceptance p accepted false = pure (record { outcome_record = accepted; replayed = true })
follow_acceptance p accepted true = do
  advanced ← advance_accepted p accepted none
  pure (record { outcome_record = advanced; replayed = false })

-- _process, which `process` wraps in telemetry
unfoldable pub process : Processor → CanonicalAlert → String → Action World ProcessingOutcome
unfolding is_conflict follow_acceptance
process p alert idempotency_key = do
  processing_id ← reading p.processing_id_factory
  acceptance ← or_unavailable "durable processing acceptance failed" (
      in_repository p (
        accept_processing processing_id alert alert.source.source idempotency_key
          fingerprint_version (fingerprint p alert)))
  if is_conflict acceptance.accepted_record (fingerprint p alert)
      then raise (idempotency_conflict acceptance.accepted_record.processing_id)
      else follow_acceptance p acceptance.accepted_record acceptance.created
