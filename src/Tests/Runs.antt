-- ===== src/Tests/Runs.antt =====
-- Whole runs of `process`: what it stores, and what it gives to the backend.
use alert2ir.Core.Models.{CanonicalAlert-discrete}
use alert2ir.Python.DateTime.{DateTime-discrete}
use alert2ir.Core.Workflow.{Decision-discrete}
use alert2ir.Core.Workflow.{DecisionOutcome-discrete}
use alert2ir.Core.Models.{DetectionIdentity-discrete}
use alert2ir.Core.Models.{Entity-discrete}
use alert2ir.Core.Models.{EvidenceReference-discrete}
use alert2ir.Core.Workflow.{Incident-discrete}
use alert2ir.Core.Models.{Severity-discrete}
use alert2ir.Core.Models.{SourceProvenance-discrete}
use alert2ir.Repository.Acceptance.{accept_identity}
use alert2ir.Repository.Acceptance.{accept_processing}
use alert2ir.Application.Attempt.{attempt_post_init}
use alert2ir.Application.Attempt.{attempt_state_check}
use alert2ir.Application.Attempt.{attempt_times_check}
use alert2ir.Application.Orchestrator.{backend_for_name}
use alert2ir.Processing.Submission.{claim_and_submit}
use alert2ir.Repository.Progress.{claim_attempt_for_submission}
use alert2ir.Repository.Progress.{claim_writes}
use alert2ir.Processing.Submission.{claimed_or_reread}
use alert2ir.Repository.Acceptance.{create_processing}
use alert2ir.Core.Workflow.{decide}
use alert2ir.Core.Workflow.{decision_post_init}
use alert2ir.Application.Record.{error_check}
use alert2ir.Processing.Acceptance.{finish_no_action}
use alert2ir.Processing.Submission.{follow}
use alert2ir.Processing.Acceptance.{follow_outcome}
use alert2ir.Python.Dict.{get}
use alert2ir.Repository.Acceptance.{get_processing}
use alert2ir.Application.Record.{identity_check}
use alert2ir.Processing.World.{in_repository}
use alert2ir.Core.Workflow.{incident_post_init}
use alert2ir.Processing.Acceptance.{investigate_plan}
use alert2ir.Backends.Router.{is_subset}
use alert2ir.Repository.Acceptance.{is_valid_key}
use alert2ir.Backends.Router.{keep_if}
use alert2ir.Application.Record.{key_check}
use alert2ir.Repository.Progress.{mark_attempt_submitted}
use alert2ir.Repository.Acceptance.{new_record}
use alert2ir.Repository.Plans.{no_action_write}
use alert2ir.Processing.Polling.{noted_poll}
use alert2ir.Application.Record.{open_plan_check}
use alert2ir.Application.Attempt.{operation_id_check}
use alert2ir.Processing.World.{or_reread}
use alert2ir.Core.Workflow.{outcome_by_severity}
use alert2ir.Application.Orchestrator.{plan}
use alert2ir.Application.Orchestrator.{plan_investigation}
use alert2ir.Application.Orchestrator.{plan_post_init}
use alert2ir.Repository.Plans.{plan_write}
use alert2ir.Repository.Plans.{plan_writes}
use alert2ir.Processing.Polling.{poll_backend}
use alert2ir.Processing.Polling.{poll_known}
use alert2ir.Processing.Polling.{poll_named}
use alert2ir.Processing.Polling.{poll_submitted}
use alert2ir.Repository.Progress.{poll_writes}
use alert2ir.Processing.Polling.{polled}
use alert2ir.Python.Dict.{put}
use alert2ir.Core.Workflow.{reason_for}
use alert2ir.Repository.Progress.{record_poll}
use alert2ir.Application.Record.{record_post_init}
use alert2ir.Application.Record.{record_request}
use alert2ir.Processing.World.{remaining}
use alert2ir.Core.Workflow.{require_all_non_empty}
use alert2ir.Application.Record.{require_aware}
use alert2ir.Application.Record.{require_bounded_error}
use alert2ir.Core.Models.{require_non_empty}
use alert2ir.Processing.World.{reread}
use alert2ir.Application.Orchestrator.{result_post_init}
use alert2ir.Backends.Router.{select}
use alert2ir.Processing.Polling.{settle}
use alert2ir.Application.Record.{source_check}
use alert2ir.Application.Record.{state_check}
use alert2ir.Processing.Acceptance.{store_and_submit}
use alert2ir.Repository.Plans.{store_no_action_result}
use alert2ir.Repository.Plans.{store_plan}
use alert2ir.Prelude.{string_discrete}
use alert2ir.Processing.Submission.{submit}
use alert2ir.Processing.Submission.{submit_claimed}
use alert2ir.Processing.Submission.{submit_known}
use alert2ir.Processing.Submission.{submit_known_plan}
use alert2ir.Processing.Submission.{submit_named}
use alert2ir.Processing.Acceptance.{submit_planned}
use alert2ir.Processing.Submission.{submitted}
use alert2ir.Repository.Progress.{submitted_writes}
use alert2ir.Application.Record.{times_check}
use alert2ir.Prelude.{ℕ, String, Option, none, some, List, [], ◌∷◌, ◌≡◌, refl}
use alert2ir.Python.Result.{Result, ok}
use alert2ir.Application.States.{ProcessingState}
use alert2ir.Processing.World.{World}
use alert2ir.Processing.Acceptance.{
  follow_plan, advance_accepted, follow_acceptance, digest_discrete, is_conflict, process,
  ProcessingOutcome,
}
use alert2ir.Processing.Submissions.{initial}
use alert2ir.Tests.Data.{quiet_alert, loud_alert, processor}

-- the state of the record that a run answers with
abbrev answered_state : Result ProcessingOutcome × World → Option ProcessingState
answered_state (ok o, w) = some o.outcome_record.state
answered_state _ = none

-- A low alert is completed, and a high one is submitted once, under the key of its attempt.
runs :
    (answered_state (process processor quiet_alert "key-1" initial)
      ≡ some ProcessingState.completed)
    × (answered_state (process processor loud_alert "key-1" initial)
        ≡ some ProcessingState.submitted)
    × ((process processor loud_alert "key-1" initial).1.submissions ≡ 3003 ∷ [])
unfolding process is_conflict digest_discrete follow_acceptance advance_accepted follow_plan
    follow_outcome finish_no_action investigate_plan store_and_submit submit_planned submit
    submit_known_plan submit_named claim_and_submit claimed_or_reread submit_claimed submitted
    submit_known follow poll_submitted poll_known poll_named poll_backend polled settle noted_poll
    reread or_reread remaining in_repository get_processing accept_processing accept_identity
    create_processing new_record is_valid_key store_no_action_result no_action_write store_plan
    plan_write plan_writes claim_attempt_for_submission claim_writes mark_attempt_submitted
    submitted_writes record_poll poll_writes record_post_init times_check identity_check key_check
    error_check require_aware require_bounded_error state_check open_plan_check source_check
    attempt_post_init attempt_times_check operation_id_check attempt_state_check get put
    record_request backend_for_name plan plan_investigation plan_post_init incident_post_init decide
    decision_post_init result_post_init outcome_by_severity reason_for require_non_empty
    require_all_non_empty select keep_if is_subset SourceProvenance-discrete CanonicalAlert-discrete
    DetectionIdentity-discrete Entity-discrete Severity-discrete EvidenceReference-discrete
    DateTime-discrete string_discrete Decision-discrete Incident-discrete DecisionOutcome-discrete
    alert2ir.Python.Text.is_blank alert2ir.Prelude.ℕ_discrete mathlib.Core.Bool.xor
    alert2ir.Backends.Router.get
runs = (refl, refl, refl)
