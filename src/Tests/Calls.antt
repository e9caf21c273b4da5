-- ===== src/Tests/Calls.antt =====
-- The results on the processor, the router and the fingerprint, at concrete inputs.
use alert2ir.Core.Models.{CanonicalAlert-discrete}
use alert2ir.Python.DateTime.{DateTime-discrete}
use alert2ir.Core.Models.{DetectionIdentity-discrete}
use alert2ir.Core.Models.{Entity-discrete}
use alert2ir.Core.Models.{EvidenceReference-discrete}
use alert2ir.Core.Workflow.{InvestigationRequest}
use alert2ir.Core.Models.{Severity-discrete}
use alert2ir.Core.Models.{SourceProvenance-discrete}
use alert2ir.Repository.Acceptance.{accept_identity}
use alert2ir.Repository.Acceptance.{accept_processing}
use alert2ir.Repository.Reconcilable.{collect_reconcilable}
use alert2ir.Repository.Acceptance.{create_processing}
use alert2ir.Application.Record.{error_check}
use alert2ir.Repository.Call.{execute}
use alert2ir.Repository.Reconcilable.{find_reconcilable}
use alert2ir.Application.Record.{identity_check}
use alert2ir.Core.Workflow.{
  Decision, investigate, policy_id, decide, decision_post_init, outcome_by_severity, reason_for,
  require_all_non_empty, incident_post_init, Decision-discrete, Incident-discrete,
  DecisionOutcome-discrete,
}
use alert2ir.Core.Models.{require_non_empty}
use alert2ir.Application.Orchestrator.{PlanningResult, plan, plan_investigation, plan_post_init}
use alert2ir.Application.Orchestrator.Plans.{incident_of, Complete, plan-Complete}
use alert2ir.Python.Text.{is_blank}
use alert2ir.Backends.Mock.{MockBackend, backend_of, completed_status, selected_mock}
use alert2ir.Processing.World.{in_repository}
use alert2ir.Application.Record.{key_check}
use alert2ir.Repository.Acceptance.{new_record}
use alert2ir.Application.Record.{open_plan_check}
use alert2ir.Processing.Reconciliation.{pass}
use alert2ir.Python.Dict.{put}
use alert2ir.Application.Record.{record_post_init}
use alert2ir.Application.Record.{require_aware}
use alert2ir.Application.Record.{require_bounded_error}
use alert2ir.Repository.Call.{run}
use alert2ir.Repository.Reconcilable.{sort_records}
use alert2ir.Application.Record.{source_check}
use alert2ir.Application.Record.{state_check}
use alert2ir.Prelude.{none, String, false, string_discrete}
use alert2ir.Application.Record.{times_check}
use alert2ir.Python.Dict.{values}
use alert2ir.Prelude.{false, some, List, [], ◌∷◌, ◌≡◌, refl, true, nat_equality, string_equality}
use alert2ir.Python.Result.{ok}
use alert2ir.Python.Dict.{get, pair_equality}
use alert2ir.Backends.Base.{instance_of, InvestigationResult, Uuid, InvestigationBackend}
use alert2ir.Backends.Router.{is_subset, keep_if, select, supports}
use alert2ir.Backends.Router.Selection.{IsIn, select_unique}
use alert2ir.Application.Fingerprint.Injective.{SameRequest, document-SameRequest}
use alert2ir.Repository.Acceptance.{is_valid_key}
use alert2ir.Repository.Plans.{contains_id}
use alert2ir.Repository.Invariant.{Inv}
use alert2ir.Processing.World.{Processor}
use alert2ir.Processing.Acceptance.{process}
use alert2ir.Processing.Reconciliation.{ReconciliationReport, reconcile_once}
use alert2ir.Processing.Invariant.{Distinct, IsSubmittable}
use alert2ir.Processing.Submissions.{
  Method, processing, reconciling, perform_all, initial, submitted_once, perform_all-Inv,
}
use alert2ir.Processing.Idempotency.{bound_answer, process_bound}
use alert2ir.Processing.Bounds.{Bounded, reconcile_once-Bounded}
use alert2ir.Tests.Data.{
  quiet_alert, loud_alert, backend, request_of, processor, accepted_record, accepted_world,
  quiet_decision,
}

abbrev methods : List (Processor × Method)
methods =
    (processor, processing loud_alert "key-1")
    ∷ (processor, processing loud_alert "key-1")
    ∷ (processor, reconciling 10 60 5)
    ∷ []

submitted_once_example :
    Distinct (perform_all methods initial).submissions
    × ((key : Uuid)
        → contains_id key (perform_all methods initial).submissions ≡ true
        → IsSubmittable key (perform_all methods initial).repository)
submitted_once_example = submitted_once methods

perform_all-Inv_example : Inv (perform_all methods initial).repository
perform_all-Inv_example = perform_all-Inv methods

pub key_found : get accepted_world.repository.idempotency ("splunk", "key-1") ≡ some 7
unfolding run execute accept_processing accept_identity create_processing new_record is_valid_key
    record_post_init times_check identity_check key_check error_check require_aware
    require_bounded_error state_check open_plan_check source_check get put SourceProvenance-discrete
    CanonicalAlert-discrete DetectionIdentity-discrete Entity-discrete Severity-discrete
    EvidenceReference-discrete DateTime-discrete string_discrete mathlib.Core.Bool.xor
key_found = refl

pub record_found : get accepted_world.repository.records 7 ≡ some accepted_record
unfolding run execute accept_processing accept_identity create_processing new_record is_valid_key
    record_post_init times_check identity_check key_check error_check require_aware
    require_bounded_error state_check open_plan_check source_check get put SourceProvenance-discrete
    CanonicalAlert-discrete DetectionIdentity-discrete Entity-discrete Severity-discrete
    EvidenceReference-discrete DateTime-discrete string_discrete mathlib.Core.Bool.xor
record_found = refl

pub key_valid : is_valid_key "key-1" ≡ true
unfolding is_valid_key
key_valid = refl

process_bound_example :
    process processor loud_alert "key-1" accepted_world
    ≡ (bound_answer processor loud_alert accepted_record, record accepted_world { ordinal = 2 })
process_bound_example =
    process_bound processor loud_alert "key-1" accepted_world 7 accepted_record key_valid key_found
      record_found

abbrev report : ReconciliationReport
report = record { examined = 0; advanced = 0; failed = 0; time_limit_reached = false }

pass_returns : (reconcile_once processor 10 60 5 initial).0 ≡ ok report
unfolding reconcile_once find_reconcilable collect_reconcilable sort_records values pass
    in_repository
pass_returns = refl

reconcile_once-Bounded_example : Bounded 10 report
reconcile_once-Bounded_example =
    reconcile_once-Bounded processor 10 60 5 initial report pass_returns

abbrev request : InvestigationRequest
request = request_of (record { alert = loud_alert; decision = quiet_decision })

mock_selected : select (backend ∷ []) request ≡ ok backend
unfolding select keep_if is_subset
mock_selected = refl

select_unique_example :
    IsIn backend (backend ∷ [])
    × (supports request backend ≡ true)
    × ((c : InvestigationBackend) → IsIn c (backend ∷ []) → supports request c ≡ true → c ≡ backend)
select_unique_example = select_unique (backend ∷ []) request backend mock_selected

document-SameRequest_example : SameRequest quiet_alert quiet_alert
document-SameRequest_example = document-SameRequest quiet_alert quiet_alert refl

abbrev loud_decision : Decision
loud_decision = record {
  outcome = investigate;
  policy_id = policy_id;
  reasons = "normalized severity 'high' requires investigation" ∷ [];
  source = loud_alert.source;
}

abbrev loud_plan : PlanningResult
loud_plan = record {
  decision = loud_decision;
  incident = some (incident_of loud_alert loud_decision);
  investigation_request = some (request_of (incident_of loud_alert loud_decision));
  backend = some backend;
}

loud_planned : plan processor.orchestrator loud_alert ≡ ok loud_plan
unfolding plan plan_investigation plan_post_init incident_post_init decide decision_post_init
    outcome_by_severity reason_for require_non_empty require_all_non_empty select keep_if is_subset
    SourceProvenance-discrete CanonicalAlert-discrete DetectionIdentity-discrete Entity-discrete
    Severity-discrete EvidenceReference-discrete DateTime-discrete string_discrete Decision-discrete
    Incident-discrete DecisionOutcome-discrete alert2ir.Python.Text.is_blank
    alert2ir.Prelude.ℕ_discrete
loud_planned = refl

plan-Complete_example :
    (processor.orchestrator.policy loud_alert ≡ ok loud_decision)
    × (loud_plan.decision.source ≡ loud_alert.source)
    × Complete processor.orchestrator loud_alert loud_plan
plan-Complete_example = plan-Complete processor.orchestrator loud_alert loud_plan loud_planned

abbrev mock : MockBackend
mock = record { name = "mock"; capabilities = "endpoint_triage" ∷ [] }

abbrev key_text : Uuid → String
key_text key = "00000000-0000-4000-8000-000000000000"

mock_chosen : select (backend_of key_text mock ∷ []) request ≡ ok (backend_of key_text mock)
unfolding select keep_if is_subset
mock_chosen = refl

id_visible : is_blank "mock:1" ≡ false
unfolding is_blank
id_visible = refl

selected_mock_example :
    ((backend_of key_text mock).poll request "mock:1" none 0 ≡ ok (instance_of completed_status))
    × ((r : InvestigationResult)
        → (backend_of key_text mock).collect_result request "mock:1" 0 ≡ ok r
        → (r.backend ≡ "mock") × (r.completed_capabilities ≡ request.required_capabilities))
selected_mock_example =
    selected_mock (backend_of key_text mock ∷ []) key_text mock request "mock:1" none 0 mock_chosen
      id_visible
