-- ===== src/Tests/Data.antt =====
-- Test data: two alerts, a backend, a processor, and a history of the repository.
use alert2ir.Repository.Store.{empty}
use alert2ir.Prelude.{ℕ, none, some, List, [], ◌∷◌, ◌+◌}
use alert2ir.Python.Result.{ok, err, timeout_error}
use alert2ir.Python.DateTime.{DateTime, aware}
use alert2ir.Core.Models.{CanonicalAlert, low, high}
use alert2ir.Core.Workflow.{Decision, Incident, InvestigationRequest, no_action, policy_id, decide}
use alert2ir.Backends.Base.{InvestigationBackend, instance_of}
use alert2ir.Application.Orchestrator.{OrchestrationResult}
use alert2ir.Application.States.{ProcessingState}
use alert2ir.Application.Record.{ProcessingRecord}
use alert2ir.Repository.Acceptance.{new_record}
use alert2ir.Repository.Call.{run, Call, accept, no_action_result}
use alert2ir.Processing.World.{World, Processor}

abbrev pub quiet_alert : CanonicalAlert
quiet_alert = record {
  detection = record { identifier = "rule-1"; name = none };
  detected_at = aware 5;
  source = record { source = "splunk"; source_alert_id = some "sid-1" };
  entities = record { kind = "host"; value = "web-1" } ∷ [];
  severity = low;
  evidence = [];
}

abbrev pub loud_alert : CanonicalAlert
loud_alert = record quiet_alert { severity = high }

abbrev pub backend : InvestigationBackend
backend = record {
  name = "mock";
  capabilities = "endpoint_triage" ∷ [];
  submit = λ request key timeout n. ok (instance_of (record { external_operation_id = "op" }));
  poll = λ request operation timeout n. err timeout_error;
  collect_result = λ request operation n. err timeout_error;
}

abbrev pub request_of : Incident → InvestigationRequest
request_of incident = record {
  incident = incident;
  desired_outcome = "Collect endpoint triage evidence";
  required_capabilities = "endpoint_triage" ∷ [];
  targets = incident.alert.entities;
}

abbrev pub digest : List ℕ
digest =
    0 ∷ 0 ∷ 0 ∷ 0 ∷ 0 ∷ 0 ∷ 0 ∷ 0 ∷ 0 ∷ 0 ∷ 0 ∷ 0 ∷ 0 ∷ 0 ∷ 0 ∷ 0 ∷ 0 ∷ 0 ∷ 0 ∷ 0 ∷ 0 ∷ 0 ∷ 0 ∷ 0
    ∷ 0 ∷ 0 ∷ 0 ∷ 0 ∷ 0 ∷ 0 ∷ 0 ∷ 7 ∷ []

abbrev pub processor : Processor
processor = record {
  orchestrator = record {
    policy = decide;
    backends = backend ∷ [];
    request_factory = λ incident. ok (request_of incident);
  };
  digest = λ document. digest;
  clock = λ n. aware (100 + n);
  wall_clock = λ n. 100 + n;
  monotonic = λ n. n;
  processing_id_factory = λ n. 1000 + n;
  attempt_id_factory = λ n. 2000 + n;
  operation_key_factory = λ n. 3000 + n;
}

abbrev pub accept_quiet : Call
accept_quiet = accept 7 quiet_alert "splunk" "key-1" 1 digest

abbrev pub accepted_record : ProcessingRecord
accepted_record = new_record 7 quiet_alert "splunk" "key-1" 1 digest (aware 10)

abbrev pub quiet_decision : Decision
quiet_decision = record {
  outcome = no_action;
  policy_id = policy_id;
  reasons = "normalized severity 'low' does not require investigation" ∷ [];
  source = quiet_alert.source;
}

abbrev pub quiet_result : OrchestrationResult
quiet_result = record {
  decision = quiet_decision;
  incident = none;
  investigation_request = none;
  investigation_result = none;
}

abbrev pub accepting : List (Call × DateTime)
accepting = (accept_quiet, aware 10) ∷ []

abbrev pub completing : List (Call × DateTime)
completing = (accept_quiet, aware 10) ∷ (no_action_result 7 quiet_result, aware 12) ∷ []

-- the record that `completing` leaves
abbrev pub completed_record : ProcessingRecord
completed_record = record accepted_record {
  updated_at = aware 12;
  state = ProcessingState.completed;
  completed_result = some quiet_result;
  completed_at = some (aware 12);
}

-- the store that `accepting` leaves, before any reading of the processor
abbrev pub accepted_world : World
accepted_world = record { repository = run accepting empty; ordinal = 0; submissions = [] }
