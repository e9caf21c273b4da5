-- ===== src/Processing/Collected.antt =====
-- src/alert2ir/application/processing.py: the result of a collected operation, as the `try` block
-- of `_poll_submitted` builds it.
use alert2ir.Prelude.{String, Option, none, some, not, ◌==◌, string_equality}
use alert2ir.Python.Result.{Result, ok, err, value_error, raise_if, ◌>>=◌, ◌>>◌}
use alert2ir.Core.Workflow.{InvestigationRequest}
use alert2ir.Backends.Base.{InvestigationResult}
use alert2ir.Application.Orchestrator.{OrchestrationResult, result_post_init, construct}
use alert2ir.Application.Record.{ProcessingRecord, record_decision, record_incident}

-- raise ValueError("durable processing plan is incomplete"), or the value
abbrev pub planned_value {ℓ} : {A : Type ℓ} → Option A → Result A
planned_value none = err (value_error "durable processing plan is incomplete")
planned_value (some a) = ok a

unfoldable pub build_result :
    ProcessingRecord
    → String
    → InvestigationRequest
    → InvestigationResult
    → Result OrchestrationResult
build_result current backend_name request collected = do
  raise_if (not (collected.backend == backend_name))
      "backend result identity does not match its plan"
  decision ← planned_value (record_decision current)
  incident ← planned_value (record_incident current)
  construct result_post_init (record {
    decision = decision;
    incident = some incident;
    investigation_request = some request;
    investigation_result = some collected;
  })

-- the whole `try` block: an exception of the backend, or the result
abbrev pub collect_outcome :
    ProcessingRecord
    → String
    → InvestigationRequest
    → Result InvestigationResult
    → Result OrchestrationResult
collect_outcome current backend_name request outcome =
    outcome >>= build_result current backend_name request
