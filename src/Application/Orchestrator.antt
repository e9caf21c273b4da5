-- ===== src/Application/Orchestrator.antt =====
-- src/alert2ir/application/orchestrator.py: the pure plan of one alert. The policy and the request
-- factory are parameters, as in the source; `core/workflow.py` and `main.py` give the ones in use.
pub mod Plans
use alert2ir.Prelude.{String, Option, none, some, List, not, ◌||◌, ◌==◌}
use alert2ir.Python.Result.{Result, ok, ◌>>=◌, ◌>>◌, raise_if}
use alert2ir.Core.Models.{CanonicalAlert, source_equality}
use alert2ir.Core.Workflow.{
  Decision, investigate, no_action, Incident, InvestigationRequest, incident_post_init,
  decision_equality, incident_equality,
}
use alert2ir.Backends.Base.{InvestigationBackend, InvestigationResult}
use alert2ir.Backends.Router
use alert2ir.Python.Optional.{is_none, is_some, when_some, option_equality}

pub record OrchestrationResult : Type 0 where
  pub decision : Decision
  pub incident : Option Incident
  pub investigation_request : Option InvestigationRequest
  pub investigation_result : Option InvestigationResult

unfoldable pub result_post_init : OrchestrationResult → Result (Unit {0})
result_post_init r = elim r.decision.outcome [
  | no_action ↦
      raise_if
        (is_some r.incident || is_some r.investigation_request || is_some r.investigation_result)
        "no_action result cannot contain investigation values"
  | investigate ↦ do
    raise_if
        (is_none r.incident || is_none r.investigation_request || is_none r.investigation_result)
        "investigate result requires the complete result graph"
    raise_if (when_some r.incident λ i. not (i.decision == r.decision))
        "incident decision must match orchestration decision"
    raise_if (when_some r.investigation_request λ q. not (some q.incident == r.incident))
        "investigation request incident must match incident"
]

pub record PlanningResult : Type 0 where
  pub decision : Decision
  pub incident : Option Incident
  pub investigation_request : Option InvestigationRequest
  pub backend : Option InvestigationBackend

unfoldable pub plan_post_init : PlanningResult → Result (Unit {0})
plan_post_init r = elim r.decision.outcome [
  | no_action ↦
      raise_if (is_some r.incident || is_some r.investigation_request || is_some r.backend)
        "no_action plan cannot contain investigation values"
  | investigate ↦ do
    raise_if (is_none r.incident || is_none r.investigation_request || is_none r.backend)
        "investigate plan requires request and backend"
    raise_if (when_some r.incident λ i. not (i.decision == r.decision))
        "incident decision must match plan decision"
    raise_if (when_some r.investigation_request λ q. not (some q.incident == r.incident))
        "investigation request incident must match incident"
]

-- `C(…)`: the value, once its `__post_init__` has passed
abbrev pub construct {ℓ} : {A : Type ℓ} → (A → Result (Unit {0})) → A → Result A
construct post_init a = post_init a >> ok a

pub record AlertOrchestrator : Type 0 where
  pub policy : CanonicalAlert → Result Decision
  pub backends : List InvestigationBackend
  pub request_factory : Incident → Result InvestigationRequest

-- the branch of `plan` for an investigate decision
unfoldable pub plan_investigation :
    AlertOrchestrator → CanonicalAlert → Decision → Result PlanningResult
unfolding plan_post_init incident_post_init
plan_investigation o alert decision = do
  incident ← construct incident_post_init (record { alert = alert; decision = decision })
  request ← o.request_factory incident
  raise_if (not (request.incident == incident)) "investigation request incident must match incident"
  backend ← Router.select o.backends request
  construct plan_post_init (record {
    decision = decision;
    incident = some incident;
    investigation_request = some request;
    backend = some backend;
  })

abbrev pub no_action_plan : Decision → PlanningResult
no_action_plan decision = record {
  decision = decision;
  incident = none;
  investigation_request = none;
  backend = none;
}

-- AlertOrchestrator.plan
unfoldable pub plan : AlertOrchestrator → CanonicalAlert → Result PlanningResult
unfolding plan_investigation
plan o alert = do
  decision ← o.policy alert
  raise_if (not (decision.source == alert.source)) "decision source must match alert source"
  elim decision.outcome [
    | no_action ↦ construct plan_post_init (no_action_plan decision)
    | investigate ↦ plan_investigation o alert decision
  ]

-- AlertOrchestrator.backend_for_name
unfoldable pub backend_for_name : AlertOrchestrator → String → Option InvestigationBackend
backend_for_name o name = Router.get o.backends name
