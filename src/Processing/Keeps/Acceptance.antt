-- ===== src/Processing/Keeps/Acceptance.antt =====
-- `_advance_accepted` and `process` keep the invariant.
use alert2ir.Prelude.{ℕ, String, Option, none, some, true, false, Bool}
use alert2ir.Python.Result.{Exc, Result, ok, err, unsupported_capabilities, ambiguous_backend}
use alert2ir.Core.Models.{CanonicalAlert}
use alert2ir.Core.Workflow.{
  DecisionOutcome, investigate, no_action, Decision, Incident, InvestigationRequest,
}
use alert2ir.Backends.Base.{InvestigationBackend}
use alert2ir.Application.Orchestrator.{PlanningResult, plan}
use alert2ir.Application.Record.{ProcessingRecord}
use alert2ir.Repository.Plans.{PlannedProcessing}
use alert2ir.Processing.World.{Processor}
use alert2ir.Processing.Acceptance.{
  fail_without_attempt, planning_failed, handle_plan_error, finish_no_action, submit_planned,
  store_and_submit, investigate_plan, follow_outcome, follow_plan, advance_accepted,
  follow_acceptance, process,
}
use alert2ir.Processing.Rules.{Keeps}
use alert2ir.Processing.Keeps.Operations.{operation_rules}
use alert2ir.Processing.Keeps.Submission.{Keeps-submit}

module _ (p : Processor) (current : ProcessingRecord) where
  Keeps-fail_without_attempt :
      (category detail : String) → Keeps (fail_without_attempt p current category detail)
  unfolding fail_without_attempt
  Keeps-fail_without_attempt category detail = search operation_rules

  Keeps-planning_failed : (o : Option ProcessingRecord) → Keeps (planning_failed p current o)
  unfolding planning_failed
  Keeps-planning_failed none = search operation_rules
  Keeps-planning_failed (some r) = search operation_rules

  Keeps-handle_plan_error : (e : Exc) → Keeps (handle_plan_error p current e)
  unfolding handle_plan_error
  Keeps-handle_plan_error (unsupported_capabilities required) =
      search (operation_rules, Keeps-fail_without_attempt)
  Keeps-handle_plan_error (ambiguous_backend required eligible) =
      search (operation_rules, Keeps-fail_without_attempt)
  Keeps-handle_plan_error _ =
      search (operation_rules, Keeps-fail_without_attempt, Keeps-planning_failed)

  Keeps-finish_no_action : (d : Decision) → Keeps (finish_no_action p current d)
  unfolding finish_no_action
  Keeps-finish_no_action d = search operation_rules

  Keeps-submit_planned :
      (deadline : Option ℕ) (o : Option PlannedProcessing)
      → Keeps (submit_planned p current deadline o)
  unfolding submit_planned
  Keeps-submit_planned deadline none = search operation_rules
  Keeps-submit_planned deadline (some planned) = Keeps-submit p _ _ deadline

  Keeps-store_and_submit :
      (d : Decision) (i : Incident) (q : InvestigationRequest) (b : InvestigationBackend)
      (deadline : Option ℕ)
      → Keeps (store_and_submit p current d i q b deadline)
  unfolding store_and_submit
  Keeps-store_and_submit d i q b deadline = search (operation_rules, Keeps-submit_planned) depth 10

  Keeps-investigate_plan :
      (d : Decision) (i : Option Incident) (q : Option InvestigationRequest)
      (b : Option InvestigationBackend) (deadline : Option ℕ)
      → Keeps (investigate_plan p current d i q b deadline)
  unfolding investigate_plan
  Keeps-investigate_plan d (some i) (some q) (some b) deadline =
      Keeps-store_and_submit d i q b deadline
  Keeps-investigate_plan d none q b deadline = search operation_rules
  Keeps-investigate_plan d (some i) none b deadline = search operation_rules
  Keeps-investigate_plan d (some i) (some q) none deadline = search operation_rules

  Keeps-follow_outcome :
      (o : DecisionOutcome) (planned : PlanningResult) (deadline : Option ℕ)
      → Keeps (follow_outcome p current o planned deadline)
  unfolding follow_outcome
  Keeps-follow_outcome no_action planned deadline = Keeps-finish_no_action planned.decision
  Keeps-follow_outcome investigate planned deadline =
      Keeps-investigate_plan planned.decision planned.incident planned.investigation_request
        planned.backend deadline

  Keeps-follow_plan :
      (r : Result PlanningResult) (deadline : Option ℕ) → Keeps (follow_plan p current r deadline)
  unfolding follow_plan
  Keeps-follow_plan (err e) deadline = Keeps-handle_plan_error e
  Keeps-follow_plan (ok planned) deadline =
      Keeps-follow_outcome planned.decision.outcome planned deadline

  pub Keeps-advance_accepted : (deadline : Option ℕ) → Keeps (advance_accepted p current deadline)
  unfolding advance_accepted
  Keeps-advance_accepted deadline = Keeps-follow_plan (plan p.orchestrator current.alert) deadline

Keeps-follow_acceptance :
    (p : Processor) (accepted : ProcessingRecord) (created : Bool)
    → Keeps (follow_acceptance p accepted created)
unfolding follow_acceptance
Keeps-follow_acceptance p accepted false = search operation_rules
Keeps-follow_acceptance p accepted true = search (operation_rules, Keeps-advance_accepted)

pub Keeps-process :
    (p : Processor) (alert : CanonicalAlert) (key : String) → Keeps (process p alert key)
unfolding process
Keeps-process p alert key = search (operation_rules, Keeps-follow_acceptance)
