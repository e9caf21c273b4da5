-- ===== src/Processing/Keeps/Operations.antt =====
-- The operations of the repository that the processor calls, as changes.
use alert2ir.Prelude.{ℕ, String, Option, List}
use alert2ir.Core.Models.{CanonicalAlert}
use alert2ir.Core.Workflow.{Decision, Incident, InvestigationRequest}
use alert2ir.Backends.Base.{Uuid}
use alert2ir.Application.Orchestrator.{OrchestrationResult}
use alert2ir.Application.States.{ProcessingState, ExecutionAttemptState}
use alert2ir.Repository.Acceptance.{accept_processing}
use alert2ir.Repository.Plans.{store_no_action_result, store_plan}
use alert2ir.Repository.Progress.{mark_attempt_submitted, record_poll, complete_processing}
use alert2ir.Repository.Failure.{fail_processing, mark_recovery_required}
use alert2ir.Repository.Effects.Acceptance.{accept-Change, no_action-Change, plan-Change}
use alert2ir.Repository.Effects.Progress.{submitted-Change, poll-Change, complete-Change}
use alert2ir.Repository.Effects.Failure.{fail-Change, recovery-Change}
use alert2ir.Processing.Rules.{Changes, world_rules}

pub accept-Changes :
    (k : Uuid) (alert : CanonicalAlert) (scope key : String) (version : ℕ) (digest : List ℕ)
    → Changes (accept_processing k alert scope key version digest)
accept-Changes k alert scope key version digest = record {
  from = λ now s inv. accept-Change s k alert scope key version digest now;
}

pub no_action-Changes :
    (k : Uuid) (result : OrchestrationResult) → Changes (store_no_action_result k result)
no_action-Changes k result = record { from = λ now s inv. no_action-Change s k result now }

pub plan-Changes :
    (k : Uuid) (d : Decision) (i : Incident) (q : InvestigationRequest) (b : String) (a key : Uuid)
    → Changes (store_plan k d i q b a key)
plan-Changes k d i q b a key = record { from = λ now s inv. plan-Change s k d i q b a key now }

pub submitted-Changes : (a : Uuid) (external : String) → Changes (mark_attempt_submitted a external)
submitted-Changes a external = record { from = λ now s inv. submitted-Change s inv a external now }

pub poll-Changes :
    (a : Uuid) (remote : String) (category detail : Option String)
    → Changes (record_poll a remote category detail)
poll-Changes a remote category detail = record {
  from = λ now s inv. poll-Change s inv a remote category detail now;
}

pub complete-Changes :
    (a : Uuid) (result : OrchestrationResult) → Changes (complete_processing a result)
complete-Changes a result = record { from = λ now s inv. complete-Change s inv a result now }

pub fail-Changes :
    (k : Uuid) (expected : List ProcessingState) (category detail : String) (a : Option Uuid)
    → Changes (fail_processing k expected category detail a)
fail-Changes k expected category detail a = record {
  from = λ now s inv. fail-Change s inv k expected category detail a now;
}

pub recovery-Changes :
    (a : Uuid) (expected : List ExecutionAttemptState) (category detail : String)
    → Changes (mark_recovery_required a expected category detail)
recovery-Changes a expected category detail = record {
  from = λ now s inv. recovery-Change s inv a expected category detail now;
}

pub ruleset operation_rules = (
  world_rules, accept-Changes, no_action-Changes, plan-Changes, submitted-Changes, poll-Changes,
  complete-Changes, fail-Changes, recovery-Changes,
)
