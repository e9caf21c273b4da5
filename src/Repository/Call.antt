-- ===== src/Repository/Call.antt =====
-- The operations of the repository that write, as data: a history is a list of calls, each with
-- the clock's reading, in the order in which the lock admitted them. The callers may be any number
-- of threads.
use alert2ir.Prelude.{ℕ, String, Option, List, [], ◌∷◌}
use alert2ir.Python.DateTime.{DateTime}
use alert2ir.Core.Models.{CanonicalAlert}
use alert2ir.Core.Workflow.{Decision, Incident, InvestigationRequest}
use alert2ir.Backends.Base.{Uuid}
use alert2ir.Application.Orchestrator.{OrchestrationResult}
use alert2ir.Application.States.{ProcessingState, ExecutionAttemptState}
use alert2ir.Repository.Store.{Repository}
use alert2ir.Repository.Acceptance.{accept_processing}
use alert2ir.Repository.Plans.{store_no_action_result, store_plan}
use alert2ir.Repository.Progress.{
  claim_attempt_for_submission, mark_attempt_submitted, record_poll, complete_processing,
}
use alert2ir.Repository.Failure.{fail_processing, mark_recovery_required}

pub data Call : Type 0 where
  accept : Uuid → CanonicalAlert → String → String → ℕ → List ℕ → Call
  no_action_result : Uuid → OrchestrationResult → Call
  plan : Uuid → Decision → Incident → InvestigationRequest → String → Uuid → Uuid → Call
  claim : Uuid → Call
  mark_submitted : Uuid → String → Call
  poll : Uuid → String → Option String → Option String → Call
  complete : Uuid → OrchestrationResult → Call
  fail : Uuid → List ProcessingState → String → String → Option Uuid → Call
  recovery : Uuid → List ExecutionAttemptState → String → String → Call

-- the state that a call leaves, whether it returns or raises
unfoldable pub execute : Call → DateTime → Repository → Repository
execute (accept k alert scope key version digest) now s =
    (accept_processing k alert scope key version digest now s).1
execute (no_action_result k result) now s = (store_no_action_result k result now s).1
execute (plan k decision incident request backend a key) now s =
    (store_plan k decision incident request backend a key now s).1
execute (claim a) now s = (claim_attempt_for_submission a now s).1
execute (mark_submitted a external) now s = (mark_attempt_submitted a external now s).1
execute (poll a remote category detail) now s = (record_poll a remote category detail now s).1
execute (complete a result) now s = (complete_processing a result now s).1
execute (fail k expected category detail a) now s =
    (fail_processing k expected category detail a now s).1
execute (recovery a expected category detail) now s =
    (mark_recovery_required a expected category detail now s).1

unfoldable pub run : List (Call × DateTime) → Repository → Repository
run [] s = s
run ((call, now) ∷ calls) s = run calls (execute call now s)
