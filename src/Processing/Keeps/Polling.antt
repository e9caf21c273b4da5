-- ===== src/Processing/Keeps/Polling.antt =====
-- `_poll_submitted` keeps the invariant.
use alert2ir.Prelude.{ℕ, String, Option, none, some}
use alert2ir.Python.Result.{Result, ok, err, timeout_error}
use alert2ir.Core.Workflow.{InvestigationRequest}
use alert2ir.Backends.Base.{
  InvestigationBackend, OperationStatus, OperationState, nonterminal, succeeded, failed,
  unrecognised, Returned, instance_of, other_object,
}
use alert2ir.Application.Orchestrator.{OrchestrationResult}
use alert2ir.Application.Record.{ProcessingRecord}
use alert2ir.Application.Attempt.{ExecutionAttempt}
use alert2ir.Processing.World.{Processor}
use alert2ir.Processing.Polling.{
  poll_recovery, noted_poll, finish, collect, succeed, fail_operation, settle, polled, poll_backend,
  poll_named, poll_known, poll_submitted,
}
use alert2ir.Processing.Rules.{Keeps}
use alert2ir.Processing.Keeps.Operations.{operation_rules}

module _ (p : Processor) (current : ProcessingRecord) (attempt : ExecutionAttempt) where
  Keeps-poll_recovery :
      (category detail : String) → Keeps (poll_recovery p current attempt category detail)
  unfolding poll_recovery
  Keeps-poll_recovery category detail = search operation_rules

  Keeps-noted_poll :
      (remote : String) (category detail : Option String)
      → Keeps (noted_poll p current attempt remote category detail)
  unfolding noted_poll
  Keeps-noted_poll remote category detail = search operation_rules

  Keeps-finish : (r : Result OrchestrationResult) → Keeps (finish p current attempt r)
  unfolding finish
  Keeps-finish (ok result) = search operation_rules
  Keeps-finish (err e) = Keeps-poll_recovery _ _

  Keeps-collect :
      (name : String) (b : InvestigationBackend) (q : InvestigationRequest) (external : String)
      → Keeps (collect p current attempt name b q external)
  unfolding collect
  Keeps-collect name b q external = search (operation_rules, Keeps-finish)

  Keeps-succeed :
      (name : String) (b : InvestigationBackend) (q : InvestigationRequest)
      (external remote : String) (deadline : Option ℕ)
      → Keeps (succeed p current attempt name b q external remote deadline)
  unfolding succeed
  Keeps-succeed name b q external remote deadline = search (operation_rules, Keeps-collect)

  Keeps-fail_operation : (remote : String) → Keeps (fail_operation p current attempt remote)
  unfolding fail_operation
  Keeps-fail_operation remote = search operation_rules

  Keeps-settle :
      (name : String) (b : InvestigationBackend) (q : InvestigationRequest) (external : String)
      (deadline : Option ℕ) (state : OperationState) (remote : String)
      → Keeps (settle p current attempt name b q external deadline state remote)
  unfolding settle
  Keeps-settle name b q external deadline nonterminal remote = Keeps-noted_poll _ _ _
  Keeps-settle name b q external deadline failed remote = Keeps-fail_operation _
  Keeps-settle name b q external deadline unrecognised remote = Keeps-poll_recovery _ _
  Keeps-settle name b q external deadline succeeded remote = Keeps-succeed name b q _ _ _

  Keeps-polled :
      (name : String) (b : InvestigationBackend) (q : InvestigationRequest) (external : String)
      (deadline : Option ℕ) (r : Result (Returned OperationStatus))
      → Keeps (polled p current attempt name b q external deadline r)
  unfolding polled
  Keeps-polled name b q external deadline (ok (instance_of status)) =
      Keeps-settle name b q external deadline status.state status.remote_state
  Keeps-polled name b q external deadline (ok other_object) = Keeps-poll_recovery _ _
  Keeps-polled name b q external deadline (err timeout_error) = Keeps-noted_poll _ _ _
  Keeps-polled name b q external deadline (err e) = Keeps-poll_recovery _ _

  Keeps-poll_backend :
      (name : String) (b : InvestigationBackend) (q : InvestigationRequest) (external : String)
      (deadline : Option ℕ)
      → Keeps (poll_backend p current attempt name b q external deadline)
  unfolding poll_backend
  Keeps-poll_backend name b q external deadline = search (operation_rules, Keeps-polled)

  Keeps-poll_named :
      (name : String) (q : InvestigationRequest) (external : String) (deadline : Option ℕ)
      (b : Option InvestigationBackend)
      → Keeps (poll_named p current attempt name q external deadline b)
  unfolding poll_named
  Keeps-poll_named name q external deadline none = Keeps-poll_recovery _ _
  Keeps-poll_named name q external deadline (some b) = Keeps-poll_backend name b q _ _

  Keeps-poll_known :
      (q : Option InvestigationRequest) (name external : Option String) (deadline : Option ℕ)
      → Keeps (poll_known p current attempt q name external deadline)
  unfolding poll_known
  Keeps-poll_known (some q) (some name) (some external) deadline =
      Keeps-poll_named name q external deadline _
  Keeps-poll_known _ _ _ deadline = Keeps-poll_recovery _ _

  pub Keeps-poll_submitted :
      (deadline : Option ℕ) → Keeps (poll_submitted p current attempt deadline)
  unfolding poll_submitted
  Keeps-poll_submitted deadline = Keeps-poll_known _ _ _ deadline
