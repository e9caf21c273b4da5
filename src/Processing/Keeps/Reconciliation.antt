-- ===== src/Processing/Keeps/Reconciliation.antt =====
-- `reconcile_once` keeps the invariant.
use alert2ir.Prelude.{ℕ, Option, none, some, List, [], ◌∷◌, refl, ◌≡◌, nat_equality}
use alert2ir.Application.States.{ProcessingState}
use alert2ir.Application.Record.{ProcessingRecord}
use alert2ir.Application.Attempt.{ExecutionAttempt}
use alert2ir.Backends.Base.{Uuid}
use alert2ir.Python.Dict.{get}
use alert2ir.Python.Action.{pure, or_key_error, ◌>>=◌}
use alert2ir.Repository.Store.{Repository}
use alert2ir.Python.DateTime.{DateTime}
use alert2ir.Repository.Acceptance.{get_attempt_for_processing}
use alert2ir.Repository.Reconcilable.{find_reconcilable}
use alert2ir.Repository.Change.{unchanged}
use alert2ir.Processing.World.{Processor, remaining, expired}
use alert2ir.Processing.Reconciliation.{
  ReconciliationReport, resume_planned, resume_submitting, resume_submitted, advance, examine, pass,
  reconcile_once,
}
use alert2ir.Processing.Rules.{Keeps, Changes, Keeps-bind, Keeps-if, Keeps-pure, Keeps-remaining}
use alert2ir.Processing.Keeps.Operations.{operation_rules}
use alert2ir.Processing.Keeps.Polling.{Keeps-poll_submitted}
use alert2ir.Processing.Keeps.Submission.{Keeps-submit}
use alert2ir.Processing.Keeps.Acceptance.{Keeps-advance_accepted}

attempt_of-same : (k : Uuid) (s : Repository) → (get_attempt_for_processing k s).1 ≡ s
unfolding get_attempt_for_processing
attempt_of-same k s = go (get s.attempt_by_processing k) refl
  where
    go :
        (o : Option Uuid)
        → get s.attempt_by_processing k ≡ o
        → (get_attempt_for_processing k s).1 ≡ s
    go none e = rw e refl
    go (some a) e = rw e (load (get s.attempts a))
      where
        load :
            (o : Option ExecutionAttempt)
            → ((or_key_error o >>= λ attempt. pure (some attempt)) s).1 ≡ s
        load none = refl
        load (some x) = refl

attempt_of-Changes : (k : Uuid) → Changes (λ now. get_attempt_for_processing k)
attempt_of-Changes k = record { from = λ now s inv. unchanged (attempt_of-same k s) }

find-Changes :
    (limit : ℕ) (before : DateTime) → Changes (λ now s. (find_reconcilable limit before s, s))
find-Changes limit before = record { from = λ now s inv. unchanged refl }

module _ (p : Processor) (deadline : ℕ) where
  Keeps-resume_planned :
      (current : ProcessingRecord) (o : Option ExecutionAttempt)
      → Keeps (resume_planned p deadline current o)
  unfolding resume_planned
  Keeps-resume_planned current none = search operation_rules
  Keeps-resume_planned current (some a) = Keeps-submit p current a (some deadline)

  Keeps-resume_submitting :
      (current : ProcessingRecord) (o : Option ExecutionAttempt)
      → Keeps (resume_submitting p deadline current o)
  unfolding resume_submitting
  Keeps-resume_submitting current none = search operation_rules
  Keeps-resume_submitting current (some a) = search operation_rules

  Keeps-resume_submitted :
      (current : ProcessingRecord) (o : Option ExecutionAttempt)
      → Keeps (resume_submitted p deadline current o)
  unfolding resume_submitted
  Keeps-resume_submitted current none = search operation_rules
  Keeps-resume_submitted current (some a) = Keeps-poll_submitted p current a (some deadline)

  ruleset resume_rules = (
    operation_rules, attempt_of-Changes, Keeps-resume_planned, Keeps-resume_submitting,
    Keeps-resume_submitted, Keeps-advance_accepted,
  )

  Keeps-advance :
      (state : ProcessingState) (current : ProcessingRecord)
      → Keeps (advance p deadline state current)
  unfolding advance
  Keeps-advance ProcessingState.accepted current = Keeps-advance_accepted p current (some deadline)
  Keeps-advance ProcessingState.planned current = search resume_rules
  Keeps-advance ProcessingState.submitting current = search resume_rules
  Keeps-advance ProcessingState.submitted current = search resume_rules
  Keeps-advance _ current = Keeps-pure current

  Keeps-examine :
      (current : ProcessingRecord) (c : ReconciliationReport) → Keeps (examine p deadline current c)
  unfolding examine
  Keeps-examine current c = search (resume_rules, Keeps-advance)

  Keeps-pass :
      (rs : List ProcessingRecord) (c : ReconciliationReport) → Keeps (pass p deadline rs c)
  unfolding pass
  Keeps-pass [] c = Keeps-pure c
  Keeps-pass (current ∷ rest) c =
      Keeps-bind (remaining p (some deadline)) _ (Keeps-remaining p (some deadline)) λ before.
        Keeps-if (expired before) _ _ (Keeps-pure _) (
          Keeps-bind (examine p deadline current c) _ (Keeps-examine current c) λ c'.
            Keeps-bind (remaining p (some deadline)) _ (Keeps-remaining p (some deadline))
              λ after. Keeps-if (expired after) _ _ (Keeps-pure _) (Keeps-pass rest c'))

pub Keeps-reconcile_once :
    (p : Processor) (limit max_seconds stale_after : ℕ)
    → Keeps (reconcile_once p limit max_seconds stale_after)
unfolding reconcile_once
Keeps-reconcile_once p limit max_seconds stale_after =
    search (operation_rules, find-Changes, Keeps-pass) depth 10
