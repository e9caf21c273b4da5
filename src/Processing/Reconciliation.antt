-- ===== src/Processing/Reconciliation.antt =====
-- src/alert2ir/application/processing.py: `reconcile_once`, one bounded pass over incomplete work.
-- Counts and bounds are natural numbers; times are in nanoseconds, and the age of a stale
-- submission in microseconds, as the wall clock.
use alert2ir.Prelude.{
  ℕ, suc, ◌+◌, ◌-◌, Option, none, some, List, [], ◌∷◌, Bool, true, false, ◌||◌, ltb, nat_eq, ◌==◌,
  if◌then◌else◌,
}
use alert2ir.Python.Result.{Result, ok, err, raise_if}
use alert2ir.Python.DateTime.{aware}
use alert2ir.Python.Action.{Action, pure, lift, ◌>>=◌, ◌>>◌}
use alert2ir.Application.States.{ProcessingState, ExecutionAttemptState, processing_state_equality}
use alert2ir.Application.Record.{ProcessingRecord}
use alert2ir.Application.Attempt.{ExecutionAttempt}
use alert2ir.Repository.Acceptance.{get_attempt_for_processing}
use alert2ir.Repository.Failure.{mark_recovery_required}
use alert2ir.Repository.Reconcilable.{find_reconcilable}
use alert2ir.Processing.World.{
  Processor, World, reading, in_repository, remaining, expired, or_reread, attempting,
}
use alert2ir.Processing.Submission.{submit}
use alert2ir.Processing.Polling.{poll_submitted}
use alert2ir.Processing.Acceptance.{advance_accepted}

pub record ReconciliationReport : Type 0 where
  pub examined : ℕ
  pub advanced : ℕ
  pub failed : ℕ
  pub time_limit_reached : Bool

module _ (p : Processor) (deadline : ℕ) where
  -- the attempt of a record, as the repository has it
  abbrev pub attempt_of : ProcessingRecord → Action World (Option ExecutionAttempt)
  attempt_of current = in_repository p (λ now. get_attempt_for_processing current.processing_id)

  -- `record if attempt is None else …`, in each of three states
  unfoldable pub resume_planned :
      ProcessingRecord → Option ExecutionAttempt → Action World ProcessingRecord
  resume_planned current none = pure current
  resume_planned current (some attempt) = submit p current attempt (some deadline)

  unfoldable pub resume_submitting :
      ProcessingRecord → Option ExecutionAttempt → Action World ProcessingRecord
  resume_submitting current none = pure current
  resume_submitting current (some attempt) = or_reread p current.processing_id (
      mark_recovery_required attempt.attempt_id (ExecutionAttemptState.submitting ∷ [])
        "backend_submission_unknown" "stale submission has no discoverable operation")

  unfoldable pub resume_submitted :
      ProcessingRecord → Option ExecutionAttempt → Action World ProcessingRecord
  resume_submitted current none = pure current
  resume_submitted current (some attempt) = poll_submitted p current attempt (some deadline)

  -- the branches on the state of the record that was found
  unfoldable pub advance : ProcessingState → ProcessingRecord → Action World ProcessingRecord
  unfolding resume_planned resume_submitting resume_submitted
  advance ProcessingState.accepted current = advance_accepted p current (some deadline)
  advance ProcessingState.planned current = do
    attempt ← attempt_of current
    resume_planned current attempt
  advance ProcessingState.submitting current = do
    attempt ← attempt_of current
    resume_submitting current attempt
  advance ProcessingState.submitted current = do
    attempt ← attempt_of current
    resume_submitted current attempt
  advance _ current = pure current

  -- the counts after one record, by the outcome of its `try` block
  unfoldable pub count_outcome :
      ProcessingRecord → Result ProcessingRecord → ReconciliationReport → ReconciliationReport
  count_outcome before (err e) c = record c { failed = suc c.failed }
  count_outcome before (ok after) c =
      if after.state == before.state then c else record c { advanced = suc c.advanced }

  -- one record: its exception, if any, only counts
  unfoldable pub examine :
      ProcessingRecord → ReconciliationReport → Action World ReconciliationReport
  unfolding advance count_outcome
  examine current c = do
    attempt_for_context ← attempt_of current
    outcome ← attempting (advance current.state current)
    pure (count_outcome current outcome (record c { examined = suc c.examined }))

  abbrev stopped : ReconciliationReport → ReconciliationReport
  stopped c = record c { time_limit_reached = true }

  -- the loop, with its two tests of the deadline
  unfoldable pub pass :
      List ProcessingRecord → ReconciliationReport → Action World ReconciliationReport
  unfolding examine
  pass [] c = pure c
  pass (current ∷ rest) c = do
    before ← remaining p (some deadline)
    if expired before then pure (stopped c) else (do
      c' ← examine current c
      after ← remaining p (some deadline)
      if expired after then pure (stopped c') else pass rest c')

abbrev pub no_work : ReconciliationReport
no_work = record { examined = 0; advanced = 0; failed = 0; time_limit_reached = false }

-- reconcile_once
unfoldable pub reconcile_once : Processor → ℕ → ℕ → ℕ → Action World ReconciliationReport
unfolding pass
reconcile_once p limit max_seconds stale_after = do
  lift (raise_if (ltb limit 1 || nat_eq max_seconds 0) "reconciliation bounds must be positive")
  started ← reading p.monotonic
  wall ← reading p.wall_clock
  found ← in_repository p (λ now s. (find_reconcilable limit (aware (wall - stale_after)) s, s))
  pass p (started + max_seconds) found no_work
