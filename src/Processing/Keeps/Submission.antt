-- ===== src/Processing/Keeps/Submission.antt =====
-- `_submit` keeps the invariant: a key reaches the backend only after its claim was granted.
use alert2ir.Prelude.{
  ◌-◌, if◌then◌else◌, ℕ, suc, String, Option, none, some, ◌≡◌, true, false, Bool,
}
use alert2ir.Python.Result.{Exc, Result, ok, err, submission_rejected}
use alert2ir.Python.Action.{Action, ◌>>=◌}
use alert2ir.Core.Workflow.{InvestigationRequest}
use alert2ir.Backends.Base.{
  Uuid, InvestigationBackend, SubmittedOperation, Returned, instance_of, other_object,
}
use alert2ir.Application.Record.{ProcessingRecord}
use alert2ir.Application.Attempt.{ExecutionAttempt}
use alert2ir.Repository.Progress.{claim_attempt_for_submission}
use alert2ir.Repository.Effects.Progress.{claim-Change}
use alert2ir.Processing.World.{
  Processor, World, in_repository, remaining, expired, or_unavailable, calling_submit,
}
use alert2ir.Processing.Submission.{
  submit_recovery, submit_rejected, identity_lost, follow, submit_known, submitted, submit_claimed,
  claimed_or_reread, claim_and_submit, submit_named, submit_known_plan, submit,
}
use alert2ir.Processing.Invariant.{WorldInv}
use alert2ir.Processing.Rules.{
  Keeps, Changes, Keeps-in_repository, Keeps-or_unavailable, Keeps-bind, Keeps-if, Keeps-pure,
  Keeps-remaining, Keeps-reread,
}
use alert2ir.Processing.Keeps.Operations.{operation_rules}
use alert2ir.Processing.Keeps.Polling.{Keeps-poll_submitted}
use alert2ir.Processing.Keeps.Claiming.{
  Ready, reading-Ready, sent-WorldInv, claim-Ready, from-bind, or_unavailable-ok,
}

module _ (p : Processor) (current : ProcessingRecord) where
  Keeps-submit_recovery :
      (claimed : ExecutionAttempt) (category detail : String)
      → Keeps (submit_recovery p current claimed category detail)
  unfolding submit_recovery
  Keeps-submit_recovery claimed category detail = search operation_rules

  Keeps-submit_rejected : (claimed : ExecutionAttempt) → Keeps (submit_rejected p current claimed)
  unfolding submit_rejected
  Keeps-submit_rejected claimed = search operation_rules

  Keeps-identity_lost :
      (claimed : ExecutionAttempt) (e : Exc) → Keeps (identity_lost p current claimed e)
  unfolding identity_lost
  Keeps-identity_lost claimed e = search operation_rules

  Keeps-follow :
      (deadline : Option ℕ) (o : Option ExecutionAttempt) → Keeps (follow p current deadline o)
  unfolding follow
  Keeps-follow deadline none = search operation_rules
  Keeps-follow deadline (some a) = search (operation_rules, Keeps-poll_submitted)

  Keeps-submit_known :
      (claimed : ExecutionAttempt) (deadline : Option ℕ) (o : SubmittedOperation)
      → Keeps (submit_known p current claimed deadline o)
  unfolding submit_known
  Keeps-submit_known claimed deadline o =
      search (operation_rules, Keeps-identity_lost, Keeps-follow)

  Keeps-submitted :
      (claimed : ExecutionAttempt) (deadline : Option ℕ) (r : Result (Returned SubmittedOperation))
      → Keeps (submitted p current claimed deadline r)
  unfolding submitted
  Keeps-submitted claimed deadline (ok (instance_of o)) = Keeps-submit_known claimed deadline o
  Keeps-submitted claimed deadline (ok other_object) = Keeps-submit_recovery claimed _ _
  Keeps-submitted claimed deadline (err submission_rejected) = Keeps-submit_rejected claimed
  Keeps-submitted claimed deadline (err _) = Keeps-submit_recovery claimed _ _

  module _ (b : InvestigationBackend) (q : InvestigationRequest) where
    after_timeout :
        (claimed : ExecutionAttempt) (deadline timeout : Option ℕ) (late : Bool) (w : World)
        → Ready claimed.operation_key w
        → WorldInv
            ((if late
                then submit_recovery p current claimed "recovery_required"
                    "reconciliation deadline expired before backend submission"
                else (do
                  outcome ← calling_submit b q claimed.operation_key timeout
                  submitted p current claimed deadline outcome))
              w).1
    after_timeout claimed deadline timeout true w r =
        (Keeps-submit_recovery claimed _ _).at w r.world
    after_timeout claimed deadline timeout false w r =
        (Keeps-submitted claimed deadline (b.submit q claimed.operation_key timeout w.ordinal)).at _
          (sent-WorldInv claimed.operation_key w (suc w.ordinal) r)

    submit_claimed-WorldInv :
        (deadline : Option ℕ) (claimed : ExecutionAttempt) (w : World)
        → Ready claimed.operation_key w
        → WorldInv (submit_claimed p current b q deadline claimed w).1
    unfolding submit_claimed remaining
    submit_claimed-WorldInv none claimed w r = after_timeout claimed none none false w r
    submit_claimed-WorldInv (some d) claimed w r =
        after_timeout claimed (some d) (some (d - p.monotonic w.ordinal))
          (expired (some (d - p.monotonic w.ordinal))) _ (reading-Ready _ w (suc w.ordinal) r)

    claim-Changes : (a : Uuid) → Changes (claim_attempt_for_submission a)
    claim-Changes a = record { from = λ now s inv. claim-Change s inv a now }

    abbrev claiming : Uuid → Action World (Option ExecutionAttempt)
    claiming a =
        or_unavailable "execution attempt claim could not be persisted"
          (in_repository p (claim_attempt_for_submission a))

    claimed-WorldInv :
        (a : Uuid) (deadline : Option ℕ) (w : World)
        → WorldInv w
        → (o : Option ExecutionAttempt) → (claiming a w).0 ≡ ok o
        → WorldInv (claimed_or_reread p current b q deadline o (claiming a w).1).1
    unfolding claimed_or_reread in_repository
    claimed-WorldInv a deadline w h none e =
        (Keeps-reread p current.processing_id).at (claiming a w).1
          ((Keeps-or_unavailable _ _ (Keeps-in_repository p _ (claim-Changes a))).at w h)
    claimed-WorldInv a deadline w h (some x) e =
        let (granted, same) =
          or_unavailable-ok "execution attempt claim could not be persisted"
            (in_repository p (claim_attempt_for_submission a)) w (some x) e in
        rw same (
          submit_claimed-WorldInv deadline x _
            (claim-Ready w a (p.clock w.ordinal) (suc w.ordinal) x h granted))

    Keeps-claiming :
        (a : Uuid) (deadline : Option ℕ)
        → Keeps (claiming a >>= claimed_or_reread p current b q deadline)
    Keeps-claiming a deadline = record {
      at = λ w h.
          from-bind (claiming a) (claimed_or_reread p current b q deadline) w
            ((Keeps-or_unavailable _ _ (Keeps-in_repository p _ (claim-Changes a))).at w h)
            (claimed-WorldInv a deadline w h);
    }

    Keeps-claim_and_submit :
        (attempt : ExecutionAttempt) (deadline : Option ℕ)
        → Keeps (claim_and_submit p current attempt b q deadline)
    unfolding claim_and_submit
    Keeps-claim_and_submit attempt deadline =
        Keeps-bind (remaining p deadline) _ (Keeps-remaining p deadline) λ timeout.
          Keeps-if (expired timeout) _ _ (Keeps-pure current)
            (Keeps-claiming attempt.attempt_id deadline)

  Keeps-submit_named :
      (attempt : ExecutionAttempt) (q : InvestigationRequest) (deadline : Option ℕ)
      (b : Option InvestigationBackend)
      → Keeps (submit_named p current attempt q deadline b)
  unfolding submit_named
  Keeps-submit_named attempt q deadline none = search operation_rules
  Keeps-submit_named attempt q deadline (some b) = Keeps-claim_and_submit b q attempt deadline

  Keeps-submit_known_plan :
      (attempt : ExecutionAttempt) (q : Option InvestigationRequest) (name : Option String)
      (deadline : Option ℕ)
      → Keeps (submit_known_plan p current attempt q name deadline)
  unfolding submit_known_plan
  Keeps-submit_known_plan attempt (some q) (some name) deadline =
      Keeps-submit_named attempt q deadline _
  Keeps-submit_known_plan attempt none name deadline = search operation_rules
  Keeps-submit_known_plan attempt (some q) none deadline = search operation_rules

  pub Keeps-submit :
      (attempt : ExecutionAttempt) (deadline : Option ℕ) → Keeps (submit p current attempt deadline)
  unfolding submit
  Keeps-submit attempt deadline = Keeps-submit_known_plan attempt _ _ deadline
