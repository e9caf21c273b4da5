-- ===== src/Processing/World.antt =====
-- src/alert2ir/application/processing.py: what a `PersistentAlertProcessor` is built from, and the
-- world that its methods change. Every reading of a clock or a factory, and every call of a
-- backend, has an ordinal, by which the parameters answer. Telemetry is left out: it returns
-- nothing that the methods use.
use alert2ir.Prelude.{ℕ, suc, ◌-◌, String, Option, none, some, List, ◌∷◌, Bool, false, nat_eq}
use alert2ir.Python.Result.{Exc, Result, ok, err, persistence_unavailable}
use alert2ir.Python.DateTime.{DateTime}
use alert2ir.Python.Action.{Action, pure, raise, ◌>>=◌}
use alert2ir.Core.Workflow.{InvestigationRequest}
use alert2ir.Backends.Base.{Uuid, InvestigationBackend, SubmittedOperation, Returned}
use alert2ir.Application.Orchestrator.{AlertOrchestrator}
use alert2ir.Application.Fingerprint.{Json}
use alert2ir.Application.Record.{ProcessingRecord}
use alert2ir.Repository.Store.{Repository}
use alert2ir.Repository.Acceptance.{get_processing}

-- PersistentAlertProcessor.__init__, with the digest of a document and the repository's clock.
-- Times of the monotonic clock are in nanoseconds.
pub record Processor : Type 0 where
  pub orchestrator : AlertOrchestrator
  pub digest : Json → List ℕ
  pub clock : ℕ → DateTime
  pub wall_clock : ℕ → ℕ
  pub monotonic : ℕ → ℕ
  pub processing_id_factory : ℕ → Uuid
  pub attempt_id_factory : ℕ → Uuid
  pub operation_key_factory : ℕ → Uuid

-- the repository, the ordinal of the next reading, and the operation keys that were given to a
-- backend's `submit`, the last one first
pub record World : Type 0 where
  pub repository : Repository
  pub ordinal : ℕ
  pub submissions : List Uuid

-- a reading of a clock or a factory
abbrev pub reading {ℓ} : {A : Type ℓ} → (ℕ → A) → Action World A
reading f w = (ok (f w.ordinal), record w { ordinal = suc w.ordinal })

-- an operation of the repository, at the time of its clock
unfoldable pub in_repository {ℓ} :
    {A : Type ℓ} → Processor → (DateTime → Action Repository A) → Action World A
in_repository p op w =
    let (r, s) = op (p.clock w.ordinal) w.repository in
    (r, record w { repository = s; ordinal = suc w.ordinal })

-- `try: …` with a handler of any exception
abbrev pub catch {ℓ} : {A : Type ℓ} → Action World A → (Exc → Action World A) → Action World A
catch m handle w = elim (m w).0 [ ok a ↦ (ok a, (m w).1) | err e ↦ handle e (m w).1 ]

-- `except Exception as error: raise PersistenceUnavailableError(…) from error`
abbrev pub or_unavailable {ℓ} : {A : Type ℓ} → String → Action World A → Action World A
or_unavailable message m = catch m λ _. raise (persistence_unavailable message)

-- a call of a backend, whose exception the caller handles
abbrev pub calling {ℓ} : {A : Type ℓ} → (ℕ → Result A) → Action World (Result A)
calling call w = (ok (call w.ordinal), record w { ordinal = suc w.ordinal })

-- backend.submit(request, operation_key, …), which reaches the remote system
abbrev pub calling_submit :
    InvestigationBackend
    → InvestigationRequest
    → Uuid
    → Option ℕ
    → Action World (Result (Returned SubmittedOperation))
calling_submit backend request key timeout w = (
  ok (backend.submit request key timeout w.ordinal),
  record w { ordinal = suc w.ordinal; submissions = key ∷ w.submissions },
)

-- _remaining_reconciliation_seconds; what is left stops at 0, where the callers stop too
unfoldable pub remaining : Processor → Option ℕ → Action World (Option ℕ)
remaining p none = pure none
remaining p (some deadline) = reading λ n. some (deadline - p.monotonic n)

-- timeout is not None and timeout <= 0
abbrev pub expired : Option ℕ → Bool
expired none = false
expired (some t) = nat_eq t 0

abbrev pub present : Option ProcessingRecord → Action World ProcessingRecord
present none = raise (persistence_unavailable "durable processing could not be read")
present (some r) = pure r

-- _reread
unfoldable pub reread : Processor → Uuid → Action World ProcessingRecord
unfolding in_repository get_processing
reread p k = do found ← in_repository p (λ now. get_processing k); present found

abbrev pub stored_or :
    Option ProcessingRecord → Action World ProcessingRecord → Action World ProcessingRecord
stored_or (some r) rest = pure r
stored_or none rest = rest

-- `value or self._reread(processing_id)`
unfoldable pub or_reread :
    Processor
    → Uuid
    → (DateTime → Action Repository (Option ProcessingRecord))
    → Action World ProcessingRecord
unfolding in_repository reread
or_reread p k op = do answer ← in_repository p op; stored_or answer (reread p k)

-- `try: …` with a handler that only records the outcome
abbrev pub attempting {ℓ} : {A : Type ℓ} → Action World A → Action World (Result A)
attempting m w = (ok (m w).0, (m w).1)
