-- ===== src/Repository/Acceptance.antt =====
-- src/alert2ir/persistence/memory.py: the acceptance of an alert, and the lookups.
use alert2ir.Prelude.{
  ℕ, String, Option, none, some, List, Bool, true, false, not, ◌&&◌, leb, ◌==◌, nat_equality,
  string_equality,
}
use alert2ir.Python.Result.{raise_if}
use alert2ir.Python.DateTime.{DateTime}
use alert2ir.Python.Dict.{get, put, pair_equality}
use alert2ir.Python.Action.{Action, pure, lift, gets, modify, ◌>>=◌, ◌>>◌}
use alert2ir.Python.Optional.{is_some}
use alert2ir.Python.Text.{text_length, codes, all_of, is_visible}
use alert2ir.Core.Models.{CanonicalAlert}
use alert2ir.Backends.Base.{Uuid}
use alert2ir.Application.Orchestrator.{construct}
use alert2ir.Application.States.{ProcessingState, processing_state_equality, attempt_state_equality}
use alert2ir.Application.Record.{ProcessingRecord, record_post_init}
use alert2ir.Application.Attempt.{ExecutionAttempt}
use alert2ir.Repository.Store.{Repository, save_record, load_record, load_attempt}

pub record ProcessingAcceptance : Type 0 where
  pub accepted_record : ProcessingRecord
  pub created : Bool

-- 1 <= len(key) <= 128, and every character is visible ASCII
unfoldable pub is_valid_key : String → Bool
is_valid_key key =
    leb 1 (text_length key) && leb (text_length key) 128 && all_of is_visible (codes key)

unfoldable pub new_record :
    Uuid → CanonicalAlert → String → String → ℕ → List ℕ → DateTime → ProcessingRecord
new_record processing_id alert scope key version fingerprint now = record {
  processing_id = processing_id;
  created_at = now;
  updated_at = now;
  alert = alert;
  state = ProcessingState.accepted;
  idempotency_scope = some scope;
  idempotency_key = some key;
  fingerprint_version = some version;
  request_fingerprint = some fingerprint;
  planned_decision = none;
  planned_incident = none;
  planned_request = none;
  selected_backend = none;
  completed_result = none;
  completed_at = none;
  failed_at = none;
  error_category = none;
  error_detail = none;
}

-- the part of `accept_processing` for an identity that is not bound yet
unfoldable pub create_processing :
    Uuid
    → CanonicalAlert
    → String
    → String
    → ℕ
    → List ℕ
    → DateTime
    → Action Repository ProcessingAcceptance
create_processing processing_id alert scope key version fingerprint now = do
  present ← gets (λ s. is_some (get s.records processing_id))
  lift (raise_if present "processing ID already exists")
  fresh ← lift (
      construct record_post_init (new_record processing_id alert scope key version fingerprint now))
  save_record processing_id fresh
  modify (λ s. record s { idempotency = put s.idempotency (scope, key) processing_id })
  pure (record { accepted_record = fresh; created = true })

-- `if existing_id is not None: return …`, before the rest of `accept_processing`
abbrev pub accept_existing :
    Option Uuid → Action Repository ProcessingAcceptance → Action Repository ProcessingAcceptance
accept_existing none rest = rest
accept_existing (some existing_id) rest = do
  bound ← load_record existing_id
  pure (record { accepted_record = bound; created = false })

-- the part of `accept_processing` under the lock, and the key's test
unfoldable pub accept_identity :
    Uuid
    → CanonicalAlert
    → String
    → String
    → ℕ
    → List ℕ
    → DateTime
    → Action Repository ProcessingAcceptance
unfolding create_processing
accept_identity processing_id alert scope key version fingerprint now = do
  lift (raise_if (not (is_valid_key key)) "idempotency key must be visible ASCII")
  existing ← gets (λ s. get s.idempotency (scope, key))
  accept_existing existing (create_processing processing_id alert scope key version fingerprint now)

unfoldable pub accept_processing :
    Uuid
    → CanonicalAlert
    → String
    → String
    → ℕ
    → List ℕ
    → DateTime
    → Action Repository ProcessingAcceptance
unfolding accept_identity
accept_processing processing_id alert scope key version fingerprint now = do
  lift (
      raise_if (not (scope == alert.source.source)) "idempotency scope must equal canonical source")
  accept_identity processing_id alert scope key version fingerprint now

-- get
unfoldable pub get_processing : Uuid → Action Repository (Option ProcessingRecord)
get_processing processing_id = gets λ s. get s.records processing_id

unfoldable pub get_by_idempotency : String → String → Action Repository (Option ProcessingRecord)
get_by_idempotency scope key = do
  bound ← gets (λ s. get s.idempotency (scope, key))
  elim bound [
    | none ↦ pure none
    | some processing_id ↦ do bound_record ← load_record processing_id; pure (some bound_record)
  ]

unfoldable pub get_attempt : Uuid → Action Repository (Option ExecutionAttempt)
get_attempt attempt_id = gets λ s. get s.attempts attempt_id

unfoldable pub get_attempt_for_processing : Uuid → Action Repository (Option ExecutionAttempt)
get_attempt_for_processing processing_id = do
  bound ← gets (λ s. get s.attempt_by_processing processing_id)
  elim bound [
    | none ↦ pure none
    | some attempt_id ↦ do attempt ← load_attempt attempt_id; pure (some attempt)
  ]
