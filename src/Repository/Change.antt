-- ===== src/Repository/Change.antt =====
-- What one operation may do to the repository, whoever calls it and however it ends.
use alert2ir.Prelude.{
  String, none, some, ◌≡◌, ◌≢◌, ◌⊎◌, true, false, nat_equality, string_equality, Bool,
}
use alert2ir.Python.Result.{ok}
use alert2ir.Python.Dict.{get, put, pair_equality}
use alert2ir.Backends.Base.{Uuid}
use alert2ir.Application.States.{
  ProcessingState, ExecutionAttemptState, processing_transition_allowed,
}
use alert2ir.Application.Record.{ProcessingRecord, record_post_init}
use alert2ir.Application.Attempt.{ExecutionAttempt, attempt_post_init}
use alert2ir.Repository.Store.{Repository, write_record, write_attempt}
use alert2ir.Repository.Plans.{contains_id, bind_attempt}

-- A record keeps its identity, and its state stays or moves along the table; a completed record
-- does not change.
pub record RecordStep (r r' : ProcessingRecord) : Type 0 where
  pub same_id : r'.processing_id ≡ r.processing_id
  pub same_alert : r'.alert ≡ r.alert
  pub same_created : r'.created_at ≡ r.created_at
  pub same_scope : r'.idempotency_scope ≡ r.idempotency_scope
  pub same_key : r'.idempotency_key ≡ r.idempotency_key
  pub same_version : r'.fingerprint_version ≡ r.fingerprint_version
  pub same_digest : r'.request_fingerprint ≡ r.request_fingerprint
  pub allowed : (r'.state ≡ r.state) ⊎ (processing_transition_allowed r.state r'.state ≡ true)
  pub not_completed : r.state ≢ ProcessingState.completed

-- An attempt's states follow one another in this order; none goes back to planned.
abbrev pub attempt_may_move : ExecutionAttemptState → ExecutionAttemptState → Bool
attempt_may_move ExecutionAttemptState.planned ExecutionAttemptState.submitting = true
attempt_may_move ExecutionAttemptState.planned ExecutionAttemptState.failed = true
attempt_may_move ExecutionAttemptState.submitting ExecutionAttemptState.submitted = true
attempt_may_move ExecutionAttemptState.submitting ExecutionAttemptState.failed = true
attempt_may_move ExecutionAttemptState.submitting ExecutionAttemptState.recovery_required = true
attempt_may_move ExecutionAttemptState.submitted ExecutionAttemptState.submitted = true
attempt_may_move ExecutionAttemptState.submitted ExecutionAttemptState.completed = true
attempt_may_move ExecutionAttemptState.submitted ExecutionAttemptState.failed = true
attempt_may_move ExecutionAttemptState.submitted ExecutionAttemptState.recovery_required = true
attempt_may_move ExecutionAttemptState.recovery_required ExecutionAttemptState.failed = true
attempt_may_move _ _ = false

pub record AttemptStep (a a' : ExecutionAttempt) : Type 0 where
  pub same_id : a'.attempt_id ≡ a.attempt_id
  pub same_processing : a'.processing_id ≡ a.processing_id
  pub same_number : a'.attempt_number ≡ a.attempt_number
  pub same_key : a'.operation_key ≡ a.operation_key
  pub same_backend : a'.backend ≡ a.backend
  pub moves : attempt_may_move a.state a'.state ≡ true

-- the write of one record, of one attempt, and of both
pub record RecordWrite (s : Repository) (k : Uuid) (r r' : ProcessingRecord) : Type 0 where
  pub found : get s.records k ≡ some r
  pub step : RecordStep r r'
  pub valid : record_post_init r' ≡ ok tt

pub record AttemptWrite (s : Repository) (k : Uuid) (a a' : ExecutionAttempt) : Type 0 where
  pub found : get s.attempts k ≡ some a
  pub step : AttemptStep a a'
  pub valid : attempt_post_init a' ≡ ok tt

-- the write of a new record under an identity that is not bound
pub record Acceptance (s : Repository) (k : Uuid) (scope key : String) (r : ProcessingRecord)
    : Type 0 where
  pub fresh : get s.records k ≡ none
  pub unbound : get s.idempotency (scope, key) ≡ none
  pub own_id : r.processing_id ≡ k
  pub own_scope : r.idempotency_scope ≡ some scope
  pub own_key : r.idempotency_key ≡ some key
  pub is_accepted : r.state ≡ ProcessingState.accepted
  pub valid : record_post_init r ≡ ok tt

-- the write of the first attempt of a processing
pub record Planning (s : Repository) (k a key : Uuid) (x : ExecutionAttempt) : Type 0 where
  pub no_attempt : get s.attempt_by_processing k ≡ none
  pub fresh : get s.attempts a ≡ none
  pub fresh_key : contains_id key s.operation_keys ≡ false
  pub own_id : x.attempt_id ≡ a
  pub own_processing : x.processing_id ≡ k
  pub own_key : x.operation_key ≡ key
  pub is_planned : x.state ≡ ExecutionAttemptState.planned
  pub valid : attempt_post_init x ≡ ok tt

pub data Change (s t : Repository) : Type 0 where
  unchanged : t ≡ s → Change s t
  accepts :
      (k : Uuid) (scope key : String) (r : ProcessingRecord)
      → Acceptance s k scope key r
      → t ≡ record s { records = put s.records k r; idempotency = put s.idempotency (scope, key) k }
      → Change s t
  moves :
      (k : Uuid) (r r' : ProcessingRecord)
      → RecordWrite s k r r'
      → t ≡ write_record s k r'
      → Change s t
  advances :
      (a : Uuid) (x x' : ExecutionAttempt)
      → AttemptWrite s a x x'
      → t ≡ write_attempt s a x'
      → Change s t
  updates :
      (k a : Uuid) (r r' : ProcessingRecord) (x x' : ExecutionAttempt)
      → RecordWrite s k r r'
      → AttemptWrite s a x x'
      → t ≡ write_attempt (write_record s k r') a x'
      → Change s t
  plans :
      (k a key : Uuid) (r r' : ProcessingRecord) (x : ExecutionAttempt)
      → RecordWrite s k r r'
      → Planning s k a key x
      → t ≡ bind_attempt k a key (write_attempt (write_record s k r') a x)
      → Change s t
