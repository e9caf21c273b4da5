-- ===== src/Application/RecordFacts.antt =====
-- What the checks of a record and of an attempt give, one fact at a time.
use alert2ir.Prelude.{◌≡◌, true, false, arith}
use alert2ir.Python.Result.{ok}
use alert2ir.Python.Optional.{is_some}
use alert2ir.Application.States.{ProcessingState}
use alert2ir.Application.Record.{
  ProcessingRecord, record_post_init, state_check, times_check, identity_check, error_check,
  source_check,
}

module _ (r : ProcessingRecord) (valid : record_post_init r ≡ ok tt) where
  pub valid_times : times_check r ≡ ok tt
  unfolding record_post_init
  valid_times = ground arith

  pub valid_identity : identity_check r ≡ ok tt
  unfolding record_post_init
  valid_identity = ground arith

  pub valid_error : error_check r.error_category r.error_detail ≡ ok tt
  unfolding record_post_init
  valid_error = ground arith

  pub valid_state : state_check r ≡ ok tt
  unfolding record_post_init
  valid_state = ground arith

  pub valid_source : source_check r ≡ ok tt
  unfolding record_post_init
  valid_source = ground arith

  pub completed_has_time : r.state ≡ ProcessingState.completed → is_some r.completed_at ≡ true
  unfolding state_check
  completed_has_time e = ground (arith, valid_state)

  pub failed_has_no_time : r.state ≡ ProcessingState.failed → is_some r.completed_at ≡ false
  unfolding state_check
  failed_has_no_time e = ground (arith, valid_state)
