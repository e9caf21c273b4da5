-- ===== src/Delivery/Deliver.antt =====
-- integrations/splunk/alert2ir_delivery/bin/alert2ir_delivery.py: `deliver`, with the sequence of
-- what it does to its environment. The transport and the clock are functions of the number of the
-- attempt. A time to sleep is in milliseconds.
pub mod Conduct
pub mod Settled
pub mod Returns
pub mod Progress
pub mod Authentic
pub mod Answered
use alert2ir.Prelude.{
  ℕ, zero, suc, String, Option, none, some, List, [], ◌∷◌, Bool, not, ◌||◌, ltb, nat_eq,
  if◌then◌else◌,
}
use alert2ir.Python.Result.{
  Result, ok, err, ◌>>=◌, ◌>>◌, raise_exc_if, action_input_error, action_configuration_error,
  index_error, assertion_error,
}
use alert2ir.Python.Text.{codes, length}
use alert2ir.Python.Decimal.{decimal_text}
use alert2ir.Python.Pattern.{is_timestamp}
use alert2ir.Python.Library.{Library}
use alert2ir.Delivery.Signature.{validate_secret, signature_header}
use alert2ir.Delivery.Classification.{HttpResponse, AdapterDisposition, disposition_of}

-- one HTTP request; its content type is application/json
pub record Post : Type 0 where
  pub url : String
  pub body : List ℕ
  -- X-Alert2IR-Timestamp and X-Alert2IR-Signature
  pub timestamp : String
  pub signature : String

pub data Event : Type 0 where
  posted : Post → Event
  slept : ℕ → Event

pub record DeliveryOutcome : Type 0 where
  pub success : Bool
  pub attempts : ℕ
  pub category : String
  pub status : Option ℕ
  pub processing_id : Option String
  pub replayed : Bool
  pub error_code : Option String

-- a number from the clock that is finite and not negative, by its whole seconds, or none
pub record Environment : Type 0 where
  pub transport : ℕ → Post → Result HttpResponse
  pub clock : ℕ → Option ℕ

-- the arguments of `deliver` that stay the same
pub record Job : Type 0 where
  pub url : String
  pub body : List ℕ
  pub secret : List ℕ

-- the events of a run and its answer
pub record Run : Type 0 where
  pub events : List Event
  pub answer : Result DeliveryOutcome

abbrev pub maximum_attempts : ℕ
maximum_attempts = 3

unfoldable pub timestamp_from_clock : Option ℕ → Result String
unfolding decimal_text
timestamp_from_clock none = err (action_configuration_error "clock returned an invalid timestamp")
timestamp_from_clock (some value) = do
  raise_exc_if (not (is_timestamp (codes (decimal_text value))))
      (action_configuration_error "clock returned an invalid timestamp")
  ok (decimal_text value)

-- RETRY_DELAYS_SECONDS[attempt - 1], where the index -1 is the last one
unfoldable pub retry_delay : ℕ → Result ℕ
retry_delay zero = ok 2_000
retry_delay (suc zero) = ok 1_000
retry_delay (suc (suc zero)) = ok 2_000
retry_delay (suc (suc (suc n))) = err index_error

abbrev pub post_of : Job → String → String → Post
post_of job timestamp signature = record {
  url = job.url;
  body = job.body;
  timestamp = timestamp;
  signature = signature;
}

-- the headers of an attempt
unfoldable pub prepare_post : Library → Job → Option ℕ → Result Post
unfolding timestamp_from_clock signature_header
prepare_post l job now = do
  timestamp ← timestamp_from_clock now
  signature ← signature_header l job.secret timestamp job.body
  ok (record { url = job.url; body = job.body; timestamp = timestamp; signature = signature })

abbrev pub outcome_of : AdapterDisposition → ℕ → DeliveryOutcome
outcome_of disposition attempt = record {
  success = disposition.success;
  attempts = attempt;
  category = disposition.category;
  status = disposition.status;
  processing_id = disposition.processing_id;
  replayed = disposition.replayed;
  error_code = disposition.error_code;
}

-- nothing more happens
abbrev pub stop : Result DeliveryOutcome → Run
stop answer = record { events = []; answer = answer }

-- an event before a run
abbrev pub before : Event → Run → Run
before event rest = record { events = event ∷ rest.events; answer = rest.answer }

-- `sleeper(RETRY_DELAYS_SECONDS[attempt - 1])`, and then the next attempt
unfoldable pub sleep_before : ℕ → Run → Run
unfolding retry_delay
sleep_before attempt rest = elim (retry_delay attempt) [
  | ok milliseconds ↦ before (slept milliseconds) rest
  | err e ↦ stop (err e)
]

-- the end of an attempt, of the disposition and of the run of the attempts after it
unfoldable pub finish_attempt : Result AdapterDisposition → ℕ → Run → Run
unfolding sleep_before
finish_attempt (err e) attempt rest = stop (err e)
finish_attempt (ok disposition) attempt rest =
    if disposition.success || not disposition.retryable || nat_eq attempt maximum_attempts
    then stop (ok (outcome_of disposition attempt))
    else sleep_before attempt rest

-- the loop over the attempts that are left
unfoldable pub attempt_loop : Library → Job → Environment → ℕ → ℕ → Run
unfolding prepare_post disposition_of finish_attempt
attempt_loop l job environment zero attempt = stop (err assertion_error)
attempt_loop l job environment (suc left) attempt =
    let rest = attempt_loop l job environment left (suc attempt) in
    elim (prepare_post l job (environment.clock attempt)) [
      | ok post ↦
          before (posted post)
            (finish_attempt (disposition_of l (environment.transport attempt post)) attempt rest)
      | err e ↦ stop (err e)
    ]

-- the checks that come before the loop
unfoldable pub checked : Job → Result (Unit {0})
unfolding validate_secret
checked job = do
  raise_exc_if (ltb 65_536 (length job.body)) (action_input_error "finding body is invalid")
  validate_secret job.secret

unfoldable pub deliver : Library → Job → Environment → Run
unfolding checked attempt_loop
deliver l job environment = elim (checked job) [
  | ok passed ↦ attempt_loop l job environment maximum_attempts 1
  | err e ↦ stop (err e)
]
