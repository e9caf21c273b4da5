-- ===== src/Api/App/Replay.antt =====
-- A request under a key that is bound already.
use alert2ir.Prelude.{
  none, some, true, false, ◌≡◌, ◌⊎◌, if◌then◌else◌, nat_equality, string_equality,
}
use alert2ir.Python.Optional.{option_equality}
use alert2ir.Python.Dict.{pair_equality}
use alert2ir.Python.Library.{Library}
use alert2ir.Core.Models.{CanonicalAlert}
use alert2ir.Application.Record.{ProcessingRecord}
use alert2ir.Processing.World.{World, Processor}
use alert2ir.Processing.Acceptance.{is_conflict, fingerprint, digest_equality}
use alert2ir.Application.Fingerprint.{fingerprint_version}
use alert2ir.Api.Responses.{Answer, error_response, plain_error, public_processing_response}
use alert2ir.Api.Responses.Shown.{Replay, Conflict}
use alert2ir.Api.App

-- the answer for a bound record
abbrev bound_response : Library → Processor → CanonicalAlert → ProcessingRecord → Answer
bound_response l p alert r =
    if is_conflict r (fingerprint p alert)
    then error_response 409
        (plain_error "idempotency_conflict" "idempotency key is already bound to another request")
        none false
    else public_processing_response l r true

-- the request of the record
abbrev pub IsRequestOf : Processor → CanonicalAlert → ProcessingRecord → Type 0
IsRequestOf p alert r =
    (r.fingerprint_version ≡ some fingerprint_version)
    × (r.request_fingerprint ≡ some (fingerprint p alert))

-- the answer to a request under a bound key
abbrev pub IsBoundAnswer : Library → Processor → CanonicalAlert → ProcessingRecord → Answer → Type 0
IsBoundAnswer l p alert r a =
    (IsRequestOf p alert r × Replay l r a) ⊎ ((¬ IsRequestOf p alert r) × Conflict a)
