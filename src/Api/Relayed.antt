-- ===== src/Api/Relayed.antt =====
-- What the gateway's client makes of the API's answers about a processing.
use alert2ir.Prelude.{
  ℕ, String, Option, Bool, true, false, not, ◌||◌, nat_eq, ◌≡◌, refl, ◌∙◌, sym, ap, Bool-cases, inl,
  inr, if◌then◌else◌,
}
use alert2ir.Python.Result.{Result, ok, ◌>>=◌, bind-ok, check-ok, raise_exc_if, validation_error}
use alert2ir.Python.Optional.{is_some}
use alert2ir.Python.Library.{Library, Documented, IsUuid}
use alert2ir.Python.Json.{text}
use alert2ir.Application.States.{ProcessingState}
use alert2ir.Application.Record.{ProcessingRecord}
use alert2ir.Splunk.Client
use alert2ir.Splunk.Client.{
  DeliveryClassification, completed, accepted, permanent_failure, durable_failure,
  transient_failure, Response, DeliveryResult, Fields, bounded_json_object, decision_outcome,
  response_fields, fields_of,
}
use alert2ir.Splunk.Client.Submit.{
  delivery_result, make_result, allows, validate_uuid, with_code, classify_unavailable,
  classify_internal_failure, classify_fields, classify_response,
}
use alert2ir.Api.Responses.{
  is_client_failure, public_processing_response, failed_response, response_in,
}

-- the classification of a record's state
abbrev pub classification_in : ProcessingState → Option String → DeliveryClassification
classification_in ProcessingState.completed category = completed
classification_in ProcessingState.failed category =
    if is_client_failure category then permanent_failure else durable_failure
classification_in _ category = accepted

-- a response of the API about a record: its status, and the processing ID in the JSON of its body
pub record Relays (l : Library) (r : ProcessingRecord) (replayed : Bool) (response : Response)
    : Type 0 where
  pub status : response.status_code ≡ (public_processing_response l r replayed).status
  pub id : bounded_json_object l response "processing_id" ≡ text (l.uuid_text r.processing_id)

-- the classification of a status, where a processing ID or a status URL is known or not
abbrev pub class_of : ℕ → Bool → DeliveryClassification
class_of status known =
    if nat_eq status 200
    then completed
    else if nat_eq status 202
    then accepted
    else if nat_eq status 400 || nat_eq status 409 || nat_eq status 422
    then permanent_failure
    else if nat_eq status 500
    then (if known then durable_failure else transient_failure)
    else transient_failure

module _ (l : Library) where
  choose-class_same :
      (b : Bool) (x y : Result DeliveryResult) (c : DeliveryClassification) (d : DeliveryResult)
      → (x ≡ ok d → d.classification ≡ c)
      → (y ≡ ok d → d.classification ≡ c)
      → (if b then x else y) ≡ ok d
      → d.classification ≡ c
  choose-class_same true x y c d left right h = left h
  choose-class_same false x y c d left right h = right h

  delivery_result-class :
      (c : DeliveryClassification) (retryable unknown : Bool) (fields : Fields) (d : DeliveryResult)
      → delivery_result l c retryable unknown fields ≡ ok d
      → d.classification ≡ c
  unfolding delivery_result
  delivery_result-class c retryable unknown fields d h =
      let made : Option ℕ → Result DeliveryResult =
        λ id. ok (make_result c retryable unknown fields id) in
      let h1 =
        check-ok (raise_exc_if (not (allows fields)) validation_error)
          (validate_uuid l fields.processing_id >>= made) d h in
      let (id, valid, h2) = bind-ok (validate_uuid l fields.processing_id) made d h1 in
      let same : make_result c retryable unknown fields id ≡ d = cc in rw (← same) refl

  choose-class :
      (b : Bool) (x y : Result DeliveryResult) (c e : DeliveryClassification) (d : DeliveryResult)
      → (x ≡ ok d → d.classification ≡ c)
      → (y ≡ ok d → d.classification ≡ e)
      → (if b then x else y) ≡ ok d
      → d.classification ≡ (if b then c else e)
  choose-class true x y c e d left right h = left h
  choose-class false x y c e d left right h = right h

  classify_internal_failure-class :
      (fields : Fields) (d : DeliveryResult)
      → classify_internal_failure l fields ≡ ok d
      → d.classification ≡ (
          if is_some fields.processing_id || is_some fields.status_url
          then durable_failure
          else transient_failure)
  unfolding classify_internal_failure
  classify_internal_failure-class fields d h =
      choose-class (is_some fields.processing_id || is_some fields.status_url) _ _ durable_failure
        transient_failure d (delivery_result-class durable_failure false false fields d)
        (delivery_result-class transient_failure true true
          (with_code fields "upstream_internal_failure") d)
        h

  classify_fields-class :
      (fields : Fields) (d : DeliveryResult)
      → classify_fields l fields ≡ ok d
      → d.classification
        ≡ class_of fields.upstream_status
            (is_some fields.processing_id || is_some fields.status_url)
  unfolding classify_fields classify_unavailable
  classify_fields-class fields d h =
      let s = fields.upstream_status in
      choose-class (nat_eq s 200) _ _ completed _ d
        (delivery_result-class completed false false fields d)
        (choose-class (nat_eq s 202) _ _ accepted _ d
          (delivery_result-class accepted false false fields d)
          (choose-class (nat_eq s 400 || nat_eq s 409 || nat_eq s 422) _ _ permanent_failure _ d
            (delivery_result-class permanent_failure false false fields d)
            (choose-class (nat_eq s 500) _ _ _ _ d (classify_internal_failure-class fields d) (
              choose-class_same (nat_eq s 503) _ _ transient_failure d
                (delivery_result-class transient_failure true false
                  (if is_some fields.error_code
                    then fields
                    else with_code fields "upstream_unavailable")
                  d)
                (delivery_result-class transient_failure true true
                  (with_code fields "unexpected_upstream_status") d)))))
        h

  class_of-response_in :
      (state : ProcessingState) (r : ProcessingRecord) (replayed : Bool)
      → class_of (response_in state l r replayed).status true
        ≡ classification_in state r.error_category
  unfolding response_in failed_response
  class_of-response_in ProcessingState.completed r replayed = refl
  class_of-response_in ProcessingState.failed r replayed =
      elim (Bool-cases (is_client_failure r.error_category)) [
        | inl client ↦ rw client refl
        | inr other ↦ rw other refl
      ]
  class_of-response_in ProcessingState.accepted r replayed = refl
  class_of-response_in ProcessingState.planned r replayed = refl
  class_of-response_in ProcessingState.submitting r replayed = refl
  class_of-response_in ProcessingState.submitted r replayed = refl
  class_of-response_in ProcessingState.recovery_required r replayed = refl

  response_fields-known :
      (response : Response) (fields : Fields) (u : ℕ)
      → Documented l
      → IsUuid l u
      → bounded_json_object l response "processing_id" ≡ text (l.uuid_text u)
      → response_fields l response ≡ ok fields
      → (fields.upstream_status ≡ response.status_code) × (is_some fields.processing_id ≡ true)
  unfolding response_fields Client.processing_id
  response_fields-known response fields u d known carried h =
      let (outcome, read, h1) =
        bind-ok (decision_outcome (bounded_json_object l response)) _ fields h in
      let made : fields_of l response outcome ≡ fields = cc in
      (
        ap (λ f. f.upstream_status) (sym made),
        ap (λ f. is_some f.processing_id) (sym made) ∙ rw carried (rw (d.parse_text u known) refl),
      )

  -- Where a UUID reads back from its text: of a response that relays the API's answer about a
  -- record with a UUID, the gateway's client makes the classification of the record's state: completed,
  -- permanent failure or durable failure for a failed record, and accepted otherwise.
  pub classify_response-state :
      (r : ProcessingRecord) (replayed : Bool) (response : Response) (d : DeliveryResult)
      → Documented l
      → IsUuid l r.processing_id
      → Relays l r replayed response
      → classify_response l response ≡ ok d
      → d.classification ≡ classification_in r.state r.error_category
  unfolding classify_response public_processing_response
  classify_response-state r replayed response d documented uuid relays h =
      let (fields, made, got) = bind-ok (response_fields l response) (classify_fields l) d h in
      let (status, known) =
        response_fields-known response fields r.processing_id documented uuid relays.id made in
      classify_fields-class fields d got
      ∙ (rw (status, known, relays.status) (class_of-response_in r.state r replayed))
