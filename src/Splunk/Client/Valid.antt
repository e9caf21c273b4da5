-- ===== src/Splunk/Client/Valid.antt =====
-- src/alert2ir/adapters/splunk/client.py: every response has a result, and its fields fit together.
use alert2ir.Prelude.{
  String, ℕ, Option, none, some, inl, inr, Option-cases, Bool, true, false, not, ◌||◌, nat_eq, ◌≡◌,
  ◌≢◌, refl, subst, arith, if◌then◌else◌,
}
use alert2ir.Python.Result.{
  Result, ok, err, bind-ok, check-ok, passed-ok, raise_exc_if-false, raise_exc_if, validation_error,
  ◌>>=◌,
}
use alert2ir.Python.Pattern.{is_error_code}
use alert2ir.Python.Optional.{is_some}
use alert2ir.Python.Library.{Library, IsUuid}
use alert2ir.Splunk.Client.{
  response_fields, is_error_code, Response, DeliveryClassification, completed, accepted,
  permanent_failure, durable_failure, transient_failure, DeliveryResult, Fields,
}
use alert2ir.Core.Models.{CanonicalAlert}
use alert2ir.Splunk.Client.Submit.{
  Reply, responded, timed_out, unconnected, transport_failed, failed_post, result_of_reply,
  submit_alert, classify_response, allows_code, validate_uuid, delivery_result, allows, make_result,
  with_code, classify_internal_failure, classify_unavailable, classify_fields,
}

-- the values that a computation may return
abbrev Each {ℓ κ} : {A : Type ℓ} → (A → Type κ) → Result A → Type (ℓ ⊔ κ)
Each {A = A} P r = (a : A) → r ≡ ok a → P a

choose-Each {ℓ κ} :
    {A : Type ℓ} (P : A → Type κ) (b : Bool) (x y : Result A)
    → (b ≡ true → Each P x)
    → (b ≡ false → Each P y)
    → Each P (if b then x else y)
choose-Each P true x y left right = left refl
choose-Each P false x y left right = right refl

abbrev pub is_transient : DeliveryClassification → Bool
is_transient transient_failure = true
is_transient _ = false

abbrev pub is_rejection : ℕ → Bool
is_rejection status = nat_eq status 400 || nat_eq status 409 || nat_eq status 422

-- a result whose fields fit its classification
pub record Classified (l : Library) (r : DeliveryResult) : Type 0 where
  pub retry : r.retryable ≡ is_transient r.classification
  pub rejected :
      r.classification ≡ permanent_failure
      → (s : ℕ) × (r.upstream_status ≡ some s) × (is_rejection s ≡ true)
  pub coded : allows_code r.error_code ≡ true
  pub identified : (u : ℕ) → r.processing_id ≡ some u → IsUuid l u

module _ (l : Library) where
  validate_uuid-IsUuid :
      (value : Option String) (id : Option ℕ)
      → validate_uuid l value ≡ ok id
      → (u : ℕ) → id ≡ some u
      → IsUuid l u
  unfolding validate_uuid
  validate_uuid-IsUuid none id h u e = absurd (cc)
  validate_uuid-IsUuid (some value) id h u e = elim (Option-cases (l.parse_uuid value)) [
    | inl missing ↦
        absurd (let wrong : err validation_error ≡ ok id = rw (missing, validate_uuid) at h in cc)
    | inr (v, parsed) ↦
        let got : ok (some v) ≡ ok id = rw (parsed, validate_uuid) at h in
        let same : v ≡ u = cc in (value, subst (λ w. l.parse_uuid value ≡ some w) same parsed)
  ]

  delivery_result-Classified :
      (c : DeliveryClassification) (retryable unknown : Bool) (fields : Fields)
      → retryable ≡ is_transient c
      → (c ≡ permanent_failure → is_rejection fields.upstream_status ≡ true)
      → Each (Classified l) (delivery_result l c retryable unknown fields)
  unfolding delivery_result
  delivery_result-Classified c retryable unknown fields retry rejected r h =
      let made : Option ℕ → Result DeliveryResult =
        λ id. ok (make_result c retryable unknown fields id) in
      let block = validate_uuid l fields.processing_id >>= made in
      let passed = passed-ok (raise_exc_if (not (allows fields)) validation_error) block r h in
      let h1 = check-ok (raise_exc_if (not (allows fields)) validation_error) block r h in
      let (id, valid, h2) = bind-ok (validate_uuid l fields.processing_id) made r h1 in
      let same : make_result c retryable unknown fields id ≡ r = cc in
      let allowed = raise_exc_if-false (not (allows fields)) validation_error passed in
      subst (Classified l) same (record {
        retry = retry;
        rejected = λ permanent. (fields.upstream_status, refl, rejected permanent);
        coded = ground (arith, allowed);
        identified = validate_uuid-IsUuid fields.processing_id id valid;
      })

  -- what a response of a status without a rejection gives
  plain :
      (c : DeliveryClassification) (retryable unknown : Bool) (fields : Fields)
      → retryable ≡ is_transient c
      → c ≢ permanent_failure
      → Each (Classified l) (delivery_result l c retryable unknown fields)
  plain c retryable unknown fields retry other =
      delivery_result-Classified c retryable unknown fields retry (λ e. absurd (other e))

  classify_internal_failure-Classified :
      (fields : Fields) → Each (Classified l) (classify_internal_failure l fields)
  unfolding classify_internal_failure
  classify_internal_failure-Classified fields =
      choose-Each (Classified l) (is_some fields.processing_id || is_some fields.status_url) _ _
        (λ durable. plain durable_failure false false fields refl (cc))
        (λ unknown.
          plain transient_failure true true (with_code fields "upstream_internal_failure") refl
            (cc))

  classify_fields-Classified : (fields : Fields) → Each (Classified l) (classify_fields l fields)
  unfolding classify_fields classify_unavailable
  classify_fields-Classified fields =
      let status = fields.upstream_status in
      choose-Each (Classified l) (nat_eq status 200) _ _
        (λ e. plain completed false false fields refl (cc))
        (λ e0.
          choose-Each (Classified l) (nat_eq status 202) _ _
            (λ e. plain accepted false false fields refl (cc))
            (λ e1.
              choose-Each (Classified l) (is_rejection status) _ _
                (λ e. delivery_result-Classified permanent_failure false false fields refl (λ p. e))
                (λ e2.
                  choose-Each (Classified l) (nat_eq status 500) _ _
                    (λ e. classify_internal_failure-Classified fields)
                    (λ e3.
                      choose-Each (Classified l) (nat_eq status 503) _ _
                        (λ e.
                          plain transient_failure true false
                            (if is_some fields.error_code
                              then fields
                              else with_code fields "upstream_unavailable")
                            refl (cc))
                        (λ e4.
                          plain transient_failure true true
                            (with_code fields "unexpected_upstream_status") refl (cc))))))

  pub classify_response-Classified :
      (response : Response) → Each (Classified l) (classify_response l response)
  unfolding classify_response
  classify_response-Classified response r h =
      let (fields, made, got) = bind-ok (response_fields l response) (classify_fields l) r h in
      classify_fields-Classified fields r got

  failed_post-Classified :
      (code : String) (unknown : Bool)
      → allows_code (some code) ≡ true
      → Each (Classified l) (ok (failed_post code unknown))
  failed_post-Classified code unknown coded r h =
      let same : failed_post code unknown ≡ r = cc in
      subst (Classified l) same (record {
        retry = refl;
        rejected = λ e. absurd (cc);
        coded = coded;
        identified = λ u e. absurd (cc);
      })

  result_of_reply-Classified : (reply : Reply) → Each (Classified l) (result_of_reply l reply)
  unfolding result_of_reply is_error_code
  result_of_reply-Classified (responded response) = classify_response-Classified response
  result_of_reply-Classified timed_out = failed_post-Classified _ true refl
  result_of_reply-Classified unconnected = failed_post-Classified _ false refl
  result_of_reply-Classified transport_failed = failed_post-Classified _ true refl

  -- A result that submit_alert returns is retryable exactly when its classification is a transient
  -- failure, one that is a permanent failure carries the upstream status 400, 409 or 422, its error
  -- code has the format of an error code, and its processing id, if it has one, is a UUID.
  pub submit_alert-Classified :
      (post : CanonicalAlert → String → Reply) (alert : CanonicalAlert) (key : String)
      (r : DeliveryResult)
      → submit_alert l post alert key ≡ ok r
      → Classified l r
  unfolding submit_alert
  submit_alert-Classified post alert key r h =
      result_of_reply-Classified (post alert key) r
        (check-ok _ (result_of_reply l (post alert key)) r h)
