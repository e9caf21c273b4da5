-- ===== src/Delivery/Classification/Replied.antt =====
-- The response that a successful disposition stands for.
use alert2ir.Prelude.{
  ℕ, String, Option, none, some, not, ◌||◌, ◌&&◌, leb, nat_eq, true, false, ◌≡◌, refl, ◌⊎◌,
  Bool-cases, inl, inr, subst,
}
use alert2ir.Python.Result.{Result, ok, err, bind-ok, check-ok}
use alert2ir.Python.Library.{Library}
use alert2ir.Python.Json.{Value}
use alert2ir.Delivery.Classification.{
  HttpResponse, AdapterDisposition, Contract, is_status, is_same_boolean, fallback_disposition,
  apply_contract, find_contract, classify_body, classify_adapter_response, bounded_response_object,
  is_transient, transient_exception_disposition, disposition_of,
}
use alert2ir.Delivery.Classification.Success.{disposition_of-success}

abbrev HasStatus : ℕ → AdapterDisposition → Type 0
HasStatus status d = d.status ≡ some status

fallback-HasStatus : (status : ℕ) → HasStatus status (fallback_disposition status)
unfolding fallback_disposition
fallback-HasStatus status = elim (Bool-cases (nat_eq status 200 || nat_eq status 202)) [
  | inl good ↦ rw good refl
  | inr bad ↦ elim (Bool-cases (leb 300 status && leb status 499)) [
    | inl permanent ↦ rw (bad, permanent) refl
    | inr transient ↦ rw (bad, transient) refl
  ]
]

apply_contract-HasStatus :
    (l : Library) (status : ℕ) (body : String → Value) (found : Option Contract)
    → HasStatus status (apply_contract l status body found)
unfolding apply_contract
apply_contract-HasStatus l status body none = fallback-HasStatus status
apply_contract-HasStatus l status body (some c) =
    elim (Bool-cases
      (not (is_status c.statuses status) || not (is_same_boolean (body "retryable") c.retryable))) [
        | inl other ↦ rw other (fallback-HasStatus status)
        | inr same ↦ rw same refl
      ]

classify_body-HasStatus :
    (l : Library) (status : ℕ) (body : Option (String → Value)) (d : AdapterDisposition)
    → classify_body l status body ≡ ok d
    → HasStatus status d
unfolding classify_body
classify_body-HasStatus l status none d h =
    let same : fallback_disposition status ≡ d = cc in
    subst (HasStatus status) same (fallback-HasStatus status)
classify_body-HasStatus l status (some body) d h =
    let (found, got, made) =
      bind-ok (find_contract (body "classification"))
        (λ found. ok (apply_contract l status body found)) d h in
    let same : apply_contract l status body found ≡ d = cc in
    subst (HasStatus status) same (apply_contract-HasStatus l status body found)

classify_adapter_response-HasStatus :
    (l : Library) (response : HttpResponse) (d : AdapterDisposition)
    → classify_adapter_response l response ≡ ok d
    → HasStatus response.status d
unfolding classify_adapter_response
classify_adapter_response-HasStatus l response d h =
    classify_body-HasStatus l response.status (bounded_response_object l response) d
      (check-ok _ (classify_body l response.status (bounded_response_object l response)) d h)

-- a response with the status 200 or 202, of which the disposition has the status
pub record Replied (reply : Result HttpResponse) (status : Option ℕ) : Type 0 where
  pub response : HttpResponse
  pub received : reply ≡ ok response
  pub good : (response.status ≡ 200) ⊎ (response.status ≡ 202)
  pub reported : status ≡ some response.status

-- a disposition of a reply that reports a success comes from a response
pub disposition_of-Replied :
    (l : Library) (reply : Result HttpResponse) (d : AdapterDisposition)
    → disposition_of l reply ≡ ok d
    → d.success ≡ true
    → Replied reply d.status
unfolding disposition_of transient_exception_disposition
disposition_of-Replied l (ok response) d h success =
    let status = classify_adapter_response-HasStatus l response d h in
    let (n, delivered, accepted) = disposition_of-success l (ok response) d h success in
    let same : n ≡ response.status = cc in
    record {
      response = response;
      received = refl;
      good = subst (λ m. (m ≡ 200) ⊎ (m ≡ 202)) same accepted;
      reported = status;
    }
disposition_of-Replied l (err e) d h success = elim (Bool-cases (is_transient e)) [
  | inl transient ↦ absurd (
      let same : ok (transient_exception_disposition e) ≡ ok d = rw transient at h in
      let failed : transient_exception_disposition e ≡ d = cc in
      let bad : d.success ≡ false = rw (← failed) refl in cc)
  | inr other ↦ absurd (let wrong : err e ≡ ok d = rw other at h in cc)
]
