-- ===== src/Delivery/Agreement.antt =====
-- The alert action and the gateway together: what the action reads in the gateway's response is what
-- the gateway's client found.
use mathlib.Core.Option
use alert2ir.Prelude.{
  ℕ, ◌≤◌, String, Option, none, some, List, [], ◌∷◌, Bool, true, false, not, ◌&&◌, ltb, leb, ◌≡◌,
  refl, arith, if◌then◌else◌,
}
use alert2ir.Python.Result.{ok}
use alert2ir.Python.Text.{codes, length}
use alert2ir.Python.Pattern.{is_error_code}
use alert2ir.Python.Library.{Library, Documented, IsUuid}
use alert2ir.Python.Json.{Value, object, text, boolean, lookup}
use alert2ir.Python.Json.Present.{value_of, lookup-present}
use alert2ir.Core.Models.{CanonicalAlert}
use alert2ir.Splunk.Client.{
  DeliveryClassification, completed, accepted, permanent_failure, durable_failure,
  transient_failure, DeliveryResult,
}
use alert2ir.Splunk.Client.Submit.{Reply, submit_alert, allows_code}
use alert2ir.Splunk.Client.Valid.{Classified, is_transient, is_rejection, submit_alert-Classified}
use alert2ir.Splunk.App
use alert2ir.Splunk.App.{
  adapter_status, status_of, classification_text, optional_text, result_fields, result_json,
}
use alert2ir.Delivery.Classification.{
  HttpResponse, AdapterDisposition, Contract, contract, contract_of, contract_at, find_contract,
  is_status, is_same_boolean, apply_contract, classify_body, classify_adapter_response,
  bounded_response_object, bounded_processing_id, bounded_error_code,
}

-- how the action names the classification of a result
abbrev pub category_of : DeliveryClassification → String
category_of completed = "success"
category_of accepted = "success"
category_of permanent_failure = "permanent_failure"
category_of durable_failure = "durable_failure"
category_of transient_failure = "transient_failure"

abbrev pub is_delivered : DeliveryClassification → Bool
is_delivered completed = true
is_delivered accepted = true
is_delivered _ = false

abbrev pub statuses_of : DeliveryClassification → List ℕ
statuses_of completed = 200 ∷ []
statuses_of accepted = 202 ∷ []
statuses_of permanent_failure = 400 ∷ 409 ∷ 422 ∷ []
statuses_of durable_failure = 500 ∷ []
statuses_of transient_failure = 502 ∷ 503 ∷ 504 ∷ []

abbrev contract_for : DeliveryClassification → Contract
contract_for c = contract (statuses_of c) (is_transient c) (category_of c) (is_delivered c)

-- the disposition that says of a response what a result of the client says
abbrev pub disposition_for : Library → DeliveryResult → AdapterDisposition
disposition_for l r = record {
  category = category_of r.classification;
  retryable = r.retryable;
  success = is_delivered r.classification;
  status = some (adapter_status r);
  processing_id = Option.map l.uuid_text r.processing_id;
  replayed = r.replayed;
  error_code = r.error_code;
}

find_contract-classification :
    (c : DeliveryClassification)
    → find_contract (text (classification_text c)) ≡ ok (some (contract_for c))
unfolding find_contract contract_at contract_of
find_contract-classification completed = refl
find_contract-classification accepted = refl
find_contract-classification permanent_failure = refl
find_contract-classification durable_failure = refl
find_contract-classification transient_failure = refl

transient-listed :
    (timeout unavailable : Bool)
    → is_status (502 ∷ 503 ∷ 504 ∷ []) (if timeout then 504 else if unavailable then 503 else 502)
      ≡ true
transient-listed true unavailable = refl
transient-listed false true = refl
transient-listed false false = refl

-- the status that the gateway answers is one that the contract names
status_of-listed :
    (c : DeliveryClassification) (code : Option String) (upstream : Option ℕ)
    → (c ≡ permanent_failure → (s : ℕ) × (upstream ≡ some s) × (is_rejection s ≡ true))
    → is_status (statuses_of c) (status_of c code upstream) ≡ true
unfolding status_of
status_of-listed completed code upstream rejected = refl
status_of-listed accepted code upstream rejected = refl
status_of-listed permanent_failure code upstream rejected =
    let (s, answered, listed) = rejected refl in rw answered (rw listed (ground (arith, listed)))
status_of-listed durable_failure code upstream rejected = refl
status_of-listed transient_failure code upstream rejected =
    transient-listed (App.is_text "upstream_timeout" code) (App.is_number 503 upstream)

listed-range :
    (c : DeliveryClassification) (status : ℕ)
    → is_status (statuses_of c) status ≡ true
    → not (leb 100 status && leb status 599) ≡ false
listed-range completed status listed = ground (arith, listed)
listed-range accepted status listed = ground (arith, listed)
listed-range permanent_failure status listed = ground (arith, listed)
listed-range durable_failure status listed = ground (arith, listed)
listed-range transient_failure status listed = ground (arith, listed)

is_same_boolean_refl : (a b : Bool) → a ≡ b → is_same_boolean (boolean a) b ≡ true
is_same_boolean_refl true true h = refl
is_same_boolean_refl false false h = refl
is_same_boolean_refl true false h = absurd (cc)
is_same_boolean_refl false true h = absurd (cc)

bounded_processing_id-text :
    (l : Library) (id : Option ℕ)
    → Documented l
    → ((u : ℕ) → id ≡ some u → IsUuid l u)
    → bounded_processing_id l (optional_text (Option.map l.uuid_text id))
      ≡ Option.map l.uuid_text id
unfolding bounded_processing_id
bounded_processing_id-text l none d known = refl
bounded_processing_id-text l (some u) d known = rw (d.parse_text u (known u refl)) refl

bounded_error_code-text :
    (code : Option String)
    → allows_code code ≡ true
    → bounded_error_code (optional_text code) ≡ code
unfolding bounded_error_code
bounded_error_code-text none allowed = refl
bounded_error_code-text (some value) allowed =
    let formed : is_error_code (codes value) ≡ true = ground (arith, allowed) in rw formed refl

-- the response of the gateway that carries a result
pub record Carries (l : Library) (r : DeliveryResult) (response : HttpResponse) : Type 0 where
  pub status : response.status ≡ adapter_status r
  pub bounded : length response.body ≤ 65_536
  pub content : l.parse_json response.body ≡ some (object (result_json l r))

result_json-value :
    (l : Library) (r : DeliveryResult) (name : String)
    → lookup (result_json l r) name ≡ value_of (result_fields l r) name
unfolding result_json
result_json-value l r name = lookup-present (result_fields l r) name refl

apply_contract-disposition :
    (l : Library) (r : DeliveryResult)
    → Documented l
    → Classified l r
    → is_status (statuses_of r.classification) (adapter_status r) ≡ true
    → apply_contract l
        (adapter_status r)
        (lookup (result_json l r))
        (some (contract_for r.classification))
      ≡ disposition_for l r
unfolding apply_contract
apply_contract-disposition l r d c listed =
    rw
      (
        result_json-value l r "retryable",
        result_json-value l r "processing_id",
        result_json-value l r "replayed",
        result_json-value l r "error_code",
      )
      (rw (listed, is_same_boolean_refl r.retryable (is_transient r.classification) c.retry)
        (rw
          (
            bounded_processing_id-text l r.processing_id d c.identified,
            bounded_error_code-text r.error_code c.coded,
            ← c.retry,
          )
          refl))

classify_body-contract :
    (l : Library) (status : ℕ) (body : String → Value) (c : Contract)
    → find_contract (body "classification") ≡ ok (some c)
    → classify_body l status (some body) ≡ ok (apply_contract l status body (some c))
unfolding classify_body
classify_body-contract l status body c found = rw found refl

classify_body-disposition :
    (l : Library) (r : DeliveryResult)
    → Documented l
    → Classified l r
    → is_status (statuses_of r.classification) (adapter_status r) ≡ true
    → classify_body l (adapter_status r) (some (lookup (result_json l r)))
      ≡ ok (disposition_for l r)
classify_body-disposition l r d c listed = rw (← apply_contract-disposition l r d c listed) (
    classify_body-contract l (adapter_status r) (lookup (result_json l r))
      (contract_for r.classification)
      (rw (result_json-value l r "classification") (find_contract-classification r.classification)))

-- Where a UUID reads back from its text: if submit_alert returns a result and the gateway's
-- response carries it, as JSON of at most 65,536 bytes, then the disposition that the alert action
-- makes of the response is this result: the same classification, retryability, processing id,
-- replay flag and error code.
pub classified_alike :
    (l : Library) (post : CanonicalAlert → String → Reply) (alert : CanonicalAlert) (key : String)
    (r : DeliveryResult) (response : HttpResponse)
    → Documented l
    → submit_alert l post alert key ≡ ok r
    → Carries l r response
    → classify_adapter_response l response ≡ ok (disposition_for l r)
unfolding classify_adapter_response bounded_response_object classify_body adapter_status
classified_alike l post alert key r response d submitted c =
    let classified = submit_alert-Classified l post alert key r submitted in
    let listed =
      status_of-listed r.classification r.error_code r.upstream_status classified.rejected in
    let in_range = listed-range r.classification (adapter_status r) listed in
    let small : ltb 65_536 (length response.body) ≡ false = ground (arith, c.bounded) in
    rw (c.status, in_range, small, c.content) (classify_body-disposition l r d classified listed)
