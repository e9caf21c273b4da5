-- ===== src/Api/Schemas/RoundTrip.antt =====
-- A request that is made of an alert stands for this alert.
use alert2ir.Prelude.{String, Option, none, some, List, [], ◌∷◌, false, ◌||◌, ◌≡◌, refl, arith}
use alert2ir.Python.Result.{
  Result, ok, ◌>>◌, raise_exc_if, raise_exc_if-false, validation_error, bind-ok, check-ok,
  passed-ok,
}
use alert2ir.Python.DateTime.{is_naive}
use alert2ir.Python.Text.{is_blank}
use alert2ir.Core.Models.{
  DetectionIdentity, SourceProvenance, Entity, EvidenceReference, CanonicalAlert,
  detection_post_init, source_post_init, entity_post_init, evidence_post_init, alert_post_init,
  require_non_empty, require_optional_non_empty,
}
use alert2ir.Application.Orchestrator.{construct}
use alert2ir.Api.Schemas.{
  DetectionIdentityRequest, SourceProvenanceRequest, EntityRequest, EvidenceReferenceRequest,
  CanonicalAlertRequest, check_texts, detection_to_domain, detection_from_domain, source_to_domain,
  source_from_domain, entity_to_domain, entity_from_domain, evidence_to_domain,
  evidence_from_domain, each, request_of, to_domain, from_domain,
}

-- the two checks of a value's constructor
checks_pass :
    (value : String) (optional : Option String) (first second : String)
    → check_texts value optional ≡ ok tt
    → (require_non_empty value first >> require_optional_non_empty optional second) ≡ ok tt
unfolding check_texts require_non_empty require_optional_non_empty
checks_pass value none first second h =
    let passed = raise_exc_if-false (is_blank value || false) _ h in
    let filled : is_blank value ≡ false = ground (arith, passed) in rw filled refl
checks_pass value (some other) first second h =
    let passed = raise_exc_if-false (is_blank value || is_blank other) _ h in
    let filled : is_blank value ≡ false = ground (arith, passed) in
    let other_filled : is_blank other ≡ false = ground (arith, passed) in
    rw (filled, other_filled) refl

-- a value that is copied field by field under a check, and copied back
copied-back {ℓ κ} :
    {A : Type ℓ} {B : Type κ} (check : Result (Unit {0})) (post : A → Result (Unit {0}))
    (copy : A → B) (back : B → A) (a : A) (b : B)
    → (check ≡ ok tt → post (back (copy a)) ≡ ok tt)
    → back (copy a) ≡ a
    → (check >> ok (copy a)) ≡ ok b
    → construct post (back b) ≡ ok a
copied-back check post copy back a b passes same h =
    let made : ok (copy a) ≡ ok b = check-ok check (ok (copy a)) b h in
    let copied : copy a ≡ b = cc in
    let good = passes (passed-ok check (ok (copy a)) b h) in rw (← copied) (rw good (rw same refl))

detection-to_domain :
    (d : DetectionIdentity) (r : DetectionIdentityRequest)
    → detection_from_domain d ≡ ok r
    → detection_to_domain r ≡ ok d
unfolding detection_from_domain detection_to_domain detection_post_init
detection-to_domain d r h =
    copied-back (check_texts d.identifier d.name) detection_post_init
      (λ x. record { identifier = x.identifier; name = x.name })
      (λ x. record { identifier = x.identifier; name = x.name }) d r
      (checks_pass d.identifier d.name "identifier must be non-empty" "name must be non-empty") refl
      h

source-to_domain :
    (s : SourceProvenance) (r : SourceProvenanceRequest)
    → source_from_domain s ≡ ok r
    → source_to_domain r ≡ ok s
unfolding source_from_domain source_to_domain source_post_init
source-to_domain s r h =
    copied-back (check_texts s.source s.source_alert_id) source_post_init
      (λ x. record { source = x.source; source_alert_id = x.source_alert_id })
      (λ x. record { source = x.source; source_alert_id = x.source_alert_id }) s r
      (checks_pass s.source s.source_alert_id "source must be non-empty"
        "source_alert_id must be non-empty")
      refl h

entity-to_domain :
    (e : Entity) (r : EntityRequest) → entity_from_domain e ≡ ok r → entity_to_domain r ≡ ok e
unfolding entity_from_domain entity_to_domain entity_post_init require_optional_non_empty
entity-to_domain e r h =
    copied-back (check_texts e.kind (some e.value)) entity_post_init
      (λ x. record { kind = x.kind; value = x.value })
      (λ x. record { kind = x.kind; value = x.value }) e r
      (checks_pass e.kind (some e.value) "kind must be non-empty" "value must be non-empty") refl h

evidence-to_domain :
    (e : EvidenceReference) (r : EvidenceReferenceRequest)
    → evidence_from_domain e ≡ ok r
    → evidence_to_domain r ≡ ok e
unfolding evidence_from_domain evidence_to_domain evidence_post_init
evidence-to_domain e r h =
    copied-back (check_texts e.reference e.kind) evidence_post_init
      (λ x. record { reference = x.reference; kind = x.kind })
      (λ x. record { reference = x.reference; kind = x.kind }) e r
      (checks_pass e.reference e.kind "reference must be non-empty" "kind must be non-empty") refl h

each-back {ℓ κ} :
    {A : Type ℓ} {B : Type κ} (f : A → Result B) (g : B → Result A)
    → ((x : A) (y : B) → f x ≡ ok y → g y ≡ ok x)
    → (xs : List A) (ys : List B) → each f xs ≡ ok ys
    → each g ys ≡ ok xs
unfolding each
each-back f g back [] ys h = let same : [] ≡ ys = cc in rw (← same) refl
each-back f g back (x ∷ xs) ys h =
    let (y, r1, h1) = bind-ok (f x) _ ys h in
    let (zs, r2, h2) = bind-ok (each f xs) (λ zs. ok (y ∷ zs)) ys h1 in
    let same : y ∷ zs ≡ ys = cc in rw (← same) (rw (back x y r1, each-back f g back xs zs r2) refl)

-- The request that `from_domain` makes of an alert, where it accepts the alert, stands for this alert:
-- `to_domain` gives it back.
pub from_domain-to_domain :
    (a : CanonicalAlert) (r : CanonicalAlertRequest) → from_domain a ≡ ok r → to_domain r ≡ ok a
unfolding from_domain to_domain alert_post_init
from_domain-to_domain a r h =
    let (detection, r1, h1) = bind-ok (detection_from_domain a.detection) _ r h in
    let (source, r2, h2) = bind-ok (source_from_domain a.source) _ r h1 in
    let (entities, r3, h3) = bind-ok (each entity_from_domain a.entities) _ r h2 in
    let (evidence, r4, h4) = bind-ok (each evidence_from_domain a.evidence) _ r h3 in
    let awake =
      raise_exc_if-false (is_naive a.detected_at) validation_error
        (passed-ok (raise_exc_if (is_naive a.detected_at) validation_error) _ r h4) in
    let h5 = check-ok (raise_exc_if (is_naive a.detected_at) validation_error) _ r h4 in
    let made : request_of a detection source entities evidence ≡ r = cc in
    rw (← made) (
      rw
        (
          detection-to_domain a.detection detection r1,
          source-to_domain a.source source r2,
          each-back entity_from_domain entity_to_domain entity-to_domain a.entities entities r3,
          each-back evidence_from_domain evidence_to_domain evidence-to_domain a.evidence evidence
              r4,
          awake,
        )
        refl)
