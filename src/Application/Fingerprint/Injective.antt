-- ===== src/Application/Fingerprint/Injective.antt =====
-- Alerts with one fingerprint document agree in all that the document covers.
use alert2ir.Prelude.{String, Option, none, some, List, [], ◌∷◌, ◌≡◌, refl}
use alert2ir.Python.DateTime.{instant}
use alert2ir.Core.Models.{
  CanonicalAlert, Entity, EvidenceReference, Severity, low, medium, high, critical,
}
use alert2ir.Core.Workflow.{severity_value}
use alert2ir.Application.Fingerprint.{
  optional_text, entity_elements, evidence_elements, canonical_fingerprint_document,
}

optional_text-injective : (x y : Option String) → optional_text x ≡ optional_text y → x ≡ y
optional_text-injective none none h = refl
optional_text-injective none (some s) h = absurd (cc)
optional_text-injective (some s) none h = absurd (cc)
optional_text-injective (some s) (some t) h = cc

entities-injective : (x y : List Entity) → entity_elements x ≡ entity_elements y → x ≡ y
unfolding entity_elements
entities-injective [] [] h = refl
entities-injective [] (e ∷ es) h = absurd (cc)
entities-injective (e ∷ es) [] h = absurd (cc)
entities-injective (e ∷ es) (f ∷ fs) h =
    let kinds : e.kind ≡ f.kind = cc in
    let values : e.value ≡ f.value = cc in
    let same : e ≡ f = λ i. record { kind = kinds i; value = values i } in
    let rest = entities-injective es fs (cc) in cc

evidence-injective :
    (x y : List EvidenceReference) → evidence_elements x ≡ evidence_elements y → x ≡ y
unfolding evidence_elements
evidence-injective [] [] h = refl
evidence-injective [] (e ∷ es) h = absurd (cc)
evidence-injective (e ∷ es) [] h = absurd (cc)
evidence-injective (e ∷ es) (f ∷ fs) h =
    let references : e.reference ≡ f.reference = cc in
    let kinds = optional_text-injective e.kind f.kind (cc) in
    let same : e ≡ f = λ i. record { reference = references i; kind = kinds i } in
    let rest = evidence-injective es fs (cc) in cc

severity-injective : (x y : Severity) → severity_value x ≡ severity_value y → x ≡ y
severity-injective low low h = refl
severity-injective low medium h = absurd (cc)
severity-injective low high h = absurd (cc)
severity-injective low critical h = absurd (cc)
severity-injective medium low h = absurd (cc)
severity-injective medium medium h = refl
severity-injective medium high h = absurd (cc)
severity-injective medium critical h = absurd (cc)
severity-injective high low h = absurd (cc)
severity-injective high medium h = absurd (cc)
severity-injective high high h = refl
severity-injective high critical h = absurd (cc)
severity-injective critical low h = absurd (cc)
severity-injective critical medium h = absurd (cc)
severity-injective critical high h = absurd (cc)
severity-injective critical critical h = refl

-- the parts of an alert that the document covers
pub record SameRequest (a b : CanonicalAlert) : Type 0 where
  pub detection : a.detection ≡ b.detection
  pub detected_at : instant a.detected_at ≡ instant b.detected_at
  pub source : a.source ≡ b.source
  pub entities : a.entities ≡ b.entities
  pub severity : a.severity ≡ b.severity
  pub evidence : a.evidence ≡ b.evidence

-- Two alerts with the same fingerprint document agree in detection, instant of detection, source,
-- entities, severity and evidence.
pub document-SameRequest :
    (a b : CanonicalAlert)
    → canonical_fingerprint_document a ≡ canonical_fingerprint_document b
    → SameRequest a b
unfolding canonical_fingerprint_document
document-SameRequest a b h =
    let identifier : a.detection.identifier ≡ b.detection.identifier = cc in
    let name = optional_text-injective a.detection.name b.detection.name (cc) in
    let source : a.source.source ≡ b.source.source = cc in
    let alert_id = optional_text-injective a.source.source_alert_id b.source.source_alert_id (cc) in
    record {
      detection = λ i. record { identifier = identifier i; name = name i };
      detected_at = cc;
      source = λ i. record { source = source i; source_alert_id = alert_id i };
      entities = entities-injective a.entities b.entities (cc);
      severity = severity-injective a.severity b.severity (cc);
      evidence = evidence-injective a.evidence b.evidence (cc);
    }
