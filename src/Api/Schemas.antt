-- ===== src/Api/Schemas.antt =====
-- src/alert2ir/api/schemas.py: the alert of a request, and what a response shows of a record.
pub mod RoundTrip
use alert2ir.Prelude.{String, Option, none, some, List, [], ◌∷◌, Bool, true, false, ◌||◌}
use alert2ir.Python.Result.{Result, ok, err, ◌>>=◌, ◌>>◌, raise_exc_if, validation_error}
use alert2ir.Python.DateTime.{DateTime, is_naive}
use alert2ir.Python.Text.{is_blank}
use alert2ir.Python.Optional.{when_some}
use alert2ir.Core.Models.{
  Severity, DetectionIdentity, SourceProvenance, Entity, EvidenceReference, CanonicalAlert,
  detection_post_init, source_post_init, entity_post_init, evidence_post_init, alert_post_init,
}
use alert2ir.Application.Orchestrator.{construct}

pub record DetectionIdentityRequest : Type 0 where
  pub identifier : String
  pub name : Option String

pub record SourceProvenanceRequest : Type 0 where
  pub source : String
  pub source_alert_id : Option String

pub record EntityRequest : Type 0 where
  pub kind : String
  pub value : String

pub record EvidenceReferenceRequest : Type 0 where
  pub reference : String
  pub kind : Option String

pub record CanonicalAlertRequest : Type 0 where
  pub detection : DetectionIdentityRequest
  pub detected_at : DateTime
  pub source : SourceProvenanceRequest
  pub entities : List EntityRequest
  pub severity : Severity
  pub evidence : List EvidenceReferenceRequest

-- the constraint of two fields, NonEmptyString and NonEmptyString | None
unfoldable pub check_texts : String → Option String → Result (Unit {0})
check_texts value optional =
    raise_exc_if (is_blank value || when_some optional is_blank) validation_error

unfoldable pub detection_to_domain : DetectionIdentityRequest → Result DetectionIdentity
unfolding detection_post_init
detection_to_domain r =
    construct detection_post_init (record { identifier = r.identifier; name = r.name })

unfoldable pub detection_from_domain : DetectionIdentity → Result DetectionIdentityRequest
unfolding check_texts
detection_from_domain d = do
  check_texts d.identifier d.name
  ok (record { identifier = d.identifier; name = d.name })

unfoldable pub source_to_domain : SourceProvenanceRequest → Result SourceProvenance
unfolding source_post_init
source_to_domain r =
    construct source_post_init (record { source = r.source; source_alert_id = r.source_alert_id })

unfoldable pub source_from_domain : SourceProvenance → Result SourceProvenanceRequest
unfolding check_texts
source_from_domain s = do
  check_texts s.source s.source_alert_id
  ok (record { source = s.source; source_alert_id = s.source_alert_id })

unfoldable pub entity_to_domain : EntityRequest → Result Entity
unfolding entity_post_init
entity_to_domain r = construct entity_post_init (record { kind = r.kind; value = r.value })

unfoldable pub entity_from_domain : Entity → Result EntityRequest
unfolding check_texts
entity_from_domain e = do
  check_texts e.kind (some e.value)
  ok (record { kind = e.kind; value = e.value })

unfoldable pub evidence_to_domain : EvidenceReferenceRequest → Result EvidenceReference
unfolding evidence_post_init
evidence_to_domain r =
    construct evidence_post_init (record { reference = r.reference; kind = r.kind })

unfoldable pub evidence_from_domain : EvidenceReference → Result EvidenceReferenceRequest
unfolding check_texts
evidence_from_domain e = do
  check_texts e.reference e.kind
  ok (record { reference = e.reference; kind = e.kind })

-- a tuple of the results for a tuple
unfoldable pub each {ℓ κ} : {A : Type ℓ} {B : Type κ} → (A → Result B) → List A → Result (List B)
each f [] = ok []
each f (x ∷ xs) = do y ← f x; ys ← each f xs; ok (y ∷ ys)

unfoldable pub to_domain : CanonicalAlertRequest → Result CanonicalAlert
unfolding detection_to_domain source_to_domain entity_to_domain evidence_to_domain each
    alert_post_init
to_domain r = do
  detection ← detection_to_domain r.detection
  source ← source_to_domain r.source
  entities ← each entity_to_domain r.entities
  evidence ← each evidence_to_domain r.evidence
  construct alert_post_init (record {
    detection = detection;
    detected_at = r.detected_at;
    source = source;
    entities = entities;
    severity = r.severity;
    evidence = evidence;
  })

abbrev pub request_of :
    CanonicalAlert
    → DetectionIdentityRequest
    → SourceProvenanceRequest
    → List EntityRequest
    → List EvidenceReferenceRequest
    → CanonicalAlertRequest
request_of a detection source entities evidence = record {
  detection = detection;
  detected_at = a.detected_at;
  source = source;
  entities = entities;
  severity = a.severity;
  evidence = evidence;
}

unfoldable pub from_domain : CanonicalAlert → Result CanonicalAlertRequest
unfolding detection_from_domain source_from_domain entity_from_domain evidence_from_domain each
from_domain a = do
  detection ← detection_from_domain a.detection
  source ← source_from_domain a.source
  entities ← each entity_from_domain a.entities
  evidence ← each evidence_from_domain a.evidence
  raise_exc_if (is_naive a.detected_at) validation_error
  ok (request_of a detection source entities evidence)
