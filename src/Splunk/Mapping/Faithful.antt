-- ===== src/Splunk/Mapping/Faithful.antt =====
-- What the canonical alert of a finding takes from the finding.
use Prim.Native.String.{◌++◌}
use alert2ir.Prelude.{
  ◌≤◌, String, Option, none, some, List, [], ◌∷◌, false, ltb, ◌≡◌, refl, sym, subst, arith,
}
use alert2ir.Python.Result.{Result, ok, raise_if, raise_if-false, bind-ok, check-ok, passed-ok}
use alert2ir.Python.DateTime.{DateTime, is_naive}
use alert2ir.Python.Text.{text_length}
use alert2ir.Python.Library.{Library}
use alert2ir.Python.Json.{Value}
use alert2ir.Application.Orchestrator.{construct}
use alert2ir.Core.Models.{
  Severity, DetectionIdentity, SourceProvenance, Entity, EvidenceReference, CanonicalAlert,
  detection_post_init, source_post_init, entity_post_init, evidence_post_init, alert_post_init,
}
use alert2ir.Splunk.Models.{SplunkFinding, NormalizedSplunkFinding, CanonicalizedFinding}
use alert2ir.Splunk.Mapping.{
  normalize_sigma_severity, normalize_hostname, evidence, optional_evidence, build_evidence,
  policy_reference, event_reference, to_canonical_alert, IdentityDocument, idempotency_key,
  normalize_splunk_finding, normalized_of, normalized_of, canonicalize,
}

-- every reference is at most 1,024 characters long
abbrev pub AreBounded : List EvidenceReference → Type 0
AreBounded [] = Unit {0}
AreBounded (item ∷ items) = (text_length item.reference ≤ 1_024) × AreBounded items

pub construct-same {ℓ} :
    {A : Type ℓ} (post_init : A → Result (Unit {0})) (a b : A)
    → construct post_init a ≡ ok b
    → a ≡ b
construct-same post_init a b h = let got = check-ok (post_init a) (ok a) b h in cc

evidence-bounded :
    (reference kind : String) (item : EvidenceReference)
    → evidence reference kind ≡ ok item
    → text_length item.reference ≤ 1_024
unfolding evidence
evidence-bounded reference kind item h =
    let long =
      raise_if (ltb 1_024 (text_length reference))
        (kind ++ " evidence exceeds the supported length") in
    let made : EvidenceReference = record { reference = reference; kind = some kind } in
    let fits =
      raise_if-false (ltb 1_024 (text_length reference)) _
        (passed-ok long (construct evidence_post_init made) item h) in
    let same = construct-same evidence_post_init made item (check-ok long _ item h) in
    subst (λ e. text_length e.reference ≤ 1_024) same (ground (arith, fits))

optional_evidence-AreBounded :
    (reference : Option String) (kind : String) (rest : Result (List EvidenceReference))
    (items : List EvidenceReference)
    → ((others : List EvidenceReference) → rest ≡ ok others → AreBounded others)
    → optional_evidence reference kind rest ≡ ok items
    → AreBounded items
unfolding optional_evidence
optional_evidence-AreBounded none kind rest items next h = next items h
optional_evidence-AreBounded (some reference) kind rest items next h =
    let (item, r1, h1) = bind-ok (evidence reference kind) _ items h in
    let (others, r2, h2) = bind-ok rest (λ others. ok (item ∷ others)) items h1 in
    let made : item ∷ others ≡ items = cc in
    subst AreBounded made (evidence-bounded reference kind item r1, next others r2)

no_evidence-AreBounded : (others : List EvidenceReference) → ok [] ≡ ok others → AreBounded others
no_evidence-AreBounded others h = let same : [] ≡ others = cc in subst AreBounded same tt

build_evidence-AreBounded :
    (l : Library) (finding : NormalizedSplunkFinding) (severity : Severity)
    (items : List EvidenceReference)
    → build_evidence l finding severity ≡ ok items
    → AreBounded items
unfolding build_evidence
build_evidence-AreBounded l finding severity items h =
    let (policy, r1, h1) =
      bind-ok (evidence (policy_reference finding.sigma_level severity) "normalization-policy") _
        items h in
    let (event, r2, h2) =
      bind-ok (evidence (event_reference l finding) "source-event") _ items h1 in
    let (rest, r3, h3) = bind-ok _ (λ rest. ok (policy ∷ event ∷ rest)) items h2 in
    let made : policy ∷ event ∷ rest ≡ items = cc in
    let others : AreBounded rest =
      optional_evidence-AreBounded finding.process_guid _ _ rest
        (λ a. optional_evidence-AreBounded finding.image _ _ a (λ b.
          optional_evidence-AreBounded finding.parent_image _ _ b (λ c.
            optional_evidence-AreBounded finding.target_filename _ _ c no_evidence-AreBounded)))
        r3 in
    subst AreBounded made (
      evidence-bounded _ "normalization-policy" policy r1,
      (evidence-bounded _ "source-event" event r2, others),
    )

-- an alert that stands for a finding under a key
pub record Represents (finding : SplunkFinding) (key : String) (alert : CanonicalAlert)
    : Type 0 where
  pub detection : alert.detection ≡ (record {
    identifier = finding.detection.rule_id;
    name = some finding.detection.rule_title;
  })
  pub source : alert.source ≡ (record { source = "splunk"; source_alert_id = some key })
  pub host :
      (name : String) × (normalize_hostname finding.event.computer finding.event.host ≡ ok name)
      × (alert.entities ≡ (record { kind = "host"; value = name }) ∷ [])
  pub severity : alert.severity ≡ normalize_sigma_severity finding.detection.sigma_level
  pub evidence : AreBounded alert.evidence
  pub time : is_naive alert.detected_at ≡ false

-- the part of an alert that `to_canonical_alert` decides
record Converted (n : NormalizedSplunkFinding) (key : String) (alert : CanonicalAlert)
    : Type 0 where
  detection : alert.detection ≡ (record { identifier = n.rule_id; name = some n.rule_title })
  source : alert.source ≡ (record { source = "splunk"; source_alert_id = some key })
  host : alert.entities ≡ (record { kind = "host"; value = n.computer }) ∷ []
  severity : alert.severity ≡ normalize_sigma_severity n.sigma_level
  evidence : AreBounded alert.evidence
  time : is_naive alert.detected_at ≡ false

to_canonical_alert-Converted :
    (l : Library) (n : NormalizedSplunkFinding) (key : String) (alert : CanonicalAlert)
    → to_canonical_alert l n key ≡ ok alert
    → Converted n key alert
unfolding to_canonical_alert alert_post_init
to_canonical_alert-Converted l n key alert h =
    let detection : DetectionIdentity = record {
      identifier = n.rule_id;
      name = some n.rule_title;
    } in
    let source : SourceProvenance = record { source = "splunk"; source_alert_id = some key } in
    let host : Entity = record { kind = "host"; value = n.computer } in
    let severity = normalize_sigma_severity n.sigma_level in
    let (detection', r1, h1) = bind-ok (construct detection_post_init detection) _ alert h in
    let (source', r2, h2) = bind-ok (construct source_post_init source) _ alert h1 in
    let (host', r3, h3) = bind-ok (construct entity_post_init host) _ alert h2 in
    let (items, r4, h4) = bind-ok (build_evidence l n severity) _ alert h3 in
    let built : CanonicalAlert = record {
      detection = detection';
      detected_at = n.detected_at;
      source = source';
      entities = host' ∷ [];
      severity = severity;
      evidence = items;
    } in
    let awake =
      raise_if-false (is_naive n.detected_at) _
        (passed-ok (alert_post_init built) (ok built) alert h4) in
    let same_host = construct-same entity_post_init host host' r3 in
    subst (Converted n key) (construct-same alert_post_init built alert h4) (record {
      detection = sym (construct-same detection_post_init detection detection' r1);
      source = sym (construct-same source_post_init source source' r2);
      host = rw (← same_host) refl;
      severity = refl;
      evidence = build_evidence-AreBounded l n severity items r4;
      time = awake;
    })

module _ (l : Library) (read_time : Value → Result DateTime)
    (digest : IdentityDocument → String) where
  -- The alert that canonicalize returns for a finding carries the rule, the source splunk with the
  -- idempotency key, the one host that the Computer and the host normalize to, the severity of the
  -- Sigma level, evidence of at most 1,024 characters each, and an aware time.
  pub canonicalize-Represents :
      (finding : SplunkFinding) (c : CanonicalizedFinding)
      → canonicalize l read_time digest finding ≡ ok c
      → Represents finding c.idempotency_key c.alert
  unfolding canonicalize normalize_splunk_finding
  canonicalize-Represents finding c h =
      let (n, r1, h1) = bind-ok (normalize_splunk_finding l read_time digest finding) _ c h in
      let (key, r2, h2) = bind-ok (idempotency_key l read_time digest n) _ c h1 in
      let (alert, r3, h3) = bind-ok (to_canonical_alert l n key) _ c h2 in
      let (time, s1, g1) = bind-ok (read_time finding.event.detected_at) _ n r1 in
      let (name, s2, g2) =
        bind-ok (normalize_hostname finding.event.computer finding.event.host) _ n g1 in
      let normalized : normalized_of finding time name ≡ n = cc in
      let made : CanonicalizedFinding = record { alert = alert; idempotency_key = key } in
      let same : made ≡ c = cc in
      let converted =
        subst (λ m. Converted m key alert) (sym normalized)
          (to_canonical_alert-Converted l n key alert r3) in
      subst (λ x. Represents finding x.idempotency_key x.alert) same
        (record {
          detection = converted.detection;
          source = converted.source;
          host = (name, s2, converted.host);
          severity = converted.severity;
          evidence = converted.evidence;
          time = converted.time;
        })
