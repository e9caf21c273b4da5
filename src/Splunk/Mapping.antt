-- ===== src/Splunk/Mapping.antt =====
-- src/alert2ir/adapters/splunk/mapping.py and idempotency.py: the canonical alert of a finding. The
-- time that `normalize_timestamp` reads, and the SHA-256 of the identity document, are parameters.
pub mod Faithful
use Prim.Native.String.{◌++◌}
use alert2ir.Prelude.{
  ℕ, String, Option, none, some, List, [], ◌∷◌, Bool, true, false, not, ltb, ◌==◌, string_equality,
}
use alert2ir.Python.Result.{Result, ok, err, ◌>>=◌, ◌>>◌, raise_if, value_error}
use alert2ir.Python.DateTime.{DateTime, is_naive, instant}
use alert2ir.Python.Text.{codes, text_length}
use alert2ir.Python.Pattern.{is_hostname, is_ascii, lower, strip, drop_dot}
use alert2ir.Python.Decimal.{decimal_text}
use alert2ir.Python.Library.{Library}
use alert2ir.Python.Json.{Value}
use alert2ir.Core.Models
use alert2ir.Core.Models.{
  Severity, DetectionIdentity, SourceProvenance, Entity, EvidenceReference, CanonicalAlert,
  detection_post_init, source_post_init, entity_post_init, evidence_post_init, alert_post_init,
}
use alert2ir.Application.Orchestrator.{construct}
use alert2ir.Core.Workflow.{severity_value}
use alert2ir.Splunk.Models.{
  SigmaLevel, SplunkFinding, NormalizedSplunkFinding, CanonicalizedFinding, validate_finding,
}

unfoldable pub normalize_one_hostname : String → Result String
unfolding strip drop_dot is_hostname lower
normalize_one_hostname value = do
  let normalized = drop_dot (strip value)
  raise_if (normalized == "") "hostname must be non-empty"
  raise_if (ltb 255 (text_length normalized)) "hostname exceeds the supported length"
  raise_if (not (is_ascii normalized)) "hostname must contain only ASCII characters"
  raise_if (not (is_hostname (codes normalized))) "hostname contains unsupported characters"
  ok (lower normalized)

unfoldable pub normalize_optional : Option String → Result (Option String)
unfolding normalize_one_hostname
normalize_optional none = ok none
normalize_optional (some value) = do normalized ← normalize_one_hostname value; ok (some normalized)

-- the tests that follow the normalization
unfoldable pub choose_hostname : Option String → Option String → Result String
choose_hostname (some computer) (some host) = do
  raise_if (not (computer == host)) "Computer and host disagree after normalization"
  ok computer
choose_hostname (some computer) none = ok computer
choose_hostname none (some host) = ok host
choose_hostname none none = err (value_error "Computer or host is required")

unfoldable pub normalize_hostname : Option String → Option String → Result String
unfolding normalize_optional choose_hostname
normalize_hostname computer host = do
  normalized_computer ← normalize_optional computer
  normalized_host ← normalize_optional host
  choose_hostname normalized_computer normalized_host

-- _SEVERITY_BY_SIGMA_LEVEL, which has every level as a key
abbrev pub normalize_sigma_severity : SigmaLevel → Severity
normalize_sigma_severity SigmaLevel.informational = Severity.low
normalize_sigma_severity SigmaLevel.low = Severity.low
normalize_sigma_severity SigmaLevel.medium = Severity.medium
normalize_sigma_severity SigmaLevel.high = Severity.high
normalize_sigma_severity SigmaLevel.critical = Severity.critical

abbrev pub sigma_value : SigmaLevel → String
sigma_value SigmaLevel.informational = "informational"
sigma_value SigmaLevel.low = "low"
sigma_value SigmaLevel.medium = "medium"
sigma_value SigmaLevel.high = "high"
sigma_value SigmaLevel.critical = "critical"

-- _evidence
unfoldable pub evidence : String → String → Result EvidenceReference
unfolding evidence_post_init
evidence reference kind = do
  raise_if (ltb 1_024 (text_length reference)) (kind ++ " evidence exceeds the supported length")
  construct evidence_post_init (record { reference = reference; kind = some kind })

-- an item of `optional_evidence`, before those that follow
unfoldable pub optional_evidence :
    Option String → String → Result (List EvidenceReference) → Result (List EvidenceReference)
unfolding evidence
optional_evidence none kind rest = rest
optional_evidence (some reference) kind rest = do
  item ← evidence reference kind
  items ← rest
  ok (item ∷ items)

abbrev pub policy_reference : SigmaLevel → Severity → String
policy_reference level severity =
    "alert2ir.splunk.sigma-level.v1:" ++ (sigma_value level ++ ("->" ++ severity_value severity))

abbrev pub event_reference : Library → NormalizedSplunkFinding → String
event_reference l finding =
    "windows-event://"
    ++ (l.quote finding.computer
        ++ ("/"
            ++ (l.quote finding.channel
                ++ ("/"
                    ++ (decimal_text finding.record_id
                        ++ ("?event_code=" ++ decimal_text finding.event_code))))))

unfoldable pub build_evidence :
    Library → NormalizedSplunkFinding → Severity → Result (List EvidenceReference)
unfolding evidence optional_evidence
build_evidence l finding severity = do
  policy ← evidence (policy_reference finding.sigma_level severity) "normalization-policy"
  event ← evidence (event_reference l finding) "source-event"
  rest ← optional_evidence finding.process_guid "process-guid" (
      optional_evidence finding.image "process-image" (
        optional_evidence finding.parent_image "parent-process-image"
          (optional_evidence finding.target_filename "target-file" (ok []))))
  ok (policy ∷ event ∷ rest)

-- CanonicalAlert(...), of values whose own constructors check them
unfoldable pub to_canonical_alert :
    Library → NormalizedSplunkFinding → String → Result CanonicalAlert
unfolding build_evidence detection_post_init source_post_init entity_post_init alert_post_init
to_canonical_alert l finding key = do
  detection ←
      construct detection_post_init
        (record { identifier = finding.rule_id; name = some finding.rule_title })
  source ← construct source_post_init (record { source = "splunk"; source_alert_id = some key })
  host ← construct entity_post_init (record { kind = "host"; value = finding.computer })
  items ← build_evidence l finding (normalize_sigma_severity finding.sigma_level)
  construct alert_post_init (record {
    detection = detection;
    detected_at = finding.detected_at;
    source = source;
    entities = host ∷ [];
    severity = normalize_sigma_severity finding.sigma_level;
    evidence = items;
  })

-- finding_identity_document; the time stands for its UTC text, to the microsecond
pub record IdentityDocument : Type 0 where
  pub detection_id : String
  pub channel : String
  pub computer : String
  pub detected_at : ℕ
  pub event_code : ℕ
  pub record_id : ℕ

unfoldable pub finding_identity_document : NormalizedSplunkFinding → Result IdentityDocument
finding_identity_document finding = do
  raise_if (is_naive finding.detected_at) "normalized detected_at must be timezone-aware"
  ok (record {
    detection_id = finding.rule_id;
    channel = finding.channel;
    computer = finding.computer;
    detected_at = instant finding.detected_at;
    event_code = finding.event_code;
    record_id = finding.record_id;
  })

abbrev pub normalized_of : SplunkFinding → DateTime → String → NormalizedSplunkFinding
normalized_of finding detected_at computer = record {
  rule_id = finding.detection.rule_id;
  rule_title = finding.detection.rule_title;
  sigma_level = finding.detection.sigma_level;
  detected_at = detected_at;
  computer = computer;
  channel = finding.event.channel;
  event_code = finding.event.event_code;
  record_id = finding.event.record_id;
  source = finding.event.source;
  sourcetype = finding.event.sourcetype;
  process_guid = finding.event.process_guid;
  image = finding.event.image;
  parent_image = finding.event.parent_image;
  target_filename = finding.event.target_filename;
}

module _ (l : Library) (read_time : Value → Result DateTime)
    (digest : IdentityDocument → String) where
  unfoldable pub idempotency_key : NormalizedSplunkFinding → Result String
  unfolding finding_identity_document
  idempotency_key finding = do
    document ← finding_identity_document finding
    ok ("splunk-v1-" ++ digest document)

  unfoldable pub normalize_splunk_finding : SplunkFinding → Result NormalizedSplunkFinding
  unfolding normalize_hostname
  normalize_splunk_finding finding = do
    detected_at ← read_time finding.event.detected_at
    computer ← normalize_hostname finding.event.computer finding.event.host
    ok (normalized_of finding detected_at computer)

  unfoldable pub canonicalize : SplunkFinding → Result CanonicalizedFinding
  unfolding idempotency_key normalize_splunk_finding to_canonical_alert
  canonicalize finding = do
    normalized ← normalize_splunk_finding finding
    key ← idempotency_key normalized
    alert ← to_canonical_alert l normalized key
    ok (record { alert = alert; idempotency_key = key })

  -- what the route makes of the JSON of a body
  unfoldable pub read_finding : Value → Result CanonicalizedFinding
  unfolding validate_finding canonicalize
  read_finding decoded = do finding ← validate_finding l decoded; canonicalize finding
