-- ===== src/Tests/Execution.antt =====
-- The results on a run of the alert action, and on the mapping of a finding, at concrete inputs.
use alert2ir.Tests.Gateway.{completed_result}
use alert2ir.Python.Library.{Library}
use alert2ir.Python.DateTime.{DateTime, aware}
use alert2ir.Core.Models.{Severity}
use alert2ir.Core.Models.{
  detection_post_init, source_post_init, entity_post_init, evidence_post_init, alert_post_init,
  require_non_empty, require_optional_non_empty,
}
use alert2ir.Splunk.Models
use alert2ir.Splunk.Models.{SplunkFinding, CanonicalizedFinding}
use alert2ir.Splunk.Mapping.{
  IdentityDocument, canonicalize, normalize_one_hostname, normalize_optional, choose_hostname,
  evidence, optional_evidence, build_evidence, to_canonical_alert, finding_identity_document,
  idempotency_key, normalize_splunk_finding,
}
use alert2ir.Splunk.Mapping.Faithful.{Represents, canonicalize-Represents}
use alert2ir.Delivery.Execute.{Host}
use alert2ir.Prelude.{
  nat_eq, [], ◌∷◌, String, none, some, ◌≡◌, refl, if◌then◌else◌, string_equality,
}
use alert2ir.Python.Result.{Result, ok}
use alert2ir.Python.Text.{length, is_blank, is_space}
use alert2ir.Python.Json.{end, member, object, Value, text}
use alert2ir.Python.Decimal.{decimal_text, digits_before}
use alert2ir.Python.Pattern.{
  lower, strip, drop_spaces, drop_last_spaces, drop_dot, translate, is_hostname, is_host_from,
}
use alert2ir.Splunk.App
use alert2ir.Splunk.Mapping.{normalize_hostname}
use alert2ir.Delivery.Classification
use alert2ir.Delivery.Finding.{sysmon_channel}
use alert2ir.Tests.Gateway.{completed_result, silent_library, thirty_two, library, body}
use alert2ir.Tests.Delivery.{values, row}

-- bytes of length one decode as the invocation, and all others as the result of the gateway
abbrev action_library : Library
action_library = record silent_library {
  parse_json = λ bytes.
      if nat_eq (length bytes) 1
      then some (
          object (
            member "configuration" (object values)
              (member "results_file" (text "/tmp/results") end)))
      else some (object (App.result_json silent_library completed_result));
}

abbrev host : Host
host = record {
  read_single_result = λ path. ok row;
  read_file = λ path. some thirty_two;
  dump_json = λ value. some body;
  time_error = λ time. none;
}

abbrev received : SplunkFinding
received = record {
  detection = record {
    rule_id = "aaaa";
    rule_title = "A rule";
    sigma_level = Models.SigmaLevel.high;
  };
  event = record {
    detected_at = text "100";
    computer = some "WEB-1.";
    host = none;
    channel = sysmon_channel;
    source = none;
    sourcetype = none;
    event_code = 11;
    record_id = 5;
    process_guid = none;
    image = some "image.exe";
    parent_image = none;
    target_filename = none;
  };
}

abbrev read_time : Value → Result DateTime
read_time value = ok (aware 100_000_000)

abbrev identity_digest : IdentityDocument → String
identity_digest document = "0001"

abbrev canonical : CanonicalizedFinding
canonical = record {
  alert = record {
    detection = record { identifier = "aaaa"; name = some "A rule" };
    detected_at = aware 100_000_000;
    source = record { source = "splunk"; source_alert_id = some "splunk-v1-0001" };
    entities = (record { kind = "host"; value = "web-1" }) ∷ [];
    severity = Severity.high;
    evidence =
        (record {
          reference = "alert2ir.splunk.sigma-level.v1:high->high";
          kind = some "normalization-policy";
        })
        ∷ (record {
          reference = "windows-event://web-1/Microsoft-Windows-Sysmon/Operational/5?event_code=11";
          kind = some "source-event";
        })
        ∷ (record { reference = "image.exe"; kind = some "process-image" })
        ∷ [];
  };
  idempotency_key = "splunk-v1-0001";
}

finding_canonicalized : canonicalize library read_time identity_digest received ≡ ok canonical
unfolding canonicalize normalize_splunk_finding idempotency_key finding_identity_document
    to_canonical_alert build_evidence optional_evidence evidence evidence_post_init entity_post_init
    source_post_init detection_post_init alert_post_init require_non_empty
    require_optional_non_empty normalize_hostname normalize_optional normalize_one_hostname
    choose_hostname strip drop_spaces drop_last_spaces drop_dot is_hostname is_host_from lower
    translate is_blank is_space decimal_text digits_before
finding_canonicalized = refl

canonicalize-Represents_example : Represents received canonical.idempotency_key canonical.alert
canonicalize-Represents_example =
    canonicalize-Represents library read_time identity_digest received canonical
      finding_canonicalized
