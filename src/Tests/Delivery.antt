-- ===== src/Tests/Delivery.antt =====
-- The results on the alert action, at concrete inputs.
use alert2ir.Delivery.Deliver.Progress.{FailsRetryably, deliver-success}
use alert2ir.Delivery.Deliver.{outcome_of}
use alert2ir.Delivery.Agreement.{disposition_for}
use alert2ir.Prelude.{ℕ, ◌<◌, sym, subst}
use alert2ir.Python.Result.{connection_failure}
use alert2ir.Tests.Gateway.{environment, completed_result}
use alert2ir.Prelude.{
  ◌≤◌, String, Option, none, some, ◌≡◌, refl, ◌↔◌, if◌then◌else◌, arith, ◌==◌, string_equality,
}
use alert2ir.Python.Result.{ok}
use alert2ir.Python.Text.{is_blank, is_space}
use alert2ir.Python.Json.{end, member, lookup, Members, text}
use alert2ir.Python.Decimal.{decimal_text, digits_before}
use alert2ir.Python.Pattern.{
  is_timestamp, is_decimal, decimal_value, decimal_from, lower, strip, drop_spaces,
  drop_last_spaces, drop_dot, translate, is_hostname, is_host_from,
}
use alert2ir.Splunk.Auth.{verify_signature, epoch_seconds, distance}
use alert2ir.Splunk.App
use alert2ir.Splunk.Mapping.{normalize_hostname}
use alert2ir.Delivery.Signature.{signature_header, validate_secret}
use alert2ir.Delivery.Classification
use alert2ir.Delivery.Deliver.{
  Environment, DeliveryOutcome, Post, prepare_post, timestamp_from_clock, deliver,
}
use alert2ir.Delivery.Deliver.Settled.{disposition_at}
use alert2ir.Delivery.Deliver.Returns.{Responsive, deliver-returns}
use alert2ir.Delivery.Deliver.Authentic.{prepare_post-verified}
use alert2ir.Delivery.Finding.{
  ActionConfiguration, configure, validate_adapter_url, canonical_uuid, require_string,
  check_sigma_level, check_channel, validate_hostnames, normalize_optional_name,
  normalize_for_comparison, compare_names, validate_event_time, decimal_integer,
  optional_result_value, sysmon_channel,
}
use alert2ir.Delivery.Finding.Hostnames.{hostnames_alike}
use alert2ir.Delivery.Build.{Finding, build_finding, optional_values}
use alert2ir.Delivery.Build.Validated.{Accepted, build_finding-Accepted}
use alert2ir.Tests.Gateway.{
  completed_result, library, library-Documented, adapter_response, body, clock_time, job,
  checks_passed,
}

hostnames_alike_example :
    (validate_hostnames (some "WEB-1.") (some " web-1") ≡ ok tt)
    ↔ ((name : String) × (normalize_hostname (some "WEB-1.") (some " web-1") ≡ ok name))
hostnames_alike_example = hostnames_alike (some "WEB-1.") (some " web-1")

abbrev pub values : Members
values = member "adapter_url" (text "https://gateway/v1/splunk/findings") (
    member "secret_file" (text "/etc/secret") (
      member "rule_id" (text "bbbb") (
        member "rule_title" (text "A rule")
          (member "sigma_level" (text "high") (member "channel" (text sysmon_channel) end)))))

abbrev config : ActionConfiguration
config = record {
  adapter_url = "https://gateway/v1/splunk/findings";
  secret_file = "/etc/secret";
  rule_id = "aaaa";
  rule_title = "A rule";
  sigma_level = "high";
  channel = sysmon_channel;
}

abbrev pub row : String → Option String
row name =
    if name == "_time"
    then some "100"
    else if name == "Computer"
    then some "WEB-1."
    else if name == "EventCode"
    then some "011"
    else if name == "RecordID"
    then some "5"
    else none

abbrev finding : Finding
finding = record {
  rule_id = "aaaa";
  rule_title = "A rule";
  sigma_level = "high";
  event = record {
    detected_at = "100";
    channel = sysmon_channel;
    event_code = "11";
    record_id = "5";
    computer = some "WEB-1.";
    host = none;
    values = record {
      source = none;
      sourcetype = none;
      process_guid = none;
      image = none;
      parent_image = none;
      target_filename = none;
    };
  };
}

configured : configure library (lookup values) ≡ ok config
unfolding configure validate_adapter_url canonical_uuid require_string check_sigma_level
    check_channel is_blank is_space lookup
configured = refl

finding_built : build_finding library (λ time. none) row config ≡ ok finding
unfolding build_finding optional_values optional_result_value require_string is_blank is_space
    validate_hostnames normalize_optional_name normalize_for_comparison compare_names strip
    drop_spaces drop_last_spaces drop_dot is_hostname is_host_from lower translate
    validate_event_time decimal_integer is_decimal decimal_value decimal_from decimal_text
    digits_before
finding_built = refl

build_finding-Accepted_example : Accepted library finding
build_finding-Accepted_example =
    build_finding-Accepted library (λ time. none) row (lookup values) config finding
      library-Documented configured finding_built

abbrev first_post : Post
first_post = record {
  url = "https://gateway/v1/splunk/findings";
  body = body;
  timestamp = "100";
  signature = "v1=0123456789abcdef0123456789abcdef0123456789abcdef0123456789abcdef";
}

post_prepared : prepare_post library job (some 100) ≡ ok first_post
unfolding prepare_post timestamp_from_clock signature_header validate_secret is_timestamp
    decimal_text digits_before
post_prepared = refl

seconds_near : distance (epoch_seconds clock_time) 100 ≤ 300
unfolding epoch_seconds
seconds_near = omega arith

prepare_post-verified_example :
    verify_signature library job.secret
      (some first_post.timestamp)
      (some first_post.signature)
      first_post.body
      clock_time
      300
    ≡ ok tt
prepare_post-verified_example =
    prepare_post-verified library job 100 first_post clock_time 300 library-Documented post_prepared
      refl seconds_near

abbrev pub answering : Environment
answering = record { transport = λ n p. ok adapter_response; clock = λ n. some 100 }

answers : Responsive library job answering
unfolding disposition_at prepare_post timestamp_from_clock signature_header validate_secret
    is_timestamp decimal_text digits_before Classification.disposition_of
    Classification.classify_adapter_response Classification.bounded_response_object
    Classification.classify_body Classification.find_contract Classification.contract_at
    Classification.contract_of App.result_json lookup
answers n = (_, refl)

deliver-returns_example : (o : DeliveryOutcome) × ((deliver library job answering).answer ≡ ok o)
deliver-returns_example = deliver-returns library job answering checks_passed answers

second_answered :
    disposition_at library job environment 2 ≡ ok (disposition_for library completed_result)
unfolding disposition_at prepare_post timestamp_from_clock signature_header validate_secret
    is_timestamp decimal_text digits_before Classification.disposition_of
    Classification.classify_adapter_response Classification.bounded_response_object
    Classification.classify_body Classification.find_contract Classification.contract_at
    Classification.contract_of Classification.apply_contract Classification.bounded_processing_id
    Classification.bounded_error_code App.result_json App.adapter_status App.status_of lookup
second_answered = refl

first_failed : FailsRetryably library job environment 1
unfolding disposition_at prepare_post timestamp_from_clock signature_header validate_secret
    is_timestamp decimal_text digits_before Classification.disposition_of
    Classification.transient_exception_disposition
first_failed = (Classification.transient_exception_disposition connection_failure, refl, refl, refl)

earlier_failed : (i : ℕ) → 1 ≤ i → i < 2 → FailsRetryably library job environment i
earlier_failed i first before =
    let one : i ≡ 1 = omega (arith, first, before) in
    subst (FailsRetryably library job environment) (sym one) first_failed

deliver-success_example :
    (deliver library job environment).answer
    ≡ ok (outcome_of (disposition_for library completed_result) 2)
deliver-success_example =
    deliver-success library job environment 2 (disposition_for library completed_result)
      checks_passed (omega arith) (omega arith) earlier_failed second_answered refl
