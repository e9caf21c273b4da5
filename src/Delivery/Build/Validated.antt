-- ===== src/Delivery/Build/Validated.antt =====
-- The gateway accepts the findings that the alert action builds, and reads the values it sent.
use alert2ir.Prelude.{
  ℕ, String, Option, none, some, false, not, ◌&&◌, ltb, leb, ◌≡◌, refl, subst, arith, Option-cases,
  inl, inr,
}
use alert2ir.Python.Result.{
  ok, err, raise_exc_if, raise_exc_if-false, bind-ok, check-ok, passed-ok, validation_error,
  action_input_error,
}
use alert2ir.Python.Optional.{is_none}
use alert2ir.Python.Text.{text_length}
use alert2ir.Python.Decimal.{decimal_text}
use alert2ir.Python.Library.{Library, Documented}
use alert2ir.Python.Json.{Value, text, find, lookup, named_among}
use alert2ir.Splunk.Models.{
  SplunkFinding, SigmaLevel, bounded_string, require_nonblank, validated, validate_finding,
  validate_detection, validate_detected_at_shape, validate_sigma_level, record_id_maximum,
}
use alert2ir.Delivery.Finding.{
  ActionConfiguration, require_string, optional_result_value, decimal_integer, configure,
  validate_hostnames, normalize_optional_name, compare_names, validate_event_time,
}
use alert2ir.Delivery.Build.{
  Finding, FindingEvent, OptionalValues, finding_of, build_finding, optional_values,
  finding_members, finding_json, detection_json,
}
use alert2ir.Delivery.Build.Accepted.{
  optional_result_value-string, decimal_integer-parsed, require_string-bounded,
}
use alert2ir.Delivery.Build.Event.{ValueFacts, EventFacts, event_read, validate_event-read}
use alert2ir.Delivery.Build.Configured.{Configured, configure-Configured}

abbrev pub finding_read : Finding → SigmaLevel → ℕ → ℕ → SplunkFinding
finding_read f level code id = record {
  detection = record { rule_id = f.rule_id; rule_title = f.rule_title; sigma_level = level };
  event = event_read f.event code id;
}

-- a finding that the gateway accepts as it was built
pub record Accepted (l : Library) (f : Finding) : Type 0 where
  pub level : SigmaLevel
  pub code : ℕ
  pub id : ℕ
  pub same_level : validate_sigma_level (text f.sigma_level) ≡ ok level
  pub same_code : f.event.event_code ≡ decimal_text code
  pub same_id : f.event.record_id ≡ decimal_text id
  pub read : validate_finding l (finding_json f) ≡ ok (finding_read f level code id)

module _ (l : Library) where
  validate_finding-read :
      (config : ActionConfiguration) (e : FindingEvent) (level : SigmaLevel) (code id : ℕ)
      → Configured l config
      → validate_sigma_level (text config.sigma_level) ≡ ok level
      → EventFacts l e code id
      → validate_finding l (finding_json (finding_of config e))
        ≡ ok (finding_read (finding_of config e) level code id)
  unfolding validate_finding finding_members validate_detection detection_json named_among lookup
      find
  validate_finding-read config e level code id c level_read f =
      rw (c.rule_id, c.rule_title, level_read) (rw (validate_event-read l e code id f) refl)

  hostnames-present :
      (computer host : Option String)
      → validate_hostnames computer host ≡ ok tt
      → (is_none computer && is_none host) ≡ false
  unfolding validate_hostnames normalize_optional_name compare_names
  hostnames-present none none h = absurd (cc)
  hostnames-present none (some host) h = refl
  hostnames-present (some computer) host h = refl

  bounded_string-short :
      (s kept : String) → bounded_string 64 (text s) ≡ ok kept → ltb 64 (text_length s) ≡ false
  unfolding bounded_string
  bounded_string-short s kept h =
      let out = not (leb 1 (text_length s) && leb (text_length s) 64) in
      let within = raise_exc_if-false out validation_error (
        passed-ok (raise_exc_if out validation_error) (validated (require_nonblank s "event value"))
          kept h) in
      ground (arith, within)

  time_required :
      (time_error : String → Option String) (time : String)
      → ¬ (validate_event_time l time_error none ≡ ok time)
  unfolding validate_event_time require_string
  time_required time_error time h = cc

  event_time-shape :
      (time_error : String → Option String) (value : Option String) (time : String)
      → validate_event_time l time_error value ≡ ok time
      → validate_detected_at_shape (text time) ≡ ok (text time)
  unfolding validate_event_time validate_detected_at_shape
  event_time-shape time_error none time h = absurd (time_required time_error time h)
  event_time-shape time_error (some s) time h =
      let (t, read, h1) = bind-ok (require_string l (text s) "_time" 64 false) _ time h in
      let (same, bounded) = require_string-bounded l s "_time" 64 false t read in
      elim (Option-cases (time_error t)) [
        | inl accepted ↦
            let got : ok t ≡ ok time = rw accepted at h1 in
            let whole : s ≡ time = cc in rw (← whole) (rw (bounded_string-short s s bounded) refl)
        | inr (message, refused) ↦
            absurd (let wrong : err (action_input_error message) ≡ ok time = rw refused at h1 in cc)
      ]

  optional_values-ValueFacts :
      (row : String → Option String) (v : OptionalValues)
      → optional_values l row ≡ ok v
      → ValueFacts v
  unfolding optional_values
  optional_values-ValueFacts row v h =
      let (source, r1, h1) = bind-ok (optional_result_value l (row "source") "source" 512) _ v h in
      let (sourcetype, r2, h2) =
        bind-ok (optional_result_value l (row "sourcetype") "sourcetype" 128) _ v h1 in
      let (process_guid, r3, h3) =
        bind-ok (optional_result_value l (row "ProcessGuid") "ProcessGuid" 128) _ v h2 in
      let (image, r4, h4) = bind-ok (optional_result_value l (row "Image") "Image" 1_024) _ v h3 in
      let (parent_image, r5, h5) =
        bind-ok (optional_result_value l (row "ParentImage") "ParentImage" 1_024) _ v h4 in
      let (target_filename, r6, h6) =
        bind-ok (optional_result_value l (row "TargetFilename") "TargetFilename" 1_024) _ v h5 in
      let values : OptionalValues = record {
        source = source;
        sourcetype = sourcetype;
        process_guid = process_guid;
        image = image;
        parent_image = parent_image;
        target_filename = target_filename;
      } in
      let made : values ≡ v = cc in
      subst ValueFacts made (record {
        source = optional_result_value-string l (row "source") "source" 512 source r1;
        sourcetype =
            optional_result_value-string l (row "sourcetype") "sourcetype" 128 sourcetype r2;
        process_guid =
            optional_result_value-string l (row "ProcessGuid") "ProcessGuid" 128 process_guid r3;
        image = optional_result_value-string l (row "Image") "Image" 1_024 image r4;
        parent_image =
            optional_result_value-string l (row "ParentImage") "ParentImage" 1_024 parent_image r5;
        target_filename =
            optional_result_value-string l (row "TargetFilename") "TargetFilename" 1_024
              target_filename r6;
      })

  -- Where a UUID reads back from its text and visible ASCII is printable, a finding that
  -- build_finding makes under a configuration that was accepted passes the gateway's validation:
  -- the gateway reads the rule, the level, the host names, the optional values and the time that
  -- were sent, and the two numbers whose decimal texts were sent.
  pub build_finding-Accepted :
      (time_error : String → Option String) (row : String → Option String) (value : String → Value)
      (config : ActionConfiguration) (f : Finding)
      → Documented l
      → configure l value ≡ ok config
      → build_finding l time_error row config ≡ ok f
      → Accepted l f
  unfolding build_finding
  build_finding-Accepted time_error row value config f d configured h =
      let c = configure-Configured l d value config configured in
      let (level, level_read) = c.sigma_level in
      let (computer, r1, h1) =
        bind-ok (optional_result_value l (row "Computer") "Computer" 255) _ f h in
      let (host, r2, h2) = bind-ok (optional_result_value l (row "host") "host" 255) _ f h1 in
      let hosts = passed-ok (validate_hostnames computer host) _ f h2 in
      let h3 = check-ok (validate_hostnames computer host) _ f h2 in
      let (time, r4, h4) = bind-ok (validate_event_time l time_error (row "_time")) _ f h3 in
      let (code_text, r5, h5) =
        bind-ok (decimal_integer l (row "EventCode") "EventCode" 65_535) _ f h4 in
      let (id_text, r6, h6) =
        bind-ok (decimal_integer l (row "RecordID") "RecordID" record_id_maximum) _ f h5 in
      let (values, r7, h7) = bind-ok (optional_values l row) _ f h6 in
      let (code, same_code, code_read) =
        decimal_integer-parsed l (row "EventCode") "EventCode" "EventCode" 65_535 code_text r5 in
      let (id, same_id, id_read) =
        decimal_integer-parsed l (row "RecordID") "RecordID" "RecordID" record_id_maximum id_text
          r6 in
      let event : FindingEvent = record {
        detected_at = time;
        channel = config.channel;
        event_code = code_text;
        record_id = id_text;
        computer = computer;
        host = host;
        values = values;
      } in
      let made : finding_of config event ≡ f = cc in
      subst (Accepted l) made (record {
        level = level;
        code = code;
        id = id;
        same_level = level_read;
        same_code = same_code;
        same_id = same_id;
        read = validate_finding-read config event level code id c level_read (record {
          time = event_time-shape time_error (row "_time") time r4;
          computer = optional_result_value-string l (row "Computer") "Computer" 255 computer r1;
          host = optional_result_value-string l (row "host") "host" 255 host r2;
          channel = c.channel;
          event_code = code_read;
          record_id = id_read;
          values = optional_values-ValueFacts row values r7;
          present = hostnames-present computer host hosts;
        });
      })
