-- ===== src/Delivery/Build/Event.antt =====
-- How the gateway reads the event of a finding that the alert action builds.
use alert2ir.Prelude.{ℕ, String, false, ◌&&◌, ◌≡◌, refl, none}
use alert2ir.Python.Result.{ok}
use alert2ir.Python.Optional.{is_none}
use alert2ir.Python.Library.{Library}
use alert2ir.Python.Json.{text, find, lookup, is_among}
use alert2ir.Python.Json.Present.{names_of, value_of, find-present-none, lookup-present}
use alert2ir.Splunk.Models.{
  aliased, SplunkEvent, optional_string, parse_positive_integer, validate_event, validate_channel,
  validate_detected_at_shape, record_id_maximum,
}
use alert2ir.Delivery.Finding.{row_value}
use alert2ir.Delivery.Build.{FindingEvent, OptionalValues, event_pairs, event_json}

-- what the gateway makes of the optional values
pub record ValueFacts (v : OptionalValues) : Type 0 where
  pub source : optional_string 512 (row_value v.source) ≡ ok v.source
  pub sourcetype : optional_string 128 (row_value v.sourcetype) ≡ ok v.sourcetype
  pub process_guid : optional_string 128 (row_value v.process_guid) ≡ ok v.process_guid
  pub image : optional_string 1_024 (row_value v.image) ≡ ok v.image
  pub parent_image : optional_string 1_024 (row_value v.parent_image) ≡ ok v.parent_image
  pub target_filename : optional_string 1_024 (row_value v.target_filename) ≡ ok v.target_filename

-- what the gateway makes of the members of an event
pub record EventFacts (l : Library) (e : FindingEvent) (code id : ℕ) : Type 0 where
  pub time : validate_detected_at_shape (text e.detected_at) ≡ ok (text e.detected_at)
  pub computer : optional_string 255 (row_value e.computer) ≡ ok e.computer
  pub host : optional_string 255 (row_value e.host) ≡ ok e.host
  pub channel : validate_channel l (text e.channel) ≡ ok e.channel
  pub event_code : parse_positive_integer (text e.event_code) "EventCode" 65_535 ≡ ok code
  pub record_id : parse_positive_integer (text e.record_id) "RecordID" record_id_maximum ≡ ok id
  pub values : ValueFacts e.values
  pub present : (is_none e.computer && is_none e.host) ≡ false

-- the event and the finding that the gateway reads
abbrev pub event_read : FindingEvent → ℕ → ℕ → SplunkEvent
event_read e code id = record {
  detected_at = text e.detected_at;
  computer = e.computer;
  host = e.host;
  channel = e.channel;
  source = e.values.source;
  sourcetype = e.values.sourcetype;
  event_code = code;
  record_id = id;
  process_guid = e.values.process_guid;
  image = e.values.image;
  parent_image = e.values.parent_image;
  target_filename = e.values.target_filename;
}

-- what the built event holds
event_json-value :
    (e : FindingEvent) (name : String) → lookup (event_json e) name ≡ value_of (event_pairs e) name
unfolding event_json
event_json-value e name = lookup-present (event_pairs e) name refl

event_json-aliased :
    (e : FindingEvent) (alias name : String)
    → is_among alias (names_of (event_pairs e)) ≡ false
    → aliased (event_json e) alias name ≡ value_of (event_pairs e) name
unfolding event_json
event_json-aliased e alias name absent =
    let missing : find (event_json e) alias ≡ none =
      find-present-none (event_pairs e) alias absent in
    rw (missing, aliased) (event_json-value e name)

pub validate_event-read :
    (l : Library) (e : FindingEvent) (code id : ℕ)
    → EventFacts l e code id
    → validate_event l (event_json e) ≡ ok (event_read e code id)
unfolding validate_event
validate_event-read l e code id f =
    let v = f.values in
    let at = λ (name : String). event_json-value e name in
    rw
      (
        event_json-aliased e "_time" "detected_at" refl,
        f.time,
        event_json-aliased e "Computer" "computer" refl,
        f.computer,
        at "host",
        f.host,
        at "channel",
        f.channel,
        at "source",
        v.source,
        at "sourcetype",
        v.sourcetype,
      )
      (rw
        (
          event_json-aliased e "EventCode" "event_code" refl,
          f.event_code,
          event_json-aliased e "RecordID" "record_id" refl,
          f.record_id,
          event_json-aliased e "ProcessGuid" "process_guid" refl,
          v.process_guid,
          event_json-aliased e "Image" "image" refl,
          v.image,
          event_json-aliased e "ParentImage" "parent_image" refl,
          v.parent_image,
          event_json-aliased e "TargetFilename" "target_filename" refl,
          v.target_filename,
          f.present,
        )
        refl)
