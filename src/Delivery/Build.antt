-- ===== src/Delivery/Build.antt =====
-- integrations/splunk/alert2ir_delivery/bin/alert2ir_delivery.py: `build_finding`, and the JSON object
-- that it returns.
pub mod Accepted
pub mod Configured
pub mod Event
pub mod Validated
use alert2ir.Prelude.{String, Option, none, some, List, [], ◌∷◌}
use alert2ir.Python.Result.{Result, ok, err, ◌>>=◌, ◌>>◌}
use alert2ir.Python.Library.{Library}
use alert2ir.Python.Json.{Value, text, object, Members, end, member, present}
use alert2ir.Splunk.Models.{splunk_finding_schema, record_id_maximum}
use alert2ir.Delivery.Finding.{
  ActionConfiguration, optional_result_value, validate_hostnames, validate_event_time,
  decimal_integer, row_value,
}

-- optional_values
pub record OptionalValues : Type 0 where
  pub source : Option String
  pub sourcetype : Option String
  pub process_guid : Option String
  pub image : Option String
  pub parent_image : Option String
  pub target_filename : Option String

-- the dict `event`; a value that is None is left out
pub record FindingEvent : Type 0 where
  pub detected_at : String
  pub channel : String
  pub event_code : String
  pub record_id : String
  pub computer : Option String
  pub host : Option String
  pub values : OptionalValues

pub record Finding : Type 0 where
  pub rule_id : String
  pub rule_title : String
  pub sigma_level : String
  pub event : FindingEvent

abbrev pub finding_of : ActionConfiguration → FindingEvent → Finding
finding_of config event = record {
  rule_id = config.rule_id;
  rule_title = config.rule_title;
  sigma_level = config.sigma_level;
  event = event;
}

unfoldable pub optional_values : Library → (String → Option String) → Result OptionalValues
unfolding optional_result_value
optional_values l row = do
  source ← optional_result_value l (row "source") "source" 512
  sourcetype ← optional_result_value l (row "sourcetype") "sourcetype" 128
  process_guid ← optional_result_value l (row "ProcessGuid") "ProcessGuid" 128
  image ← optional_result_value l (row "Image") "Image" 1_024
  parent_image ← optional_result_value l (row "ParentImage") "ParentImage" 1_024
  target_filename ← optional_result_value l (row "TargetFilename") "TargetFilename" 1_024
  ok (record {
    source = source;
    sourcetype = sourcetype;
    process_guid = process_guid;
    image = image;
    parent_image = parent_image;
    target_filename = target_filename;
  })

unfoldable pub build_finding :
    Library
    → (String → Option String)
    → (String → Option String)
    → ActionConfiguration
    → Result Finding
unfolding optional_result_value validate_hostnames validate_event_time decimal_integer
    optional_values
build_finding l time_error row config = do
  computer ← optional_result_value l (row "Computer") "Computer" 255
  host ← optional_result_value l (row "host") "host" 255
  validate_hostnames computer host
  detected_at ← validate_event_time l time_error (row "_time")
  event_code ← decimal_integer l (row "EventCode") "EventCode" 65_535
  record_id ← decimal_integer l (row "RecordID") "RecordID" record_id_maximum
  values ← optional_values l row
  ok (
      finding_of config (record {
        detected_at = detected_at;
        channel = config.channel;
        event_code = event_code;
        record_id = record_id;
        computer = computer;
        host = host;
        values = values;
      }))

-- the pairs of `event`
abbrev pub event_pairs : FindingEvent → List (String × Value)
event_pairs event =
    ("detected_at", text event.detected_at)
    ∷ ("channel", text event.channel)
    ∷ ("event_code", text event.event_code)
    ∷ ("record_id", text event.record_id)
    ∷ ("computer", row_value event.computer)
    ∷ ("host", row_value event.host)
    ∷ ("source", row_value event.values.source)
    ∷ ("sourcetype", row_value event.values.sourcetype)
    ∷ ("process_guid", row_value event.values.process_guid)
    ∷ ("image", row_value event.values.image)
    ∷ ("parent_image", row_value event.values.parent_image)
    ∷ ("target_filename", row_value event.values.target_filename)
    ∷ []

-- `event`: a value that is None is left out
unfoldable pub event_json : FindingEvent → Members
unfolding present
event_json event = present (event_pairs event)

unfoldable pub detection_json : Finding → Members
detection_json finding = member "rule_id" (text finding.rule_id) (
    member "rule_title" (text finding.rule_title)
      (member "sigma_level" (text finding.sigma_level) end))

unfoldable pub finding_members : Finding → Members
unfolding event_json detection_json
finding_members finding = member "schema" (text splunk_finding_schema) (
    member "detection" (object (detection_json finding))
      (member "event" (object (event_json finding.event)) end))

-- the dict that `build_finding` returns
abbrev pub finding_json : Finding → Value
finding_json finding = object (finding_members finding)
