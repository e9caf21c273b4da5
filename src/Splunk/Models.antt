-- ===== src/Splunk/Models.antt =====
-- src/alert2ir/adapters/splunk/models.py: the finding that the gateway accepts. A validator's
-- ValueError, a constraint that fails and a member that is forbidden are all Pydantic's
-- ValidationError.
use Prim.Native.String.{◌++◌}
use alert2ir.Prelude.{
  ◌&&◌, ℕ, String, Option, none, some, List, [], ◌∷◌, not, ◌||◌, ltb, leb, ◌==◌, string_equality,
  if◌then◌else◌,
}
use alert2ir.Python.Result.{
  Result, ok, err, ◌>>=◌, ◌>>◌, raise_if, raise_exc_if, value_error, validation_error,
}
use alert2ir.Python.DateTime.{DateTime}
use alert2ir.Python.Optional.{is_none}
use alert2ir.Python.Text.{codes, text_length, is_blank}
use alert2ir.Python.Pattern.{is_decimal, decimal_value, is_ascii, strip}
use alert2ir.Python.Library.{Library}
use alert2ir.Python.Json.{
  Value, null, integer, below_zero, real, text, object, Members, find, lookup, named_among,
}
use alert2ir.Core.Models.{CanonicalAlert}

pub data SigmaLevel : Type 0 where
  informational low medium high critical : SigmaLevel

pub record SplunkDetection : Type 0 where
  pub rule_id : String
  pub rule_title : String
  pub sigma_level : SigmaLevel

pub record SplunkEvent : Type 0 where
  pub detected_at : Value
  pub computer : Option String
  pub host : Option String
  pub channel : String
  pub source : Option String
  pub sourcetype : Option String
  pub event_code : ℕ
  pub record_id : ℕ
  pub process_guid : Option String
  pub image : Option String
  pub parent_image : Option String
  pub target_filename : Option String

pub record SplunkFinding : Type 0 where
  pub detection : SplunkDetection
  pub event : SplunkEvent

pub record NormalizedSplunkFinding : Type 0 where
  pub rule_id : String
  pub rule_title : String
  pub sigma_level : SigmaLevel
  pub detected_at : DateTime
  pub computer : String
  pub channel : String
  pub event_code : ℕ
  pub record_id : ℕ
  pub source : Option String
  pub sourcetype : Option String
  pub process_guid : Option String
  pub image : Option String
  pub parent_image : Option String
  pub target_filename : Option String

-- CanonicalizedSplunkFinding
pub record CanonicalizedFinding : Type 0 where
  pub alert : CanonicalAlert
  pub idempotency_key : String

abbrev pub splunk_finding_schema : String
splunk_finding_schema = "alert2ir.splunk-finding.v1"

-- 2 ** 63 - 1
abbrev pub record_id_maximum : ℕ
record_id_maximum = 9_223_372_036_854_775_807

unfoldable pub require_nonblank : String → String → Result String
require_nonblank value field_name = do
  raise_if (is_blank value) (field_name ++ " must be non-empty")
  ok value

-- the test of the range
unfoldable pub check_range : ℕ → String → ℕ → Result ℕ
check_range parsed field_name maximum = do
  raise_if (ltb parsed 1 || ltb maximum parsed) (field_name ++ " is outside the supported range")
  ok parsed

-- a text of more than 4,300 digits, at which int() raises ValueError, is out of any range here
unfoldable pub parse_positive_integer : Value → String → ℕ → Result ℕ
unfolding check_range
parse_positive_integer (text value) field_name maximum =
    if is_decimal (codes value)
    then check_range (decimal_value (codes value)) field_name maximum
    else err (value_error (field_name ++ " must be a decimal integer"))
parse_positive_integer (integer n) field_name maximum = check_range n field_name maximum
parse_positive_integer (below_zero n) field_name maximum =
    err (value_error (field_name ++ " is outside the supported range"))
parse_positive_integer _ field_name maximum =
    err (value_error (field_name ++ " must be a decimal integer"))

-- a ValueError of a validator
abbrev pub validated {ℓ} : {A : Type ℓ} → Result A → Result A
validated (err (value_error message)) = err validation_error
validated r = r

-- validate_rule_id
unfoldable pub validate_rule_id : Library → Value → Result String
validate_rule_id l (text value) = elim (l.parse_uuid value) [
  | some u ↦ ok (l.uuid_text u)
  | none ↦ err validation_error
]
validate_rule_id l _ = err validation_error

-- SigmaLevel(value)
unfoldable pub sigma_level_of : String → Result SigmaLevel
sigma_level_of value =
    if value == "informational"
    then ok informational
    else if value == "low"
    then ok low
    else if value == "medium"
    then ok medium
    else if value == "high"
    then ok high
    else if value == "critical"
    then ok critical
    else err validation_error

unfoldable pub validate_sigma_level : Value → Result SigmaLevel
unfolding sigma_level_of
validate_sigma_level (text value) = sigma_level_of value
validate_sigma_level _ = err validation_error

-- a StrictStr with min_length=1 and a max_length, and validate_nonblank_strings
unfoldable pub bounded_string : ℕ → Value → Result String
unfolding require_nonblank
bounded_string maximum (text value) = do
  raise_exc_if (not (leb 1 (text_length value) && leb (text_length value) maximum)) validation_error
  validated (require_nonblank value "event value")
bounded_string maximum _ = err validation_error

unfoldable pub optional_string : ℕ → Value → Result (Option String)
unfolding bounded_string
optional_string maximum null = ok none
optional_string maximum value = do kept ← bounded_string maximum value; ok (some kept)

unfoldable pub validate_channel : Library → Value → Result String
unfolding bounded_string
validate_channel l value = do
  channel ← bounded_string 128 value
  raise_exc_if
      (not (channel == strip channel) || not (is_ascii channel) || not (l.is_printable channel))
      validation_error
  ok channel

unfoldable pub validate_detected_at_shape : Value → Result Value
validate_detected_at_shape (text value) = do
  raise_exc_if (ltb 64 (text_length value)) validation_error
  ok (text value)
validate_detected_at_shape (integer n) = ok (integer n)
validate_detected_at_shape (below_zero n) = ok (below_zero n)
validate_detected_at_shape real = ok real
validate_detected_at_shape _ = err validation_error

-- the member under the alias if it is there, or else under the field's name
abbrev pub aliased : Members → String → String → Value
aliased members alias name = elim (find members alias) [
  | some value ↦ value
  | none ↦ lookup members name
]

-- extra="forbid"
abbrev pub forbid_extra : List String → Members → Result (Unit {0})
forbid_extra names members = raise_exc_if (not (named_among names members)) validation_error

unfoldable pub validate_detection : Library → Members → Result SplunkDetection
unfolding validate_rule_id bounded_string validate_sigma_level named_among lookup
validate_detection l members = do
  forbid_extra ("rule_id" ∷ "rule_title" ∷ "sigma_level" ∷ []) members
  rule_id ← validate_rule_id l (lookup members "rule_id")
  rule_title ← bounded_string 256 (lookup members "rule_title")
  sigma_level ← validate_sigma_level (lookup members "sigma_level")
  ok (record { rule_id = rule_id; rule_title = rule_title; sigma_level = sigma_level })

unfoldable pub validate_event : Library → Members → Result SplunkEvent
unfolding validate_detected_at_shape optional_string validate_channel parse_positive_integer find
    lookup
validate_event l members = do
  detected_at ← validate_detected_at_shape (aliased members "_time" "detected_at")
  computer ← optional_string 255 (aliased members "Computer" "computer")
  host ← optional_string 255 (lookup members "host")
  channel ← validate_channel l (lookup members "channel")
  source ← optional_string 512 (lookup members "source")
  sourcetype ← optional_string 128 (lookup members "sourcetype")
  event_code ←
      validated
        (parse_positive_integer (aliased members "EventCode" "event_code") "EventCode" 65_535)
  record_id ←
      validated (
        parse_positive_integer (aliased members "RecordID" "record_id") "RecordID"
          record_id_maximum)
  process_guid ← optional_string 128 (aliased members "ProcessGuid" "process_guid")
  image ← optional_string 1_024 (aliased members "Image" "image")
  parent_image ← optional_string 1_024 (aliased members "ParentImage" "parent_image")
  target_filename ← optional_string 1_024 (aliased members "TargetFilename" "target_filename")
  raise_exc_if (is_none computer && is_none host) validation_error
  ok (record {
    detected_at = detected_at;
    computer = computer;
    host = host;
    channel = channel;
    source = source;
    sourcetype = sourcetype;
    event_code = event_code;
    record_id = record_id;
    process_guid = process_guid;
    image = image;
    parent_image = parent_image;
    target_filename = target_filename;
  })

abbrev pub object_members : Value → Result Members
object_members (object members) = ok members
object_members _ = err validation_error

abbrev pub check_schema : Value → Result (Unit {0})
check_schema (text value) = raise_exc_if (not (value == splunk_finding_schema)) validation_error
check_schema _ = err validation_error

-- SplunkFinding.model_validate
unfoldable pub validate_finding : Library → Value → Result SplunkFinding
unfolding validate_detection validate_event named_among lookup
validate_finding l value = do
  members ← object_members value
  forbid_extra ("schema" ∷ "detection" ∷ "event" ∷ []) members
  check_schema (lookup members "schema")
  detection_members ← object_members (lookup members "detection")
  detection ← validate_detection l detection_members
  event_members ← object_members (lookup members "event")
  event ← validate_event l event_members
  ok (record { detection = detection; event = event })
