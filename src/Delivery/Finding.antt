-- ===== src/Delivery/Finding.antt =====
-- integrations/splunk/alert2ir_delivery/bin/alert2ir_delivery.py: the configuration, and the finding
-- that is built of a result row. A row answers none for a missing field. The parameter
-- `time_error` answers the message for an event time whose format or range is refused.
pub mod Hostnames
use Prim.Native.String.{◌++◌}
use alert2ir.Prelude.{
  ℕ, String, Option, none, some, List, [], ◌∷◌, Bool, true, false, not, ◌&&◌, ◌||◌, ltb, nat_eq,
  ◌==◌, string_equality, if◌then◌else◌,
}
use alert2ir.Python.Result.{
  Result, ok, err, ◌>>=◌, ◌>>◌, Exc, raise_exc_if, action_input_error, action_configuration_error,
  type_error,
}
use alert2ir.Python.Text.{codes, text_length, is_blank}
use alert2ir.Python.Optional.{is_none, is_some}
use alert2ir.Python.Pattern.{
  is_decimal, decimal_value, is_ascii, is_hostname, strip, drop_dot, lower,
}
use alert2ir.Python.Decimal.{decimal_text}
use alert2ir.Python.Library.{Library, SplitUrl}
use alert2ir.Python.Json.{Value, null, text, object, hashed_text}
use alert2ir.Splunk.Client.{is_one_of}
use alert2ir.Splunk.Models.{splunk_finding_schema, record_id_maximum}

-- error_type(message)
abbrev pub string_error : Bool → String → Exc
string_error true message = action_configuration_error message
string_error false message = action_input_error message

unfoldable pub require_string : Library → Value → String → ℕ → Bool → Result String
unfolding is_blank
require_string l (text value) name maximum configuration_value = do
  raise_exc_if
      (value == ""
        || is_blank value
        || ltb maximum (text_length value)
        || not (l.is_printable value))
      (string_error configuration_value (name ++ " is invalid"))
  ok value
require_string l _ name maximum configuration_value =
    err (string_error configuration_value (name ++ " is invalid"))

unfoldable pub canonical_uuid : Library → Value → Result String
unfolding require_string
canonical_uuid l value = do
  id ← require_string l value "rule_id" 36 true
  elim (l.parse_uuid id) [
    | some u ↦ ok (l.uuid_text u)
    | none ↦ err (action_configuration_error "rule_id must be a UUID")
  ]

-- the condition of `_validate_adapter_url`
abbrev pub is_unsupported : SplitUrl → Bool
is_unsupported parsed =
    not (is_one_of ("http" ∷ "https" ∷ []) parsed.scheme)
    || is_none parsed.hostname
    || is_some parsed.username
    || is_some parsed.password
    || not (parsed.query == "")
    || not (parsed.fragment == "")
    || not (parsed.path == "/v1/splunk/findings")

unfoldable pub validate_adapter_url : Library → Value → Result String
unfolding require_string
validate_adapter_url l value = do
  url ← require_string l value "adapter_url" 2_048 true
  parsed ← l.split_url url
  raise_exc_if (is_unsupported parsed)
      (action_configuration_error "adapter_url must be an HTTP(S) /v1/splunk/findings URL")
  ok url

pub record ActionConfiguration : Type 0 where
  pub adapter_url : String
  pub secret_file : String
  pub rule_id : String
  pub rule_title : String
  pub sigma_level : String
  pub channel : String

abbrev pub sigma_levels : List String
sigma_levels = "informational" ∷ "low" ∷ "medium" ∷ "high" ∷ "critical" ∷ []

abbrev pub sysmon_channel : String
sysmon_channel = "Microsoft-Windows-Sysmon/Operational"

-- "\x00" in value
abbrev pub has_nul : List ℕ → Bool
has_nul [] = false
has_nul (c ∷ cs) = nat_eq c 0 || has_nul cs

-- `if self.sigma_level not in SIGMA_LEVELS: raise …`, which raises TypeError for a list or a dict
unfoldable pub check_sigma_level : Value → Result String
check_sigma_level value = do
  key ← hashed_text value
  elim key [
    | some level ↦
        if is_one_of sigma_levels level
        then ok level
        else err (action_configuration_error "sigma_level is unsupported")
    | none ↦ err (action_configuration_error "sigma_level is unsupported")
  ]

unfoldable pub check_channel : Value → Result String
check_channel (text channel) =
    if channel == sysmon_channel
    then ok channel
    else err (action_configuration_error "channel is unsupported")
check_channel _ = err (action_configuration_error "channel is unsupported")

abbrev pub make_configuration :
    String → String → String → String → String → String → ActionConfiguration
make_configuration adapter_url secret_file rule_id rule_title sigma_level channel = record {
  adapter_url = adapter_url;
  secret_file = secret_file;
  rule_id = rule_id;
  rule_title = rule_title;
  sigma_level = sigma_level;
  channel = channel;
}

-- ActionConfiguration(**values), with its `__post_init__`
unfoldable pub configure : Library → (String → Value) → Result ActionConfiguration
unfolding validate_adapter_url canonical_uuid require_string check_sigma_level check_channel
configure l value = do
  adapter_url ← validate_adapter_url l (value "adapter_url")
  rule_id ← canonical_uuid l (value "rule_id")
  secret_file ← require_string l (value "secret_file") "secret_file" 4_096 true
  raise_exc_if (has_nul (codes secret_file) || not (l.is_absolute secret_file))
      (action_configuration_error "secret_file must be an absolute path")
  rule_title ← require_string l (value "rule_title") "rule_title" 256 true
  sigma_level ← check_sigma_level (value "sigma_level")
  channel ← check_channel (value "channel")
  ok (make_configuration adapter_url secret_file rule_id rule_title sigma_level channel)

-- _normalize_hostname_for_comparison
unfoldable pub normalize_for_comparison : String → Result String
unfolding strip drop_dot is_hostname lower
normalize_for_comparison value = do
  let normalized = drop_dot (strip value)
  raise_exc_if
      (normalized == ""
        || ltb 255 (text_length normalized)
        || not (is_ascii normalized)
        || not (is_hostname (codes normalized)))
      (action_input_error "hostname is invalid")
  ok (lower normalized)

unfoldable pub normalize_optional_name : Option String → Result (Option String)
unfolding normalize_for_comparison
normalize_optional_name none = ok none
normalize_optional_name (some value) = do
  normalized ← normalize_for_comparison value
  ok (some normalized)

unfoldable pub compare_names : Option String → Option String → Result (Unit {0})
compare_names none none = err (action_input_error "Computer or host is required")
compare_names (some computer) (some host) =
    raise_exc_if (not (computer == host)) (action_input_error "Computer and host disagree")
compare_names _ _ = ok tt

unfoldable pub validate_hostnames : Option String → Option String → Result (Unit {0})
unfolding normalize_optional_name compare_names
validate_hostnames computer host = do
  normalized_computer ← normalize_optional_name computer
  normalized_host ← normalize_optional_name host
  compare_names normalized_computer normalized_host

-- a value of a row that may be None
abbrev pub row_value : Option String → Value
row_value none = null
row_value (some value) = text value

unfoldable pub decimal_integer : Library → Option String → String → ℕ → Result String
unfolding require_string
decimal_integer l value name maximum = do
  digits ← require_string l (row_value value) name 32 false
  raise_exc_if (not (is_decimal (codes digits)))
      (action_input_error (name ++ " must be a decimal integer"))
  let parsed = decimal_value (codes digits)
  raise_exc_if (ltb parsed 1 || ltb maximum parsed)
      (action_input_error (name ++ " is outside the supported range"))
  ok (decimal_text parsed)

-- _optional_result_value, of row.get(name, "")
unfoldable pub optional_result_value : Library → Option String → String → ℕ → Result (Option String)
unfolding require_string
optional_result_value l none name maximum = ok none
optional_result_value l (some value) name maximum =
    if value == ""
    then ok none
    else (require_string l (text value) name maximum false >>= λ kept. ok (some kept))

unfoldable pub validate_event_time :
    Library → (String → Option String) → Option String → Result String
unfolding require_string
validate_event_time l time_error value = do
  time ← require_string l (row_value value) "_time" 64 false
  elim (time_error time) [ none ↦ ok time | some message ↦ err (action_input_error message) ]
