-- ===== src/Delivery/Execute.antt =====
-- integrations/splunk/alert2ir_delivery/bin/alert2ir_delivery.py: `execute_invocation` and the exit
-- code of `main`. The files, and the JSON text of a finding, are parameters.
pub mod Success
use alert2ir.Prelude.{
  ◌||◌, ℕ, String, Option, none, some, List, Bool, true, false, ltb, if◌then◌else◌, string_equality,
}
use alert2ir.Python.Result.{
  Result, ok, err, ◌>>=◌, ◌>>◌, Exc, raise_exc_if, action_input_error, action_configuration_error,
  connection_failure, request_timeout, type_error,
}
use alert2ir.Python.Optional.{is_none}
use alert2ir.Python.Text.{codes, length}
use alert2ir.Python.Library.{Library}
use alert2ir.Python.Json.{Value, object, Members, find, lookup}
use alert2ir.Delivery.Signature.{load_secret}
use alert2ir.Delivery.Finding.{ActionConfiguration, configure, require_string, has_nul}
use alert2ir.Delivery.Build.{Finding, build_finding, finding_json}
use alert2ir.Delivery.Deliver.{Job, Environment, DeliveryOutcome, Run, stop, deliver}

-- what the action finds on the host
pub record Host : Type 0 where
  -- read_single_result, of the path of the results file
  pub read_single_result : String → Result (String → Option String)
  -- the bytes of a file, or none where it is no file or cannot be read
  pub read_file : String → Option (List ℕ)
  -- json.dumps(finding).encode("utf-8"), or none for an error
  pub dump_json : Value → Option (List ℕ)
  -- the message for an event time that is refused
  pub time_error : String → Option String

-- parse_invocation; the members of the JSON object
unfoldable pub parse_invocation : Library → List ℕ → Result (String → Value)
unfolding lookup
parse_invocation l payload = do
  raise_exc_if (ltb 65_536 (length payload)) (action_input_error "invocation is too large")
  elim (l.parse_json payload) [
    | some (object members) ↦ ok (lookup members)
    | some other ↦ err (action_input_error "invocation must be a JSON object")
    | none ↦ err (action_input_error "invocation is not valid JSON")
  ]

unfoldable pub results_file_from_invocation : Library → (String → Value) → Result String
unfolding require_string
results_file_from_invocation l invocation = do
  value ← require_string l (invocation "results_file") "results file" 4_096 false
  raise_exc_if (has_nul (codes value)) (action_input_error "results file path is invalid")
  ok value

-- missing
unfoldable pub has_missing : Members → Bool
unfolding find
has_missing value =
    is_none (find value "adapter_url")
    || is_none (find value "secret_file")
    || is_none (find value "rule_id")
    || is_none (find value "rule_title")
    || is_none (find value "sigma_level")
    || is_none (find value "channel")

-- `except TypeError`
abbrev pub configured : Result ActionConfiguration → Result ActionConfiguration
configured (err type_error) = err (action_configuration_error "configuration values are invalid")
configured r = r

-- parse_configuration
unfoldable pub parse_configuration : Library → (String → Value) → Result ActionConfiguration
unfolding configure has_missing lookup
parse_configuration l invocation = elim (invocation "configuration") [
  | object value ↦ do
    raise_exc_if (has_missing value)
        (action_configuration_error "required configuration is missing")
    configured (configure l (lookup value))
  | other ↦ err (action_configuration_error "configuration is required")
]

unfoldable pub serialize_finding : Host → Finding → Result (List ℕ)
serialize_finding host finding = elim (host.dump_json (finding_json finding)) [
  | none ↦ err (action_input_error "finding cannot be serialized")
  | some body ↦ do
    raise_exc_if (ltb 65_536 (length body)) (action_input_error "finding body is too large")
    ok body
]

-- what `execute_invocation` does before it delivers
unfoldable pub prepare_job : Library → Host → (String → Value) → Result Job
unfolding parse_configuration results_file_from_invocation build_finding serialize_finding
    load_secret
prepare_job l host invocation = do
  config ← parse_configuration l invocation
  results_path ← results_file_from_invocation l invocation
  row ← host.read_single_result results_path
  finding ← build_finding l host.time_error row config
  body ← serialize_finding host finding
  secret ← load_secret (host.read_file config.secret_file)
  ok (record { url = config.adapter_url; body = body; secret = secret })

unfoldable pub execute_invocation : Library → Host → (String → Value) → Environment → Run
unfolding prepare_job deliver
execute_invocation l host invocation environment = elim (prepare_job l host invocation) [
  | ok job ↦ deliver l job environment
  | err e ↦ stop (err e)
]

-- the run of `main`, of the bytes on stdin
unfoldable pub main_run : Library → Host → List ℕ → Environment → Run
unfolding parse_invocation execute_invocation
main_run l host payload environment = elim (parse_invocation l payload) [
  | ok invocation ↦ execute_invocation l host invocation environment
  | err e ↦ stop (err e)
]

-- `except ActionError`
abbrev pub is_action_error : Exc → Bool
is_action_error (action_input_error message) = true
is_action_error (action_configuration_error message) = true
is_action_error connection_failure = true
is_action_error request_timeout = true
is_action_error _ = false

unfoldable pub exit_code : Result DeliveryOutcome → Result ℕ
exit_code (ok outcome) = ok (if outcome.success then 0 else 1)
exit_code (err e) = if is_action_error e then ok 1 else err e

unfoldable pub main : Library → Host → Bool → List ℕ → Environment → Result ℕ
unfolding main_run exit_code
main l host is_execute payload environment =
    if is_execute then exit_code (main_run l host payload environment).answer else ok 1
