-- ===== src/Delivery/Execute/Success.antt =====
-- The exit code of the alert action.
use alert2ir.Prelude.{ℕ, String, Option, some, List, ◌≡◌}
use alert2ir.Python.Result.{Result, ok}
use alert2ir.Python.Library.{Library}
use alert2ir.Python.Json.{Value}
use alert2ir.Delivery.Finding.{ActionConfiguration}
use alert2ir.Delivery.Build.{Finding, build_finding, finding_json}
use alert2ir.Delivery.Deliver.{Job, Environment, DeliveryOutcome, Run}
use alert2ir.Delivery.Deliver.Answered.{Answered}
use alert2ir.Delivery.Execute.{
  Host, parse_configuration, results_file_from_invocation, parse_invocation,
}

abbrev job_of : String → List ℕ → List ℕ → Job
job_of url body secret = record { url = url; body = body; secret = secret }

-- A finding that the gateway answered: built of a row of the results under the configuration of the
-- invocation, sent as JSON to the configured URL, and answered with the status 200 or 202.
pub record Delivered (l : Library) (host : Host) (payload : List ℕ) (environment : Environment)
    (run : Run) : Type 0 where
  pub outcome : DeliveryOutcome
  pub returned : run.answer ≡ ok outcome
  pub invocation : String → Value
  pub parsed : parse_invocation l payload ≡ ok invocation
  pub config : ActionConfiguration
  pub configured : parse_configuration l invocation ≡ ok config
  pub path : String
  pub named : results_file_from_invocation l invocation ≡ ok path
  pub row : String → Option String
  pub read : host.read_single_result path ≡ ok row
  pub finding : Finding
  pub built : build_finding l host.time_error row config ≡ ok finding
  pub job : Job
  pub url : job.url ≡ config.adapter_url
  pub written : host.dump_json (finding_json finding) ≡ some job.body
  pub answered : Answered l job environment run.events outcome
