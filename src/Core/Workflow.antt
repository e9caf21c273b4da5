-- ===== src/Core/Workflow.antt =====
-- src/alert2ir/core/workflow.py: decisions, incidents and investigation requests.
use Prim.Native.String.{◌++◌}
use alert2ir.Prelude.{
  String, List, [], ◌∷◌, Eq, ◌==◌, eq_of_discrete, string_discrete, Bool, true, false, not,
}
use alert2ir.Python.Result.{Result, ok, ◌>>◌, raise_if}
use alert2ir.Core.Models.{
  Severity, low, medium, high, critical, SourceProvenance, SourceProvenance-discrete,
  source_equality, CanonicalAlert, CanonicalAlert-discrete, alert_equality, Entity, Entity-discrete,
  require_non_empty,
}

pub data DecisionOutcome : Type 0 where
  investigate no_action : DecisionOutcome

unfoldable pub DecisionOutcome-discrete : Discrete DecisionOutcome
DecisionOutcome-discrete = hlevel

-- outcome is DecisionOutcome.INVESTIGATE
abbrev pub is_investigate : DecisionOutcome → Bool
is_investigate investigate = true
is_investigate no_action = false

pub record Decision : Type 0 where
  pub outcome : DecisionOutcome
  pub policy_id : String
  pub reasons : List String
  pub source : SourceProvenance

abbrev pub is_empty {ℓ} : {A : Type ℓ} → List A → Bool
is_empty [] = true
is_empty (x ∷ xs) = false

-- `for item in items: _require_non_empty(item, …)`
unfoldable pub require_all_non_empty : List String → String → Result (Unit {0})
unfolding require_non_empty
require_all_non_empty [] message = ok tt
require_all_non_empty (x ∷ xs) message =
    require_non_empty x message >> require_all_non_empty xs message

unfoldable pub decision_post_init : Decision → Result (Unit {0})
unfolding require_non_empty require_all_non_empty
decision_post_init d = do
  require_non_empty d.policy_id "policy_id must be non-empty"
  raise_if (is_empty d.reasons) "reasons must contain at least one item"
  require_all_non_empty d.reasons "reason must be non-empty"

abbrev pub policy_id : String
policy_id = "baseline-severity-v1"

unfoldable pub outcome_by_severity : Severity → DecisionOutcome
outcome_by_severity low = no_action
outcome_by_severity medium = no_action
outcome_by_severity high = investigate
outcome_by_severity critical = investigate

-- alert.severity.value
abbrev pub severity_value : Severity → String
severity_value low = "low"
severity_value medium = "medium"
severity_value high = "high"
severity_value critical = "critical"

unfoldable pub reason_for : DecisionOutcome → Severity → String
reason_for investigate s = "normalized severity '" ++ severity_value s ++ "' requires investigation"
reason_for no_action s =
    "normalized severity '" ++ severity_value s ++ "' does not require investigation"

-- BaselineSeverityPolicy.decide; the mapping covers every member of the enum.
unfoldable pub decide : CanonicalAlert → Result Decision
unfolding decision_post_init outcome_by_severity reason_for
decide alert =
    let outcome = outcome_by_severity alert.severity in
    let decision : Decision = record {
      outcome = outcome;
      policy_id = policy_id;
      reasons = reason_for outcome alert.severity ∷ [];
      source = alert.source;
    } in
    decision_post_init decision >> ok decision

pub record Incident : Type 0 where
  pub alert : CanonicalAlert
  pub decision : Decision

unfoldable pub incident_post_init : Incident → Result (Unit {0})
incident_post_init i = do
  raise_if (not (is_investigate i.decision.outcome)) "incident requires an investigate decision"
  raise_if (not (i.decision.source == i.alert.source)) "decision source must match alert source"

pub record InvestigationRequest : Type 0 where
  pub incident : Incident
  pub desired_outcome : String
  pub required_capabilities : List String
  pub targets : List Entity

unfoldable pub request_post_init : InvestigationRequest → Result (Unit {0})
unfolding require_non_empty require_all_non_empty
request_post_init r = do
  require_non_empty r.desired_outcome "desired_outcome must be non-empty"
  raise_if (is_empty r.required_capabilities) "required_capabilities must contain at least one item"
  require_all_non_empty r.required_capabilities "capability must be non-empty"

unfoldable pub Decision-discrete : Discrete Decision
unfolding DecisionOutcome-discrete SourceProvenance-discrete string_discrete
Decision-discrete = hlevel (string_discrete, DecisionOutcome-discrete, SourceProvenance-discrete)

unfoldable pub Incident-discrete : Discrete Incident
unfolding Decision-discrete CanonicalAlert-discrete
Incident-discrete = hlevel (Decision-discrete, CanonicalAlert-discrete)

unfoldable pub InvestigationRequest-discrete : Discrete InvestigationRequest
unfolding Incident-discrete Entity-discrete string_discrete
InvestigationRequest-discrete = hlevel (Incident-discrete, Entity-discrete, string_discrete)

instance abbrev pub decision_equality : Eq Decision
decision_equality = eq_of_discrete Decision-discrete

instance abbrev pub incident_equality : Eq Incident
incident_equality = eq_of_discrete Incident-discrete

instance abbrev pub request_equality : Eq InvestigationRequest
request_equality = eq_of_discrete InvestigationRequest-discrete
