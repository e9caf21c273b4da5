-- ===== src/Application/Orchestrator/Plans.antt =====
-- What a plan holds, whatever the policy and the request factory answer.
use alert2ir.Prelude.{
  String, not, some, ◌≡◌, refl, ◌==◌, ==_iff, Bool, true, false, not, sym, subst,
}
use alert2ir.Python.Result.{Result, ok, err, ◌>>=◌, ◌>>◌, raise_if, bind-ok, check-ok}
use alert2ir.Core.Models.{CanonicalAlert, source_equality}
use alert2ir.Core.Workflow.{
  Decision, DecisionOutcome, investigate, no_action, Incident, InvestigationRequest,
  incident_post_init, decision_equality, incident_equality,
}
use alert2ir.Backends.Base.{InvestigationBackend}
use alert2ir.Backends.Router.{select}
use alert2ir.Application.Orchestrator.{
  AlertOrchestrator, PlanningResult, plan, plan_investigation, no_action_plan, construct,
  plan_post_init,
}

abbrev pub incident_of : CanonicalAlert → Decision → Incident
incident_of alert decision = record { alert = alert; decision = decision }

-- the parts of a plan, by the outcome of its decision
pub data Complete (o : AlertOrchestrator) (alert : CanonicalAlert) (r : PlanningResult)
    : Type 0 where
  quiet : r.decision.outcome ≡ no_action → r ≡ no_action_plan r.decision → Complete o alert r
  loud :
      (q : InvestigationRequest) (b : InvestigationBackend)
      → r.decision.outcome ≡ investigate
      → o.request_factory (incident_of alert r.decision) ≡ ok q
      → select o.backends q ≡ ok b
      → r ≡ record {
        decision = r.decision;
        incident = some (incident_of alert r.decision);
        investigation_request = some q;
        backend = some b;
      }
      → Complete o alert r

constructed {ℓ} :
    {A : Type ℓ} (check : A → Result (Unit {0})) (a b : A) → construct check a ≡ ok b → a ≡ b
constructed check a b h = go (check a) h
  where
    go : (c : Result (Unit {0})) → (c >> ok a) ≡ ok b → a ≡ b
    go (ok tt) h' = cc
    go (err e) h' = absurd (cc)

built {ℓ κ} :
    {A : Type ℓ} {B : Type κ} (check : A → Result (Unit {0})) (a : A) (f : A → Result B) (b : B)
    → (construct check a >>= f) ≡ ok b
    → f a ≡ ok b
built check a f b h = go (check a) h
  where
    go : (c : Result (Unit {0})) → ((c >> ok a) >>= f) ≡ ok b → f a ≡ ok b
    go (ok tt) h' = h'
    go (err e) h' = absurd (cc)

investigation-Complete :
    (o : AlertOrchestrator) (alert : CanonicalAlert) (d : Decision) (r : PlanningResult)
    → d.outcome ≡ investigate
    → plan_investigation o alert d ≡ ok r
    → (r.decision ≡ d) × Complete o alert r
unfolding plan_investigation
investigation-Complete o alert d r outcome h =
    let i = incident_of alert d in
    let h1 = built incident_post_init i _ r h in
    let (q, answered, h2) = bind-ok (o.request_factory i) _ r h1 in
    let h3 =
      check-ok
        (raise_if (not (q.incident == i)) "investigation request incident must match incident") _ r
        h2 in
    let (b, selected, h4) = bind-ok (select o.backends q) _ r h3 in
    let same = constructed plan_post_init _ r h4 in
    subst (λ x. (x.decision ≡ d) × Complete o alert x) same
      (refl, loud q b outcome answered selected refl)

passed {ℓ} :
    {A : Type ℓ} (t : Bool) (message : String) (k : Result A) (a : A)
    → (raise_if (not t) message >> k) ≡ ok a
    → t ≡ true
passed true message k a h = refl
passed false message k a h = absurd (cc)

by_outcome :
    (o : AlertOrchestrator) (alert : CanonicalAlert) (d : Decision) (r : PlanningResult)
    (outcome : DecisionOutcome)
    → d.outcome ≡ outcome
    → elim outcome [
      | no_action ↦ construct plan_post_init (no_action_plan d)
      | investigate ↦ plan_investigation o alert d
    ]
      ≡ ok r
    → (r.decision ≡ d) × Complete o alert r
by_outcome o alert d r no_action e h =
    subst (λ x. (x.decision ≡ d) × Complete o alert x)
      (constructed plan_post_init (no_action_plan d) r h) (refl, quiet e refl)
by_outcome o alert d r investigate e h = investigation-Complete o alert d r e h

-- A plan that is returned has the policy's decision, of the alert's source. For no_action it holds
-- nothing else. For investigate it holds the incident of the alert and the decision, the request
-- that the factory made of it, and the backend that the router selects for the request.
pub plan-Complete :
    (o : AlertOrchestrator) (alert : CanonicalAlert) (r : PlanningResult)
    → plan o alert ≡ ok r
    → (o.policy alert ≡ ok r.decision) × (r.decision.source ≡ alert.source) × Complete o alert r
unfolding plan
plan-Complete o alert r h =
    let (d, decided, h1) = bind-ok (o.policy alert) _ r h in
    let agrees =
      passed (d.source == alert.source) "decision source must match alert source" _ r h1 in
    let (same, complete) = by_outcome o alert d r d.outcome refl (
      check-ok (raise_if (not (d.source == alert.source)) "decision source must match alert source")
        _ r h1) in
    (
      subst (λ x. o.policy alert ≡ ok x) (sym same) decided,
      subst (λ x. x.source ≡ alert.source) (sym same) ((==_iff d.source alert.source).0 agrees),
      complete,
    )
