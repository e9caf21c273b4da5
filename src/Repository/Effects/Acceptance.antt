-- ===== src/Repository/Effects/Acceptance.antt =====
-- What acceptance, a no-action result and a plan do to the repository.
use alert2ir.Prelude.{
  ℕ, String, Option, none, some, List, ◌≡◌, refl, false, not, ◌&&◌, ◌||◌, nat_equality,
  string_equality, arith, ◌==◌, ==_iff,
}
use alert2ir.Python.DateTime.{DateTime}
use alert2ir.Python.Dict.{get, pair_equality}
use alert2ir.Python.Optional.{is_some}
use alert2ir.Core.Models.{CanonicalAlert}
use alert2ir.Core.Workflow.{Decision, Incident, InvestigationRequest, is_investigate}
use alert2ir.Backends.Base.{Uuid}
use alert2ir.Application.Orchestrator.{OrchestrationResult}
use alert2ir.Application.States.{
  ProcessingState, processing_state_equality, processing_transition_allowed,
}
use alert2ir.Application.Record.{ProcessingRecord, record_post_init}
use alert2ir.Application.Attempt.{attempt_post_init}
use alert2ir.Repository.Store.{Repository, having}
use alert2ir.Repository.Acceptance.{
  ProcessingAcceptance, accept_processing, create_processing, accept_existing, is_valid_key,
  new_record, accept_identity,
}
use alert2ir.Repository.Plans.{
  PlannedProcessing, no_action_record, store_no_action_result, store_plan, planned_record_of,
  planned_attempt, contains_id, no_action_write, plan_writes, plan_write,
}
use alert2ir.Repository.Rules.{
  construct-rule, when_found-rule, load_record-rule, raise_if-rule, having-some,
}
use alert2ir.Repository.Change.{Change, unchanged, accepts, moves, plans, RecordStep}

no_action-step :
    (r : ProcessingRecord) (result : OrchestrationResult) (now : DateTime)
    → r.state ≡ ProcessingState.accepted
    → RecordStep r (no_action_record r result now)
unfolding processing_transition_allowed
no_action-step r result now e = ground arith

plan-step :
    (r : ProcessingRecord) (d : Decision) (i : Incident) (q : InvestigationRequest) (b : String)
    (now : DateTime)
    → r.state ≡ ProcessingState.accepted
    → RecordStep r (planned_record_of r d i q b now)
unfolding processing_transition_allowed
plan-step r d i q b now e = ground arith

absent : {A : Type 0} (o : Option A) → is_some o ≡ false → o ≡ none
absent none e = refl
absent (some a) e = absurd (cc)

module _ (s : Repository) where
  create-Change :
      (k : Uuid) (alert : CanonicalAlert) (scope key : String) (version : ℕ) (digest : List ℕ)
      (now : DateTime)
      → get s.idempotency (scope, key) ≡ none
      → Change s (create_processing k alert scope key version digest now s).1
  unfolding create_processing new_record
  create-Change k alert scope key version digest now unbound =
      raise_if-rule {B = ProcessingAcceptance} (λ out. Change s out.1) s (is_some (get s.records k))
        "processing ID already exists" _ (λ _. unchanged refl)
        λ missing.
          construct-rule (λ out. Change s out.1) s record_post_init
            (new_record k alert scope key version digest now) _ (λ _. unchanged refl)
            λ valid.
              accepts k scope key (new_record k alert scope key version digest now)
                (record {
                  fresh = absent (get s.records k) missing;
                  unbound = unbound;
                  own_id = refl;
                  own_scope = refl;
                  own_key = refl;
                  is_accepted = refl;
                  valid = valid;
                })
                refl

  accept_identity-Change :
      (o : Option Uuid) (k : Uuid) (alert : CanonicalAlert) (scope key : String) (version : ℕ)
      (digest : List ℕ) (now : DateTime)
      → get s.idempotency (scope, key) ≡ o
      → Change s (accept_existing o (create_processing k alert scope key version digest now) s).1
  accept_identity-Change none k alert scope key version digest now e =
      create-Change k alert scope key version digest now e
  accept_identity-Change (some j) k alert scope key version digest now e =
      load_record-rule {B = ProcessingAcceptance} (λ out. Change s out.1) s j _ (unchanged refl)
        (λ r found. unchanged refl)

  pub accept-Change :
      (k : Uuid) (alert : CanonicalAlert) (scope key : String) (version : ℕ) (digest : List ℕ)
      (now : DateTime)
      → Change s (accept_processing k alert scope key version digest now s).1
  unfolding accept_processing
  accept-Change k alert scope key version digest now =
      raise_if-rule {B = ProcessingAcceptance} (λ out. Change s out.1) s
        (not (scope == alert.source.source)) "idempotency scope must equal canonical source"
        (accept_identity k alert scope key version digest now) (λ _. unchanged refl)
        λ _.
          raise_if-rule {B = ProcessingAcceptance} (λ out. Change s out.1) s
            (not (is_valid_key key)) "idempotency key must be visible ASCII" _ (λ _. unchanged refl)
            λ _.
              accept_identity-Change (get s.idempotency (scope, key)) k alert scope key version
                digest now refl

  pub no_action-Change :
      (k : Uuid) (result : OrchestrationResult) (now : DateTime)
      → Change s (store_no_action_result k result now s).1
  unfolding store_no_action_result
  no_action-Change k result now =
      raise_if-rule {B = Option ProcessingRecord} (λ out. Change s out.1) s
        (is_investigate result.decision.outcome) "no-action completion requires a no_action result"
        (no_action_write k result now) (λ _. unchanged refl)
        λ _.
          when_found-rule (λ out. Change s out.1) s
            (having (λ r. r.state == ProcessingState.accepted) (get s.records k)) _ (unchanged refl)
            λ c e.
              let (found, state) =
                having-some (λ (r : ProcessingRecord). r.state == ProcessingState.accepted)
                  (get s.records k) e in
              construct-rule (λ out. Change s out.1) s record_post_init
                (no_action_record c result now) _ (λ _. unchanged refl)
                λ valid.
                  moves k c (no_action_record c result now)
                    (record {
                      found = found;
                      step = no_action-step c result now ((==_iff c.state _).0 state);
                      valid = valid;
                    })
                    refl

  plan_writes-Change :
      (k : Uuid) (d : Decision) (i : Incident) (q : InvestigationRequest) (b : String)
      (a key : Uuid) (now : DateTime) (c : ProcessingRecord)
      → get s.records k ≡ some c
      → c.state ≡ ProcessingState.accepted
      → get s.attempt_by_processing k ≡ none
      → Change s (plan_writes k d i q b a key now c s).1
  unfolding plan_writes
  plan_writes-Change k d i q b a key now c found state unplanned =
      raise_if-rule {B = Option PlannedProcessing} (λ out. Change s out.1) s
        (is_some (get s.attempts a) || contains_id key s.operation_keys)
        "attempt or operation key already exists" _ (λ _. unchanged refl)
        λ free.
          construct-rule (λ out. Change s out.1) s record_post_init
            (planned_record_of c d i q b now) _ (λ _. unchanged refl)
            λ valid.
              construct-rule (λ out. Change s out.1) s attempt_post_init
                (planned_attempt a k key b now) _ (λ _. unchanged refl)
                λ valid'.
                  plans k a key c (planned_record_of c d i q b now) (planned_attempt a k key b now)
                    (record { found = found; step = plan-step c d i q b now state; valid = valid })
                    (record {
                      no_attempt = unplanned;
                      fresh = absent (get s.attempts a) (ground arith);
                      fresh_key = ground arith;
                      own_id = refl;
                      own_processing = refl;
                      own_key = refl;
                      is_planned = refl;
                      valid = valid';
                    })
                    refl

  pub plan-Change :
      (k : Uuid) (d : Decision) (i : Incident) (q : InvestigationRequest) (b : String)
      (a key : Uuid) (now : DateTime)
      → Change s (store_plan k d i q b a key now s).1
  unfolding store_plan
  plan-Change k d i q b a key now =
      raise_if-rule {B = Option PlannedProcessing} (λ out. Change s out.1) s
        (not (is_investigate d.outcome)) "execution plan requires an investigate decision"
        (plan_write k d i q b a key now) (λ _. unchanged refl)
        λ _.
          when_found-rule (λ out. Change s out.1) s
            (having
              (λ r.
                r.state == ProcessingState.accepted
                && not (is_some (get s.attempt_by_processing k)))
              (get s.records k))
            (plan_writes k d i q b a key now) (unchanged refl)
            λ c e.
              let (found, passed) =
                having-some
                  (λ (r : ProcessingRecord).
                    r.state == ProcessingState.accepted
                    && not (is_some (get s.attempt_by_processing k)))
                  (get s.records k) e in
              plan_writes-Change k d i q b a key now c found (ground (arith, passed))
                (absent (get s.attempt_by_processing k) (ground (arith, passed)))
