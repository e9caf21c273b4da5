-- ===== src/Tests/Histories.antt =====
-- The results on the repository, at a history of two calls.
use alert2ir.Core.Models.{CanonicalAlert-discrete}
use alert2ir.Python.DateTime.{DateTime-discrete}
use alert2ir.Core.Models.{DetectionIdentity-discrete}
use alert2ir.Core.Models.{Entity-discrete}
use alert2ir.Core.Models.{EvidenceReference-discrete}
use alert2ir.Core.Models.{Severity-discrete}
use alert2ir.Core.Models.{SourceProvenance-discrete}
use alert2ir.Application.Record.{error_check}
use alert2ir.Application.Record.{identity_check}
use alert2ir.Application.Record.{key_check}
use alert2ir.Repository.Plans.{no_action_write}
use alert2ir.Application.Record.{open_plan_check}
use alert2ir.Python.Dict.{put}
use alert2ir.Application.Record.{record_post_init}
use alert2ir.Application.Record.{require_aware}
use alert2ir.Application.Record.{require_bounded_error}
use alert2ir.Application.Record.{source_check}
use alert2ir.Application.Record.{state_check}
use alert2ir.Repository.Plans.{store_no_action_result}
use alert2ir.Prelude.{string_discrete}
use alert2ir.Application.Record.{times_check}
use alert2ir.Prelude.{some, [], ◌∷◌, ◌≡◌, ◌≤◌, ◌⊎◌, refl, true, nat_equality, string_equality}
use alert2ir.Python.Result.{ok}
use alert2ir.Python.DateTime.{aware}
use alert2ir.Python.Dict.{get, pair_equality}
use alert2ir.Application.Record.{ProcessingRecord}
use alert2ir.Repository.Store.{empty}
use alert2ir.Repository.Acceptance.{
  is_valid_key, new_record, create_processing, accept_identity, accept_processing,
}
use alert2ir.Repository.Change.{RecordStep}
use alert2ir.Repository.Reconcilable.{
  find_reconcilable, collect_reconcilable, is_reconcilable, sort_records, insert_sorted,
}
use alert2ir.Python.Dict.{values}
use alert2ir.Repository.Window.Order.{Window, find_reconcilable-Window}
use alert2ir.Repository.Call.{no_action_result, execute, run, claim}
use alert2ir.Repository.Invariant.{Inv, Inv-empty}
use alert2ir.Repository.Claims.{claims, claims-le-one}
use alert2ir.Repository.Replays.{accept_once, replay}
use alert2ir.Repository.Lifecycle.{
  run-empty-Inv, execute-RecordStep, completed_forever, SameIdentity, Kept, run-Kept,
}
use alert2ir.Tests.Data.{
  quiet_alert, loud_alert, digest, accepting, completing, accepted_record, completed_record,
  quiet_result,
}

accepted-found : get (run accepting empty).records 7 ≡ some accepted_record
unfolding run execute accept_processing accept_identity create_processing new_record is_valid_key
    record_post_init times_check identity_check key_check error_check require_aware
    require_bounded_error state_check open_plan_check source_check get put SourceProvenance-discrete
    CanonicalAlert-discrete DetectionIdentity-discrete Entity-discrete Severity-discrete
    EvidenceReference-discrete DateTime-discrete string_discrete mathlib.Core.Bool.xor
accepted-found = refl

acceptance-returns :
    accept_processing 7 quiet_alert "splunk" "key-1" 1 digest (aware 10) empty
    ≡ (ok (record { accepted_record = accepted_record; created = true }), run accepting empty)
unfolding run execute accept_processing accept_identity create_processing new_record is_valid_key
    record_post_init times_check identity_check key_check error_check require_aware
    require_bounded_error state_check open_plan_check source_check get put SourceProvenance-discrete
    CanonicalAlert-discrete DetectionIdentity-discrete Entity-discrete Severity-discrete
    EvidenceReference-discrete DateTime-discrete string_discrete mathlib.Core.Bool.xor
acceptance-returns = refl

completed-found : get (run completing empty).records 7 ≡ some completed_record
unfolding run execute accept_processing accept_identity create_processing new_record is_valid_key
    record_post_init times_check identity_check key_check error_check require_aware
    require_bounded_error state_check open_plan_check source_check get put SourceProvenance-discrete
    CanonicalAlert-discrete DetectionIdentity-discrete Entity-discrete Severity-discrete
    EvidenceReference-discrete DateTime-discrete string_discrete store_no_action_result
    no_action_write mathlib.Core.Bool.xor
completed-found = refl

claims-le-one_example : claims 21 ((claim 21, aware 20) ∷ (claim 21, aware 21) ∷ []) empty ≤ 1
claims-le-one_example =
    claims-le-one 21 ((claim 21, aware 20) ∷ (claim 21, aware 21) ∷ []) empty Inv-empty

accept_once_example :
    (r : ProcessingRecord) × (accept_processing 8 loud_alert "splunk" "key-1" 1 digest
        (aware 30)
        (run [] (run accepting empty))
      ≡ (ok (replay r), run [] (run accepting empty)))
    × SameIdentity accepted_record r
accept_once_example =
    accept_once empty (run accepting empty) 7 8 quiet_alert loud_alert "splunk" "key-1" 1 1 digest
      digest (aware 10) (aware 30) (record { accepted_record = accepted_record; created = true }) []
      Inv-empty acceptance-returns refl

execute-RecordStep_example :
    (r' : ProcessingRecord) × (get
        (execute (no_action_result 7 quiet_result) (aware 12) (run accepting empty)).records
        7
      ≡ some r')
    × ((r' ≡ accepted_record) ⊎ RecordStep accepted_record r')
execute-RecordStep_example =
    execute-RecordStep accepting (no_action_result 7 quiet_result) (aware 12) 7 accepted_record
      accepted-found

completed_forever_example :
    get (run accepting (run completing empty)).records 7 ≡ some completed_record
completed_forever_example =
    completed_forever (run completing empty) accepting 7 completed_record (run-empty-Inv completing)
      completed-found refl

run-Kept_example : Kept 7 accepted_record (run completing (run accepting empty))
run-Kept_example =
    run-Kept (run accepting empty) completing 7 accepted_record (run-empty-Inv accepting)
      accepted-found

run-empty-Inv_example : Inv (run completing empty)
run-empty-Inv_example = run-empty-Inv completing

one-found : find_reconcilable 5 (aware 50) (run accepting empty) ≡ ok (accepted_record ∷ [])
unfolding run execute accept_processing accept_identity create_processing new_record is_valid_key
    record_post_init times_check identity_check key_check error_check require_aware
    require_bounded_error state_check open_plan_check source_check get put SourceProvenance-discrete
    CanonicalAlert-discrete DetectionIdentity-discrete Entity-discrete Severity-discrete
    EvidenceReference-discrete DateTime-discrete string_discrete mathlib.Core.Bool.xor
    find_reconcilable collect_reconcilable is_reconcilable sort_records insert_sorted values
one-found = refl

find_reconcilable-Window_example : Window 5 (aware 50) (run accepting empty) (accepted_record ∷ [])
find_reconcilable-Window_example =
    find_reconcilable-Window 5 (aware 50) (run accepting empty) (accepted_record ∷ []) one-found
