-- ===== src/Repository/Lifecycle.antt =====
-- The life of a record over any history of calls by any callers.
use alert2ir.Prelude.{ap, some, List, ◌≡◌, ◌∙◌, nat_equality, arith, ◌⊎◌, inl, inr}
use alert2ir.Python.DateTime.{DateTime}
use alert2ir.Python.Dict.{get}
use alert2ir.Backends.Base.{Uuid}
use alert2ir.Application.States.{ProcessingState}
use alert2ir.Application.Record.{ProcessingRecord}
use alert2ir.Repository.Store.{Repository, empty}
use alert2ir.Repository.Call.{Call, execute, run}
use alert2ir.Repository.Change.{Change, RecordStep}
use alert2ir.Repository.Invariant.{Inv, Inv-empty}
use alert2ir.Repository.Histories.{execute-Change, run_induction, run-Inv, Change-RecordLife}

-- After any history that began with the empty repository, its dicts agree with one another, every
-- stored record and attempt has passed its checks, and no two attempts share an operation key.
pub run-empty-Inv : (calls : List (Call × DateTime)) → Inv (run calls empty)
run-empty-Inv calls = run-Inv empty calls Inv-empty

-- After any history, one more call of any kind, whether it returns or raises, leaves each stored
-- record as it is or makes one step: identity, alert, creation time and fingerprint stay, the new
-- state is the old one or one that the transition table allows, and the old state is not
-- completed.
pub execute-RecordStep :
    (calls : List (Call × DateTime)) (call : Call) (now : DateTime) (k : Uuid)
    (r : ProcessingRecord)
    → get (run calls empty).records k ≡ some r
    → (r' : ProcessingRecord) × (get (execute call now (run calls empty)).records k ≡ some r')
      × ((r' ≡ r) ⊎ RecordStep r r')
execute-RecordStep calls call now k r found =
    Change-RecordLife (run calls empty) _ k r
      (execute-Change (run calls empty) call now (run-empty-Inv calls)) found

completed_kept :
    (k : Uuid) (r : ProcessingRecord)
    → r.state ≡ ProcessingState.completed
    → (s t : Repository) → Inv s
    → Change s t
    → get s.records k ≡ some r
    → get t.records k ≡ some r
completed_kept k r done s t inv change found =
    let (r', now, which) = Change-RecordLife s t k r change found in
    elim which [ inl e ↦ now ∙ ap some e | inr step ↦ absurd (step.not_completed done) ]

-- In a repository that satisfies the invariant, a stored completed record is the same record after
-- any further history.
pub completed_forever :
    (s : Repository) (calls : List (Call × DateTime)) (k : Uuid) (r : ProcessingRecord)
    → Inv s
    → get s.records k ≡ some r
    → r.state ≡ ProcessingState.completed
    → get (run calls s).records k ≡ some r
completed_forever s calls k r inv found done =
    run_induction (λ t. get t.records k ≡ some r) (completed_kept k r done) s calls inv found

-- what of a record no operation changes
pub record SameIdentity (r r' : ProcessingRecord) : Type 0 where
  pub same_id : r'.processing_id ≡ r.processing_id
  pub same_alert : r'.alert ≡ r.alert
  pub same_created : r'.created_at ≡ r.created_at
  pub same_scope : r'.idempotency_scope ≡ r.idempotency_scope
  pub same_key : r'.idempotency_key ≡ r.idempotency_key
  pub same_version : r'.fingerprint_version ≡ r.fingerprint_version
  pub same_digest : r'.request_fingerprint ≡ r.request_fingerprint

abbrev pub Kept : Uuid → ProcessingRecord → Repository → Type 0
Kept k r t = (r' : ProcessingRecord) × (get t.records k ≡ some r') × SameIdentity r r'

SameIdentity-step :
    (r r' r'' : ProcessingRecord)
    → SameIdentity r r'
    → (r'' ≡ r') ⊎ RecordStep r' r''
    → SameIdentity r r''
SameIdentity-step r r' r'' same (inl e) = rw e same
SameIdentity-step r r' r'' same (inr step) = ground arith

Change-Kept :
    (k : Uuid) (r : ProcessingRecord) (s t : Repository)
    → Inv s
    → Change s t
    → Kept k r s
    → Kept k r t
Change-Kept k r s t inv change (r', found, same) =
    let (r'', now, which) = Change-RecordLife s t k r' change found in
    (r'', now, SameIdentity-step r r' r'' same which)

-- From a repository that satisfies the invariant, a stored record stays stored over any history,
-- and keeps its identity, its alert, its time of creation and its fingerprint.
pub run-Kept :
    (s : Repository) (calls : List (Call × DateTime)) (k : Uuid) (r : ProcessingRecord)
    → Inv s
    → get s.records k ≡ some r
    → Kept k r (run calls s)
run-Kept s calls k r inv found =
    run_induction (Kept k r) (Change-Kept k r) s calls inv (r, found, ground arith)
