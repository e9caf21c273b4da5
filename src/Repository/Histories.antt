-- ===== src/Repository/Histories.antt =====
-- What holds after any history of calls, by any callers: the invariant, the records' lives, and
-- the bindings of idempotency keys.
use alert2ir.Prelude.{
  some, List, [], ◌∷◌, ◌≡◌, refl, nat_equality, string_equality, arith, ◌⊎◌, inl, inr,
}
use alert2ir.Python.DateTime.{DateTime}
use alert2ir.Python.Dict.{get, put, get-put_fresh, put-present, pair_equality}
use alert2ir.Backends.Base.{Uuid}
use alert2ir.Application.Record.{ProcessingRecord}
use alert2ir.Repository.Store.{Repository}
use alert2ir.Repository.Call.{
  Call, accept, no_action_result, plan, claim, mark_submitted, poll, complete, fail, recovery,
  execute, run,
}
use alert2ir.Repository.Change.{
  Change, unchanged, accepts, moves, advances, updates, plans, RecordStep,
}
use alert2ir.Repository.Invariant.{Inv}
use alert2ir.Repository.Preservation.{Change-Inv}
use alert2ir.Repository.Effects.Acceptance.{accept-Change, no_action-Change, plan-Change}
use alert2ir.Repository.Effects.Progress.{
  claim-Change, submitted-Change, poll-Change, complete-Change,
}
use alert2ir.Repository.Effects.Failure.{fail-Change, recovery-Change}

pub execute-Change :
    (s : Repository) (call : Call) (now : DateTime) → Inv s → Change s (execute call now s)
unfolding execute
execute-Change s (accept k alert scope key version digest) now inv =
    accept-Change s k alert scope key version digest now
execute-Change s (no_action_result k result) now inv = no_action-Change s k result now
execute-Change s (plan k d i q b a key) now inv = plan-Change s k d i q b a key now
execute-Change s (claim a) now inv = claim-Change s inv a now
execute-Change s (mark_submitted a external) now inv = submitted-Change s inv a external now
execute-Change s (poll a remote category detail) now inv =
    poll-Change s inv a remote category detail now
execute-Change s (complete a result) now inv = complete-Change s inv a result now
execute-Change s (fail k expected category detail a) now inv =
    fail-Change s inv k expected category detail a now
execute-Change s (recovery a expected category detail) now inv =
    recovery-Change s inv a expected category detail now

pub execute-Inv : (s : Repository) (call : Call) (now : DateTime) → Inv s → Inv (execute call now s)
execute-Inv s call now inv = Change-Inv inv (execute-Change s call now inv)

-- A rule for histories: what every change keeps, under the invariant, every history keeps.
module _ {ℓ} (P : Repository → Type ℓ)
    (keep : (s t : Repository) → Inv s → Change s t → P s → P t) where
  pub run_induction :
      (s : Repository) (calls : List (Call × DateTime)) → Inv s → P s → P (run calls s)
  unfolding run
  run_induction s [] inv h = h
  run_induction s ((call, now) ∷ calls) inv h =
      run_induction (execute call now s) calls (execute-Inv s call now inv)
        (keep s (execute call now s) inv (execute-Change s call now inv) h)

pub run-Inv : (s : Repository) (calls : List (Call × DateTime)) → Inv s → Inv (run calls s)
run-Inv s calls inv = run_induction Inv (λ u t i c h. Change-Inv h c) s calls inv inv

-- one change of the record at a key
abbrev RecordLife : Repository → Uuid → ProcessingRecord → Type 0
RecordLife t k r =
    (r' : ProcessingRecord) × (get t.records k ≡ some r') × ((r' ≡ r) ⊎ RecordStep r r')

written :
    (s : Repository) (k j : Uuid) (r c c' : ProcessingRecord)
    → get s.records k ≡ some r
    → get s.records j ≡ some c
    → RecordStep c c'
    → RecordLife (record s { records = put s.records j c' }) k r
written s k j r c c' found found' step =
    let (u, now, which) = put-present s.records j k c' r found in
    elim which [ inl (e, f) ↦ (u, now, inr (rw (f, same e) step)) | inr e ↦ (u, now, inl e) ]
  where
    same : k ≡ j → r ≡ c
    same e = ground (arith, found, found')

pub Change-RecordLife :
    (s t : Repository) (k : Uuid) (r : ProcessingRecord)
    → Change s t
    → get s.records k ≡ some r
    → RecordLife t k r
Change-RecordLife s t k r (unchanged e) found = (r, rw e found, inl refl)
Change-RecordLife s t k r (accepts j scope key x new e) found =
    (r, rw e (get-put_fresh s.records j k x r new.fresh found), inl refl)
Change-RecordLife s t k r (moves j c c' w e) found =
    rw e (written s k j r c c' found w.found w.step)
Change-RecordLife s t k r (advances a x x' w e) found = (r, rw e found, inl refl)
Change-RecordLife s t k r (updates j a c c' x x' w v e) found =
    rw e (written s k j r c c' found w.found w.step)
Change-RecordLife s t k r (plans j a key c c' x w new e) found =
    rw e (written s k j r c c' found w.found w.step)
