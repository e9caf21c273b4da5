-- ===== src/Repository/Reconcilable.antt =====
-- src/alert2ir/persistence/memory.py: `find_reconcilable`, the incomplete work of a bounded pass,
-- in order of (updated_at, processing_id). The text of a UUID orders like its number.
use alert2ir.Prelude.{
  ℕ, zero, suc, Option, none, some, List, [], ◌∷◌, Bool, true, false, ltb, leb, nat_eq,
  nat_equality, ◌&&◌, ◌||◌, if◌then◌else◌,
}
use alert2ir.Python.Result.{Result, ok, ◌>>=◌, ◌>>◌, raise_if}
use alert2ir.Python.DateTime.{DateTime, instant, at_most}
use alert2ir.Python.Dict.{values}
use alert2ir.Application.States.{ProcessingState}
use alert2ir.Application.Record.{ProcessingRecord}
use alert2ir.Application.Attempt.{ExecutionAttempt}
use alert2ir.Repository.Store.{Repository}
use alert2ir.Repository.Acceptance.{get_attempt_for_processing}

-- attempt is not None and attempt.started_at is not None and attempt.started_at <= stale_before
abbrev pub is_stale : DateTime → Option ExecutionAttempt → Result Bool
is_stale stale_before none = ok false
is_stale stale_before (some attempt) = elim attempt.started_at [
  | none ↦ ok false
  | some started ↦ at_most started stale_before
]

unfoldable pub is_reconcilable : Repository → DateTime → ProcessingRecord → Result Bool
unfolding get_attempt_for_processing
is_reconcilable s stale_before current = elim current.state [
  | ProcessingState.accepted ↦ ok true
  | ProcessingState.planned ↦ ok true
  | ProcessingState.submitted ↦ ok true
  | ProcessingState.submitting ↦
      (get_attempt_for_processing current.processing_id s).0 >>= is_stale stale_before
  | _ ↦ ok false
]

unfoldable pub collect_reconcilable :
    Repository → DateTime → List ProcessingRecord → Result (List ProcessingRecord)
collect_reconcilable s stale_before [] = ok []
collect_reconcilable s stale_before (r ∷ rs) = do
  found ← is_reconcilable s stale_before r
  rest ← collect_reconcilable s stale_before rs
  ok (if found then r ∷ rest else rest)

-- (a.updated_at, str(a.processing_id)) <= (b.updated_at, str(b.processing_id))
abbrev pub sorts_before : ProcessingRecord → ProcessingRecord → Bool
sorts_before a b =
    ltb (instant a.updated_at) (instant b.updated_at)
    || (nat_eq (instant a.updated_at) (instant b.updated_at) && leb a.processing_id b.processing_id)

unfoldable pub insert_sorted : ProcessingRecord → List ProcessingRecord → List ProcessingRecord
insert_sorted r [] = r ∷ []
insert_sorted r (x ∷ xs) = if sorts_before r x then r ∷ x ∷ xs else x ∷ insert_sorted r xs

-- values.sort(key=…)
unfoldable pub sort_records : List ProcessingRecord → List ProcessingRecord
unfolding insert_sorted
sort_records [] = []
sort_records (r ∷ rs) = insert_sorted r (sort_records rs)

-- values[:limit]
abbrev pub take {ℓ} : {A : Type ℓ} → ℕ → List A → List A
take zero xs = []
take (suc n) [] = []
take (suc n) (x ∷ xs) = x ∷ take n xs

unfoldable pub find_reconcilable : ℕ → DateTime → Repository → Result (List ProcessingRecord)
unfolding collect_reconcilable sort_records
find_reconcilable limit stale_before s = do
  raise_if (ltb limit 1) "reconciliation limit must be positive"
  found ← collect_reconcilable s stale_before (values s.records)
  ok (take limit (sort_records found))
