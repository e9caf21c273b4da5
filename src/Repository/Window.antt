-- ===== src/Repository/Window.antt =====
-- How many records `find_reconcilable` answers.
pub mod Order
pub mod Resumable
use alert2ir.Prelude.{ℕ, zero, suc, List, [], ◌∷◌, ◌≡◌, ◌≤◌, arith, ltb, subst}
use alert2ir.Python.Result.{check-ok, ok, raise_if, bind-ok, ◌>>=◌}
use alert2ir.Python.DateTime.{DateTime}
use alert2ir.Python.Dict.{values}
use alert2ir.Application.Record.{ProcessingRecord}
use alert2ir.Repository.Store.{Repository}
use alert2ir.Repository.Reconcilable.{find_reconcilable, take, collect_reconcilable, sort_records}

unfoldable pub length {ℓ} : {A : Type ℓ} → List A → ℕ
length [] = 0
length (x ∷ xs) = suc (length xs)

length-take {ℓ} : {A : Type ℓ} (n : ℕ) (xs : List A) → length (take n xs) ≤ n
unfolding length
length-take zero xs = omega arith
length-take (suc n) [] = omega arith
length-take (suc n) (x ∷ xs) = omega (arith, length-take n xs)

pub length-find :
    (limit : ℕ) (before : DateTime) (s : Repository) (rs : List ProcessingRecord)
    → find_reconcilable limit before s ≡ ok rs
    → length rs ≤ limit
unfolding find_reconcilable
length-find limit before s rs h =
    let h1 =
      check-ok (raise_if (ltb limit 1) "reconciliation limit must be positive")
        (collect_reconcilable s before (values s.records) >>= λ found.
          ok (take limit (sort_records found)))
        rs h in
    let (found, _, h2) =
      bind-ok (collect_reconcilable s before (values s.records))
        (λ found. ok (take limit (sort_records found))) rs h1 in
    let same : take limit (sort_records found) ≡ rs = cc in
    subst (λ x. length x ≤ limit) same (length-take limit (sort_records found))
