-- ===== src/Repository/Window/Resumable.antt =====
-- Which records `find_reconcilable` collects: those whose work a pass may resume.
use mathlib.Core.List.{Perm, perm_middle}
use mathlib.Core.List.Perm
use alert2ir.Prelude.{
  if◌then◌else◌, Bool, ◌≤◌, Option, none, some, List, [], ◌∷◌, ◌++◌, ◌≡◌, ◌⊎◌, refl, true, false,
  leb, nat_equality, inl, inr, arith, subst, Option-cases,
}
use alert2ir.Python.Result.{err, key_error, ok, bind-ok}
use alert2ir.Python.DateTime.{DateTime, naive, aware, instant, at_most}
use alert2ir.Python.Dict.{get}
use alert2ir.Backends.Base.{Uuid}
use alert2ir.Application.States.{ProcessingState}
use alert2ir.Application.Record.{ProcessingRecord}
use alert2ir.Application.Attempt.{ExecutionAttempt}
use alert2ir.Repository.Store.{Repository}
use alert2ir.Repository.Acceptance.{get_attempt_for_processing}
use alert2ir.Repository.Reconcilable.{is_stale, is_reconcilable, collect_reconcilable}

-- work that is not submitted yet or that is under way, or a submission that started at `before` or
-- earlier
pub data MayResume (s : Repository) (before : DateTime) (r : ProcessingRecord) : Type 0 where
  incomplete :
      (r.state ≡ ProcessingState.accepted)
        ⊎ ((r.state ≡ ProcessingState.planned) ⊎ (r.state ≡ ProcessingState.submitted))
      → MayResume s before r
  stale :
      (attempt_id : Uuid) (attempt : ExecutionAttempt) (started : DateTime)
      → r.state ≡ ProcessingState.submitting
      → get s.attempt_by_processing r.processing_id ≡ some attempt_id
      → get s.attempts attempt_id ≡ some attempt
      → attempt.started_at ≡ some started
      → instant started ≤ instant before
      → MayResume s before r

-- every record of the list has the property
abbrev pub AllOf : (ProcessingRecord → Type 0) → List ProcessingRecord → Type 0
AllOf P [] = Unit {0}
AllOf P (x ∷ xs) = P x × AllOf P xs

at_most-true : (a b : DateTime) → at_most a b ≡ ok true → instant a ≤ instant b
at_most-true (naive a) (naive b) h = let below : leb a b ≡ true = cc in ground (arith, below)
at_most-true (naive a) (aware b) h = absurd (cc)
at_most-true (aware a) (naive b) h = absurd (cc)
at_most-true (aware a) (aware b) h = let below : leb a b ≡ true = cc in ground (arith, below)

at_most-false : (a b : DateTime) → at_most a b ≡ ok false → ¬ (instant a ≤ instant b)
at_most-false (naive a) (naive b) h below =
    let above : leb a b ≡ false = cc in ground (arith, above, below)
at_most-false (naive a) (aware b) h below = absurd (cc)
at_most-false (aware a) (naive b) h below = absurd (cc)
at_most-false (aware a) (aware b) h below =
    let above : leb a b ≡ false = cc in ground (arith, above, below)

module _ (s : Repository) (before : DateTime) (r : ProcessingRecord) where
  attempt_found :
      (attempt : ExecutionAttempt)
      → (get_attempt_for_processing r.processing_id s).0 ≡ ok (some attempt)
      → (attempt_id : Uuid) × (get s.attempt_by_processing r.processing_id ≡ some attempt_id)
        × (get s.attempts attempt_id ≡ some attempt)
  unfolding get_attempt_for_processing
  attempt_found attempt h = elim (Option-cases (get s.attempt_by_processing r.processing_id)) [
    | inl unbound ↦ absurd (
        let wrong : ok none ≡ ok (some attempt) = rw (unbound, get_attempt_for_processing) at h in
        cc)
    | inr (attempt_id, bound) ↦
        let h1 = rw (bound, get_attempt_for_processing) at h in
        elim (Option-cases (get s.attempts attempt_id)) [
          | inl missing ↦
              absurd (let wrong : err key_error ≡ ok (some attempt) = rw missing at h1 in cc)
          | inr (found, stored) ↦
              let got : ok (some found) ≡ ok (some attempt) = rw stored at h1 in
              let same : found ≡ attempt = cc in
              (attempt_id, bound, subst (λ a. get s.attempts attempt_id ≡ some a) same stored)
        ]
  ]

  attempt_for_processing :
      (attempt_id : Uuid) (attempt : ExecutionAttempt)
      → get s.attempt_by_processing r.processing_id ≡ some attempt_id
      → get s.attempts attempt_id ≡ some attempt
      → (get_attempt_for_processing r.processing_id s).0 ≡ ok (some attempt)
  unfolding get_attempt_for_processing
  attempt_for_processing attempt_id attempt bound stored =
      rw (bound, get_attempt_for_processing) (rw stored refl)

  stale_attempt :
      (found : Option ExecutionAttempt)
      → r.state ≡ ProcessingState.submitting
      → (get_attempt_for_processing r.processing_id s).0 ≡ ok found
      → is_stale before found ≡ ok true
      → MayResume s before r
  stale_attempt none e got h = absurd (cc)
  stale_attempt (some attempt) e got h = elim (Option-cases attempt.started_at) [
    | inl never ↦ absurd (let wrong : ok false ≡ ok true = rw (never, is_stale) at h in cc)
    | inr (started, at) ↦
        let (attempt_id, bound, stored) = attempt_found attempt got in
        stale attempt_id attempt started e bound stored at
          (at_most-true started before (rw (at, is_stale) at h))
  ]

  resumed :
      (state : ProcessingState)
      → r.state ≡ state
      → is_reconcilable s before r ≡ ok true
      → MayResume s before r
  unfolding is_reconcilable
  resumed ProcessingState.accepted e h = incomplete (inl e)
  resumed ProcessingState.planned e h = incomplete (inr (inl e))
  resumed ProcessingState.submitted e h = incomplete (inr (inr e))
  resumed ProcessingState.submitting e h =
      let (found, got, h1) =
        bind-ok (get_attempt_for_processing r.processing_id s).0 (is_stale before) true
          (rw (e, is_reconcilable) at h) in
      stale_attempt found e got h1
  resumed ProcessingState.completed e h =
      absurd (let wrong : ok false ≡ ok true = rw (e, is_reconcilable) at h in cc)
  resumed ProcessingState.failed e h =
      absurd (let wrong : ok false ≡ ok true = rw (e, is_reconcilable) at h in cc)
  resumed ProcessingState.recovery_required e h =
      absurd (let wrong : ok false ≡ ok true = rw (e, is_reconcilable) at h in cc)

  -- the test answers True for a record that a pass may resume
  pub is_reconcilable-MayResume : is_reconcilable s before r ≡ ok true → MayResume s before r
  is_reconcilable-MayResume h = resumed r.state refl h

  -- and False for no other
  pub is_reconcilable-refused : is_reconcilable s before r ≡ ok false → ¬ MayResume s before r
  unfolding is_reconcilable
  is_reconcilable-refused h (incomplete (inl e)) =
      let wrong : ok true ≡ ok false = rw (e, is_reconcilable) at h in cc
  is_reconcilable-refused h (incomplete (inr (inl e))) =
      let wrong : ok true ≡ ok false = rw (e, is_reconcilable) at h in cc
  is_reconcilable-refused h (incomplete (inr (inr e))) =
      let wrong : ok true ≡ ok false = rw (e, is_reconcilable) at h in cc
  is_reconcilable-refused h (stale attempt_id attempt started e bound stored at below) =
      let got = attempt_for_processing attempt_id attempt bound stored in
      let tested : is_stale before (some attempt) ≡ ok false =
        rw got at (rw (e, is_reconcilable) at h) in
      at_most-false started before (rw (at, is_stale) at tested) below

-- a list is the records that are collected and those that are not
pub record Split (s : Repository) (before : DateTime) (xs found : List ProcessingRecord)
    : Type 0 where
  pub others : List ProcessingRecord
  pub same : Perm (found ++ others) xs
  pub resumable : AllOf (MayResume s before) found
  pub refused : AllOf (λ r. ¬ MayResume s before r) others

module _ (s : Repository) (before : DateTime) where
  Split-cons :
      (x : ProcessingRecord) (xs rest : List ProcessingRecord) (t : Bool)
      → is_reconcilable s before x ≡ ok t
      → Split s before xs rest
      → Split s before (x ∷ xs) (if t then x ∷ rest else rest)
  Split-cons x xs rest true e p = record {
    others = p.others;
    same = Perm.cons x p.same;
    resumable = (is_reconcilable-MayResume s before x e, p.resumable);
    refused = p.refused;
  }
  Split-cons x xs rest false e p = record {
    others = x ∷ p.others;
    same = Perm.trans (perm_middle rest p.others) (Perm.cons x p.same);
    resumable = p.resumable;
    refused = (is_reconcilable-refused s before x e, p.refused);
  }

  pub collect-Split :
      (xs found : List ProcessingRecord)
      → collect_reconcilable s before xs ≡ ok found
      → Split s before xs found
  unfolding collect_reconcilable
  collect-Split [] found h =
      let same : [] ≡ found = cc in
      subst (Split s before []) same
        (record { others = []; same = Perm.rfl; resumable = tt; refused = tt })
  collect-Split (x ∷ xs) found h =
      let (t, tested, h1) = bind-ok (is_reconcilable s before x) _ found h in
      let (rest, collected, h2) = bind-ok (collect_reconcilable s before xs) _ found h1 in
      let same : (if t then x ∷ rest else rest) ≡ found = cc in
      subst (Split s before (x ∷ xs)) same
        (Split-cons x xs rest t tested (collect-Split xs rest collected))
