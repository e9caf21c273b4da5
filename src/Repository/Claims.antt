-- ===== src/Repository/Claims.antt =====
-- At most one caller ever claims an attempt, so that its backend operation is submitted at most
-- once, however the callers' operations interleave.
use alert2ir.Prelude.{
  subst, nat_eq_iff, ℕ, suc, ◌≤◌, Option, some, List, [], ◌∷◌, ◌≡◌, ◌≢◌, refl, true, false, Bool,
  ◌&&◌, ◌==◌, nat_equality, arith, inl, inr, Bool-cases, if◌then◌else◌, nat_eq_iff,
}
use alert2ir.Python.Result.{Result}
use alert2ir.Python.DateTime.{DateTime}
use alert2ir.Python.Dict.{get, get-put_self, get-put_fresh, put-present}
use alert2ir.Backends.Base.{Uuid}
use alert2ir.Application.States.{ProcessingState, ExecutionAttemptState}
use alert2ir.Application.Record.{record_post_init}
use alert2ir.Application.Attempt.{ExecutionAttempt, attempt_post_init}
use alert2ir.Repository.Store.{Repository, write_attempt}
use alert2ir.Repository.Progress.{
  claim_attempt_for_submission, claim_writes, claimed_attempt, moved_record,
}
use alert2ir.Repository.Call.{Call, claim, execute}
use alert2ir.Repository.Rules.{answered, with_attempt-rule, construct-rule}
use alert2ir.Repository.Change.{
  Change, unchanged, accepts, moves, advances, updates, plans, AttemptStep,
}
use alert2ir.Repository.Invariant.{Inv}
use alert2ir.Repository.Histories.{execute-Change, execute-Inv}

-- the call is a claim of this attempt, and it is granted
unfoldable pub grants : Uuid → Call → DateTime → Repository → Bool
grants a (claim b) now s = b == a && answered (claim_attempt_for_submission b now s).0
grants a _ now s = false

-- how many claims of an attempt a history grants
unfoldable pub claims : Uuid → List (Call × DateTime) → Repository → ℕ
claims a [] s = 0
claims a ((call, now) ∷ calls) s =
    let rest = claims a calls (execute call now s) in if grants a call now s then suc rest else rest

-- the attempt has left the state planned
abbrev pub IsStarted : Uuid → Repository → Type 0
IsStarted a s =
    (x : ExecutionAttempt) × (get s.attempts a ≡ some x) × (x.state ≢ ExecutionAttemptState.planned)

step-started :
    (x x' : ExecutionAttempt) → AttemptStep x x' → x'.state ≢ ExecutionAttemptState.planned
step-started x x' step e = ground (arith, step.moves)

put-IsStarted :
    (s : Repository) (a b : Uuid) (y y' : ExecutionAttempt)
    → AttemptStep y y'
    → IsStarted a s
    → IsStarted a (write_attempt s b y')
put-IsStarted s a b y y' step (x, found, started) =
    let (u, now, which) = put-present s.attempts b a y' x found in
    elim which [
      | inl (e, f) ↦ (u, now, rw f (step-started y y' step))
      | inr e ↦ (u, now, rw e started)
    ]

Change-IsStarted : {s t : Repository} (a : Uuid) → Change s t → IsStarted a s → IsStarted a t
Change-IsStarted a (unchanged e) h = rw e h
Change-IsStarted a (accepts k scope key r new e) h = rw e h
Change-IsStarted a (moves k r r' w e) h = rw e h
Change-IsStarted {s} a (advances b x x' w e) h = rw e (put-IsStarted s a b x x' w.step h)
Change-IsStarted {s} a (updates k b r r' x x' w v e) h = rw e (put-IsStarted s a b x x' v.step h)
Change-IsStarted {s} a (plans k b key r r' x w new e) (y, found, started) =
    rw e (y, get-put_fresh s.attempts b a x y new.fresh found, started)

module _ (s : Repository) (a : Uuid) (now : DateTime) where
  abbrev ClaimFacts : Result (Option ExecutionAttempt) × Repository → Type 0
  ClaimFacts out = answered out.0 ≡ true → (IsStarted a s → ⊥) × IsStarted a out.1

  claim-facts : ClaimFacts (claim_attempt_for_submission a now s)
  unfolding claim_attempt_for_submission
  claim-facts =
      with_attempt-rule ClaimFacts s a ExecutionAttemptState.planned ProcessingState.planned
        (claim_writes a now) (λ r e h. absurd (cc))
        λ x c found state found_record state'.
          construct-rule ClaimFacts s attempt_post_init (claimed_attempt x now) _
            (λ e h. absurd (cc))
            λ valid.
              construct-rule ClaimFacts (write_attempt s a (claimed_attempt x now)) record_post_init
                (moved_record c ProcessingState.submitting now) _ (λ e h. absurd (cc))
                λ valid' h. (
                  λ started. absurd (started.2 (ground arith)),
                  (
                    claimed_attempt x now,
                    get-put_self s.attempts a (claimed_attempt x now),
                    λ e. absurd (cc),
                  ),
                )

grants-facts :
    (s : Repository) (a : Uuid) (call : Call) (now : DateTime)
    → grants a call now s ≡ true
    → (IsStarted a s → ⊥) × IsStarted a (execute call now s)
unfolding grants execute
grants-facts s a (claim b) now h =
    let e : b ≡ a = ground (arith, nat_eq_iff b a) in
    let granted : answered (claim_attempt_for_submission b now s).0 ≡ true = ground arith in
    subst (λ i. (IsStarted i s → ⊥) × IsStarted i (claim_attempt_for_submission b now s).1) e
      (claim-facts s b now granted)
grants-facts s a _ now h = absurd (cc)

claims-started :
    (a : Uuid) (calls : List (Call × DateTime)) (s : Repository)
    → Inv s
    → IsStarted a s
    → claims a calls s ≡ 0
unfolding claims
claims-started a [] s inv h = refl
claims-started a ((call, now) ∷ calls) s inv h = elim (Bool-cases (grants a call now s)) [
  | inl e ↦ absurd ((grants-facts s a call now e).0 h)
  | inr e ↦ rw e (
      claims-started a calls (execute call now s) (execute-Inv s call now inv)
        (Change-IsStarted a (execute-Change s call now inv) h))
]

-- From a repository that satisfies the invariant, over any history of calls, from any number of
-- callers, at most one claim of an attempt is granted: every other answers None or raises.
pub claims-le-one :
    (a : Uuid) (calls : List (Call × DateTime)) (s : Repository) → Inv s → claims a calls s ≤ 1
unfolding claims
claims-le-one a [] s inv = omega arith
claims-le-one a ((call, now) ∷ calls) s inv =
    let inv' = execute-Inv s call now inv in
    elim (Bool-cases (grants a call now s)) [
      | inl e ↦ rw e (
          omega (
            arith,
            claims-started a calls (execute call now s) inv' (grants-facts s a call now e).1,
          ))
      | inr e ↦ rw e (claims-le-one a calls (execute call now s) inv')
    ]
