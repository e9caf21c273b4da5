-- ===== src/Processing/Invariant.antt =====
-- The invariant of the processor's world: the repository's, and that the operation keys given to
-- backends are distinct and belong to attempts that have left the state planned.
use alert2ir.Prelude.{ℕ, some, List, [], ◌∷◌, ◌≡◌, ◌≢◌, true, false, nat_equality, arith, inl, inr}
use alert2ir.Python.Dict.{get, get-put_fresh, put-present}
use alert2ir.Backends.Base.{Uuid}
use alert2ir.Application.States.{ExecutionAttemptState}
use alert2ir.Application.Attempt.{ExecutionAttempt}
use alert2ir.Repository.Store.{Repository, write_attempt}
use alert2ir.Repository.Plans.{contains_id}
use alert2ir.Repository.Change.{
  Change, unchanged, accepts, moves, advances, updates, plans, AttemptStep,
}
use alert2ir.Repository.Invariant.{Inv}
use alert2ir.Repository.Preservation.{Change-Inv}
use alert2ir.Processing.World.{World}

-- some attempt with this operation key has left the state planned
abbrev pub IsSubmittable : Uuid → Repository → Type 0
IsSubmittable key s =
    (a : Uuid) × (x : ExecutionAttempt) × (get s.attempts a ≡ some x)
    × (x.operation_key ≡ key)
    × (x.state ≢ ExecutionAttemptState.planned)

written-IsSubmittable :
    (s : Repository) (b key : Uuid) (y y' : ExecutionAttempt)
    → get s.attempts b ≡ some y
    → AttemptStep y y'
    → IsSubmittable key s
    → IsSubmittable key (write_attempt s b y')
written-IsSubmittable s b key y y' found' step (a, x, found, own, started) =
    let (u, now, which) = put-present s.attempts b a y' x found in
    elim which [
      | inl (e, f) ↦
          (a, u, now, ground (arith, step.same_key, found, found'), ground (arith, step.moves))
      | inr e ↦ (a, u, now, rw e own, rw e started)
    ]

pub Change-IsSubmittable :
    {s t : Repository} (key : Uuid) → Change s t → IsSubmittable key s → IsSubmittable key t
Change-IsSubmittable key (unchanged e) h = rw e h
Change-IsSubmittable key (accepts k scope k' r new e) h = rw e h
Change-IsSubmittable key (moves k r r' w e) h = rw e h
Change-IsSubmittable {s} key (advances b x x' w e) h =
    rw e (written-IsSubmittable s b key x x' w.found w.step h)
Change-IsSubmittable {s} key (updates k b r r' x x' w v e) h =
    rw e (written-IsSubmittable s b key x x' v.found v.step h)
Change-IsSubmittable {s} key (plans k b k' r r' x w new e) (a, y, found, own, started) =
    rw e (a, y, get-put_fresh s.attempts b a x y new.fresh found, own, started)

-- no key stands twice in the list
abbrev pub Distinct : List Uuid → Type 0
Distinct [] = Unit {0}
Distinct (k ∷ ks) = (contains_id k ks ≡ false) × Distinct ks

pub record WorldInv (w : World) : Type 0 where
  pub repository : Inv w.repository
  pub submitted :
      (key : Uuid) → contains_id key w.submissions ≡ true → IsSubmittable key w.repository
  pub distinct : Distinct w.submissions

-- a change of the repository alone
pub Change-WorldInv :
    (w : World) (s : Repository) (n : ℕ)
    → WorldInv w
    → Change w.repository s
    → WorldInv (record w { repository = s; ordinal = n })
Change-WorldInv w s n inv change = record {
  repository = Change-Inv inv.repository change;
  submitted = λ key h. Change-IsSubmittable key change (inv.submitted key h);
  distinct = inv.distinct;
}

-- the world of a reading
pub reading-WorldInv : (w : World) (n : ℕ) → WorldInv w → WorldInv (record w { ordinal = n })
reading-WorldInv w n inv = record {
  repository = inv.repository;
  submitted = inv.submitted;
  distinct = inv.distinct;
}
