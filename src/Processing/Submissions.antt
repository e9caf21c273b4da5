-- ===== src/Processing/Submissions.antt =====
-- Each operation is submitted at most once, over any sequence of calls of `process` and
-- `reconcile_once`.
use alert2ir.Prelude.{ℕ, String, List, [], ◌∷◌, ◌≡◌, true}
use alert2ir.Core.Models.{CanonicalAlert}
use alert2ir.Backends.Base.{Uuid}
use alert2ir.Repository.Store.{empty}
use alert2ir.Repository.Plans.{contains_id}
use alert2ir.Repository.Invariant.{Inv, Inv-empty}
use alert2ir.Processing.World.{Processor, World}
use alert2ir.Processing.Acceptance.{process}
use alert2ir.Processing.Reconciliation.{reconcile_once}
use alert2ir.Processing.Invariant.{WorldInv, Distinct, IsSubmittable}
use alert2ir.Processing.Keeps.Acceptance.{Keeps-process}
use alert2ir.Processing.Keeps.Reconciliation.{Keeps-reconcile_once}

-- the public methods of a processor, with their arguments
pub data Method : Type 0 where
  processing : CanonicalAlert → String → Method
  reconciling : ℕ → ℕ → ℕ → Method

-- the world after a method, whether it returned or raised
unfoldable pub perform : Processor → Method → World → World
perform p (processing alert key) w = (process p alert key w).1
perform p (reconciling limit max_seconds stale_after) w =
    (reconcile_once p limit max_seconds stale_after w).1

-- methods one after another, each of its own processor over the shared repository
unfoldable pub perform_all : List (Processor × Method) → World → World
perform_all [] w = w
perform_all ((p, m) ∷ rest) w = perform_all rest (perform p m w)

-- an empty repository, before any reading
abbrev pub initial : World
initial = record { repository = empty; ordinal = 0; submissions = [] }

initial-WorldInv : WorldInv initial
initial-WorldInv = record {
  repository = Inv-empty;
  submitted = λ key h. absurd (cc);
  distinct = tt;
}

perform-WorldInv : (p : Processor) (m : Method) (w : World) → WorldInv w → WorldInv (perform p m w)
unfolding perform
perform-WorldInv p (processing alert key) w h = (Keeps-process p alert key).at w h
perform-WorldInv p (reconciling limit max_seconds stale_after) w h =
    (Keeps-reconcile_once p limit max_seconds stale_after).at w h

perform_all-WorldInv :
    (methods : List (Processor × Method)) (w : World)
    → WorldInv w
    → WorldInv (perform_all methods w)
unfolding perform_all
perform_all-WorldInv [] w h = h
perform_all-WorldInv ((p, m) ∷ rest) w h =
    perform_all-WorldInv rest (perform p m w) (perform-WorldInv p m w h)

-- From an empty repository, over any sequence of calls of `process` and `reconcile_once`, by any
-- processors and with backends that answer in any way, no operation key is given to a backend's
-- `submit` twice, and each key that is given belongs to a stored attempt that has left the state
-- planned.
pub submitted_once :
    (methods : List (Processor × Method))
    → Distinct (perform_all methods initial).submissions
      × ((key : Uuid)
          → contains_id key (perform_all methods initial).submissions ≡ true
          → IsSubmittable key (perform_all methods initial).repository)
submitted_once methods =
    let h = perform_all-WorldInv methods initial initial-WorldInv in (h.distinct, h.submitted)

-- From an empty repository, any sequence of calls of `process` and `reconcile_once` leaves a
-- repository whose records and attempts pass their checks, whose dicts agree with one another, and
-- whose attempts have distinct operation keys.
pub perform_all-Inv :
    (methods : List (Processor × Method)) → Inv (perform_all methods initial).repository
perform_all-Inv methods = (perform_all-WorldInv methods initial initial-WorldInv).repository
