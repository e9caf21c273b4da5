-- ===== src/Processing/Rules.antt =====
-- The actions that keep the invariant of the world: one rule for each way to build an action.
use alert2ir.Prelude.{
  ℕ, suc, String, Option, none, some, ◌≡◌, refl, Bool, true, false, if◌then◌else◌,
}
use alert2ir.Python.Result.{Exc, Result, ok, err}
use alert2ir.Python.DateTime.{DateTime}
use alert2ir.Python.Action.{Action, pure, raise, lift, ◌>>=◌}
use alert2ir.Backends.Base.{Uuid}
use alert2ir.Application.Record.{ProcessingRecord}
use alert2ir.Repository.Store.{Repository}
use alert2ir.Repository.Acceptance.{get_processing}
use alert2ir.Repository.Change.{Change, unchanged}
use alert2ir.Repository.Invariant.{Inv}
use alert2ir.Processing.World.{
  Processor, World, reading, in_repository, catch, or_unavailable, calling, attempting, remaining,
  present, reread, stored_or, or_reread,
}
use alert2ir.Processing.Invariant.{WorldInv, Change-WorldInv, reading-WorldInv}

-- an operation that makes one change, from a state that has the invariant
pub record Changes {ℓ} {A : Type ℓ} (op : DateTime → Action Repository A) : Type ℓ where
  pub from : (now : DateTime) (s : Repository) → Inv s → Change s (op now s).1

-- the action keeps the invariant, whether it returns or raises
pub record Keeps {ℓ} {A : Type ℓ} (m : Action World A) : Type ℓ where
  pub at : (w : World) → WorldInv w → WorldInv (m w).1

module _ {ℓ} {A : Type ℓ} where
  pub Keeps-pure : (a : A) → Keeps (pure a)
  Keeps-pure a = record { at = λ w h. h }

  pub Keeps-raise : (e : Exc) → Keeps {A = A} (raise e)
  Keeps-raise e = record { at = λ w h. h }

  pub Keeps-lift : (r : Result A) → Keeps (lift r)
  Keeps-lift r = record { at = λ w h. h }

  pub Keeps-reading : (f : ℕ → A) → Keeps (reading f)
  Keeps-reading f = record { at = λ w h. reading-WorldInv w (suc w.ordinal) h }

  pub Keeps-calling : (f : ℕ → Result A) → Keeps (calling f)
  Keeps-calling f = record { at = λ w h. reading-WorldInv w (suc w.ordinal) h }

  pub Keeps-attempting : (m : Action World A) → Keeps m → Keeps (attempting m)
  Keeps-attempting m k = record { at = λ w h. k.at w h }

  pub Keeps-in_repository :
      (p : Processor) (op : DateTime → Action Repository A)
      → Changes op
      → Keeps (in_repository p op)
  unfolding in_repository
  Keeps-in_repository p op c = record {
    at = λ w h.
        Change-WorldInv w (op (p.clock w.ordinal) w.repository).1 (suc w.ordinal) h
          (c.from (p.clock w.ordinal) w.repository h.repository);
  }

  pub Keeps-if : (b : Bool) (m n : Action World A) → Keeps m → Keeps n → Keeps (if b then m else n)
  Keeps-if true m n km kn = km
  Keeps-if false m n km kn = kn

  pub Keeps-catch :
      (m : Action World A) (handle : Exc → Action World A)
      → Keeps m
      → ((e : Exc) → Keeps (handle e))
      → Keeps (catch m handle)
  Keeps-catch m handle km kh = record { at = λ w h. go w (m w).0 refl (km.at w h) }
    where
      go :
          (w : World) (r : Result A)
          → (m w).0 ≡ r
          → WorldInv (m w).1
          → WorldInv (catch m handle w).1
      go w (ok a) e h = rw (e, catch) h
      go w (err x) e h = rw (e, catch) ((kh x).at (m w).1 h)

  pub Keeps-or_unavailable :
      (message : String) (m : Action World A) → Keeps m → Keeps (or_unavailable message m)
  Keeps-or_unavailable message m k = Keeps-catch m _ k (λ e. Keeps-raise _)

module _ {ℓ κ} {A : Type ℓ} {B : Type κ} where
  pub Keeps-bind :
      (m : Action World A) (f : A → Action World B)
      → Keeps m
      → ((a : A) → Keeps (f a))
      → Keeps (m >>= f)
  Keeps-bind m f km kf = record { at = λ w h. go w (m w) refl (km.at w h) }
    where
      go :
          (w : World) (o : Result A × World) → m w ≡ o → WorldInv (m w).1 → WorldInv ((m >>= f) w).1
      go w (ok a, v) e h = rw (e) ((kf a).at v (rw e at h))
      go w (err x, v) e h = rw (e) (rw e at h)

pub ruleset keeps_rules = (
  Keeps-pure, Keeps-raise, Keeps-lift, Keeps-reading, Keeps-calling, Keeps-attempting,
  Keeps-in_repository, Keeps-if, Keeps-catch, Keeps-or_unavailable, Keeps-bind,
)

module _ (p : Processor) where
  pub Keeps-remaining : (deadline : Option ℕ) → Keeps (remaining p deadline)
  unfolding remaining
  Keeps-remaining none = Keeps-pure none
  Keeps-remaining (some d) = Keeps-reading _

  Keeps-present : (o : Option ProcessingRecord) → Keeps (present o)
  Keeps-present none = Keeps-raise _
  Keeps-present (some r) = Keeps-pure r

  read-Changes : (k : Uuid) → Changes (λ now. get_processing k)
  unfolding get_processing
  read-Changes k = record { from = λ now s inv. unchanged refl }

  pub Keeps-reread : (k : Uuid) → Keeps (reread p k)
  unfolding reread
  Keeps-reread k =
      Keeps-bind (in_repository p λ now. get_processing k) present
        (Keeps-in_repository p (λ now. get_processing k) (read-Changes k)) Keeps-present

  pub Keeps-stored_or :
      (o : Option ProcessingRecord) (rest : Action World ProcessingRecord)
      → Keeps rest
      → Keeps (stored_or o rest)
  Keeps-stored_or none rest k = k
  Keeps-stored_or (some r) rest k = Keeps-pure r

  pub Keeps-or_reread :
      (k : Uuid) (op : DateTime → Action Repository (Option ProcessingRecord))
      → Changes op
      → Keeps (or_reread p k op)
  unfolding or_reread
  Keeps-or_reread k op c =
      Keeps-bind (in_repository p op) (λ answer. stored_or answer (reread p k))
        (Keeps-in_repository p op c) (λ answer. Keeps-stored_or answer _ (Keeps-reread k))

pub ruleset world_rules =
    (keeps_rules, Keeps-remaining, Keeps-reread, Keeps-stored_or, Keeps-or_reread)
