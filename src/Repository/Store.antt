-- ===== src/Repository/Store.antt =====
-- src/alert2ir/persistence/memory.py: the state of `InMemoryProcessingRepository`. Its lock makes
-- each operation one atomic step. The clock is read at most once in an operation, so its reading
-- is the argument `now`.
use alert2ir.Prelude.{
  String, Option, none, some, List, [], Bool, nat_equality, string_equality, if◌then◌else◌,
}
use alert2ir.Python.Dict.{Dict, get, put, pair_equality}
use alert2ir.Python.Action.{Action, pure, modify, or_key_error}
use alert2ir.Backends.Base.{Uuid}
use alert2ir.Application.Record.{ProcessingRecord}
use alert2ir.Application.Attempt.{ExecutionAttempt}

pub record Repository : Type 0 where
  pub records : Dict Uuid ProcessingRecord
  pub idempotency : Dict (String × String) Uuid
  pub attempts : Dict Uuid ExecutionAttempt
  pub attempt_by_processing : Dict Uuid Uuid
  pub operation_keys : List Uuid

-- InMemoryProcessingRepository.__init__
abbrev pub empty : Repository
empty = record {
  records = [];
  idempotency = [];
  attempts = [];
  attempt_by_processing = [];
  operation_keys = [];
}

-- `if value is None or not test(value): return None`, on the value
abbrev pub having {ℓ} : {A : Type ℓ} → (A → Bool) → Option A → Option A
having test none = none
having test (some a) = if test a then some a else none

-- `if value is None: return None`, before the rest of a method
abbrev pub when_found {ℓ κ} :
    {A : Type ℓ} {B : Type κ}
    → Option A
    → (A → Action Repository (Option B))
    → Action Repository (Option B)
when_found none rest = pure none
when_found (some a) rest = rest a

-- self._records[processing_id] = record
abbrev pub write_record : Repository → Uuid → ProcessingRecord → Repository
write_record s k r = record s { records = put s.records k r }

-- self._attempts[attempt_id] = attempt
abbrev pub write_attempt : Repository → Uuid → ExecutionAttempt → Repository
write_attempt s k a = record s { attempts = put s.attempts k a }

abbrev pub save_record : Uuid → ProcessingRecord → Action Repository (Unit {0})
save_record k r = modify λ s. write_record s k r

abbrev pub save_attempt : Uuid → ExecutionAttempt → Action Repository (Unit {0})
save_attempt k a = modify λ s. write_attempt s k a

-- self._records[processing_id]
abbrev pub load_record : Uuid → Action Repository ProcessingRecord
load_record k s = or_key_error (get s.records k) s

-- self._attempts[attempt_id]
abbrev pub load_attempt : Uuid → Action Repository ExecutionAttempt
load_attempt k s = or_key_error (get s.attempts k) s
