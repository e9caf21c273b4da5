-- ===== src/Python/DateTime.antt =====
-- datetime.datetime: a naive value, or an aware one by its instant, in microseconds. Aware values
-- compare by their instants, so the offset of an aware value is not kept.
use alert2ir.Prelude.{ℕ, Bool, true, false, leb, ltb, ℕ_discrete, Eq, eq_of_discrete}
use alert2ir.Python.Result.{Result, ok, err, type_error}

pub data DateTime : Type 0 where
  naive : ℕ → DateTime
  aware : ℕ → DateTime

unfoldable pub DateTime-discrete : Discrete DateTime
DateTime-discrete = hlevel ℕ_discrete

instance abbrev pub datetime_equality : Eq DateTime
datetime_equality = eq_of_discrete DateTime-discrete

-- value.tzinfo is None or value.utcoffset() is None
abbrev pub is_naive : DateTime → Bool
is_naive (naive t) = true
is_naive (aware t) = false

abbrev pub instant : DateTime → ℕ
instant (naive t) = t
instant (aware t) = t

-- `a < b`: a naive and an aware value do not compare.
abbrev pub precedes : DateTime → DateTime → Result Bool
precedes (naive a) (naive b) = ok (ltb a b)
precedes (aware a) (aware b) = ok (ltb a b)
precedes _ _ = err type_error

-- `a <= b`
abbrev pub at_most : DateTime → DateTime → Result Bool
at_most (naive a) (naive b) = ok (leb a b)
at_most (aware a) (aware b) = ok (leb a b)
at_most _ _ = err type_error
