-- ===== src/Python/Json/Present.antt =====
-- What the dict of the pairs that are not None holds, where the names are distinct.
use alert2ir.Prelude.{
  String, none, List, [], ◌∷◌, Bool, true, false, not, ◌≡◌, refl, ◌&&◌, if◌then◌else◌, ◌==◌,
  string_equality, ==_iff, subst, Bool-cases, inl, inr, arith,
}
use alert2ir.Python.Json.{
  Value, null, Members, find, lookup, or_null, is_among, keep_value, present,
}

abbrev pub names_of : List (String × Value) → List String
names_of [] = []
names_of ((name, value) ∷ pairs) = name ∷ names_of pairs

-- the value that the list gives a name
abbrev pub value_of : List (String × Value) → String → Value
value_of [] k = null
value_of ((name, value) ∷ pairs) k = if name == k then value else value_of pairs k

abbrev pub distinct : List String → Bool
distinct [] = true
distinct (x ∷ xs) = not (is_among x xs) && distinct xs

find-keep_value-other :
    (name k : String) (value : Value) (rest : Members)
    → (name == k) ≡ false
    → find (keep_value name value rest) k ≡ find rest k
unfolding find
find-keep_value-other name k Value.null rest h = refl
find-keep_value-other name k (Value.boolean b) rest h = rw h refl
find-keep_value-other name k (Value.integer n) rest h = rw h refl
find-keep_value-other name k (Value.below_zero n) rest h = rw h refl
find-keep_value-other name k Value.real rest h = rw h refl
find-keep_value-other name k (Value.text s) rest h = rw h refl
find-keep_value-other name k Value.array rest h = rw h refl
find-keep_value-other name k (Value.object m) rest h = rw h refl

find-keep_value-same :
    (name k : String) (value : Value) (rest : Members)
    → (name == k) ≡ true
    → find rest k ≡ none
    → or_null (find (keep_value name value rest) k) ≡ value
unfolding find
find-keep_value-same name k Value.null rest h g = rw g refl
find-keep_value-same name k (Value.boolean b) rest h g = rw h refl
find-keep_value-same name k (Value.integer n) rest h g = rw h refl
find-keep_value-same name k (Value.below_zero n) rest h g = rw h refl
find-keep_value-same name k Value.real rest h g = rw h refl
find-keep_value-same name k (Value.text s) rest h g = rw h refl
find-keep_value-same name k Value.array rest h g = rw h refl
find-keep_value-same name k (Value.object m) rest h g = rw h refl

-- a name that no pair has is not there
pub find-present-none :
    (pairs : List (String × Value)) (k : String)
    → is_among k (names_of pairs) ≡ false
    → find (present pairs) k ≡ none
unfolding present find
find-present-none [] k h = refl
find-present-none ((name, value) ∷ pairs) k h = elim (Bool-cases (name == k)) [
  | inl same ↦ absurd (let wrong : true ≡ false = rw same at h in cc)
  | inr other ↦
      let h1 : is_among k (names_of pairs) ≡ false = rw other at h in
      rw (find-keep_value-other name k value (present pairs) other) (find-present-none pairs k h1)
]

lookup-present-cons :
    (name : String) (value : Value) (pairs : List (String × Value)) (k : String)
    → is_among name (names_of pairs) ≡ false
    → lookup (present pairs) k ≡ value_of pairs k
    → lookup (present ((name, value) ∷ pairs)) k ≡ value_of ((name, value) ∷ pairs) k
unfolding present lookup
lookup-present-cons name value pairs k fresh h = elim (Bool-cases (name == k)) [
  | inl same ↦
      let equal : name ≡ k = (==_iff name k).0 same in
      let absent : find (present pairs) k ≡ none =
        find-present-none pairs k (subst (λ n. is_among n (names_of pairs) ≡ false) equal fresh) in
      rw same (find-keep_value-same name k value (present pairs) same absent)
  | inr other ↦ rw (other, find-keep_value-other name k value (present pairs) other) h
]

-- a name of the list has the value that the list gives it, and None where it has none
pub lookup-present :
    (pairs : List (String × Value)) (k : String)
    → distinct (names_of pairs) ≡ true
    → lookup (present pairs) k ≡ value_of pairs k
unfolding present lookup
lookup-present [] k h = refl
lookup-present ((name, value) ∷ pairs) k h =
    let fresh : is_among name (names_of pairs) ≡ false = ground (arith, h) in
    let tail : distinct (names_of pairs) ≡ true = ground (arith, h) in
    lookup-present-cons name value pairs k fresh (lookup-present pairs k tail)
