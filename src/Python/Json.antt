-- ===== src/Python/Json.antt =====
-- The values of `json.loads`: an object is a dict, the list of its names with their values.
pub mod Present
use alert2ir.Prelude.{
  ℕ, String, Option, none, some, List, [], ◌∷◌, Bool, true, false, ◌&&◌, ◌||◌, if◌then◌else◌, ◌==◌,
  string_equality,
}
use alert2ir.Python.Result.{Result, ok, err, type_error}

mutual
  pub data Value : Type 0 where
    null : Value
    boolean : Bool → Value
    -- an int, zero or more; an int below zero; a float
    integer : ℕ → Value
    below_zero : ℕ → Value
    real : Value
    text : String → Value
    -- a list, whose items no reader looks at
    array : Value
    object : Members → Value

  pub data Members : Type 0 where
    end : Members
    member : String → Value → Members → Members

-- the value under a name, if the name is there
unfoldable pub find : Members → String → Option Value
find end name = none
find (member n v rest) name = if n == name then some v else find rest name

abbrev pub or_null : Option Value → Value
or_null (some v) = v
or_null none = null

-- members.get(name)
unfoldable pub lookup : Members → String → Value
unfolding find
lookup members name = or_null (find members name)

abbrev pub is_among : String → List String → Bool
is_among name [] = false
is_among name (x ∷ xs) = x == name || is_among name xs

-- every name is one of these
unfoldable pub named_among : List String → Members → Bool
named_among names end = true
named_among names (member n v rest) = is_among n names && named_among names rest

-- a member, unless its value is None
abbrev pub keep_value : String → Value → Members → Members
keep_value name null rest = rest
keep_value name value rest = member name value rest

-- {name: value for name, value in pairs if value is not None}
unfoldable pub present : List (String × Value) → Members
present [] = end
present ((name, value) ∷ pairs) = keep_value name value (present pairs)

-- value if isinstance(value, str) else None
abbrev pub as_text : Value → Option String
as_text (text s) = some s
as_text _ = none

-- value if isinstance(value, dict) else None
abbrev pub as_object : Value → Option (String → Value)
as_object (object members) = some (lookup members)
as_object _ = none

-- value is True
abbrev pub is_true : Value → Bool
is_true (boolean b) = b
is_true _ = false

-- the value as a member of a set or a key of a dict of texts: a list or a dict is not hashable
abbrev pub hashed_text : Value → Result (Option String)
hashed_text (text s) = ok (some s)
hashed_text array = err type_error
hashed_text (object members) = err type_error
hashed_text _ = ok none
