-- ===== src/Python/Pattern.antt =====
-- The texts that the program's regular expressions match, and methods of str on characters.
use Prim.Native.Char.{Char, code}
use alert2ir.Prelude.{
  ℕ, ◌+◌, ◌-◌, ◌*◌, String, List, [], ◌∷◌, Bool, false, ◌&&◌, ◌||◌, leb, nat_eq, if◌then◌else◌,
}
use alert2ir.Python.Text.{codes, length, all_of, is_space}

-- [0-9]
abbrev pub is_digit : ℕ → Bool
is_digit c = leb 0x30 c && leb c 0x39

-- [0-9a-f]
abbrev pub is_hex : ℕ → Bool
is_hex c = is_digit c || (leb 0x61 c && leb c 0x66)

-- [a-z]
abbrev pub is_lower : ℕ → Bool
is_lower c = leb 0x61 c && leb c 0x7a

-- [A-Za-z0-9_-]
abbrev pub is_label : ℕ → Bool
is_label c =
    is_lower c || (leb 0x41 c && leb c 0x5a) || is_digit c || nat_eq c 0x5f || nat_eq c 0x2d

-- [a-z0-9_]
abbrev pub is_code : ℕ → Bool
is_code c = is_lower c || is_digit c || nat_eq c 0x5f

-- (?:0|[1-9][0-9]{0,11})\Z
unfoldable pub is_timestamp : List ℕ → Bool
is_timestamp [] = false
is_timestamp (c ∷ []) = is_digit c
is_timestamp (c ∷ d ∷ rest) =
    leb 0x31 c && leb c 0x39 && is_digit d && all_of is_digit rest && leb (length rest) 10

-- [0-9a-f]{64}
unfoldable pub is_signature : List ℕ → Bool
is_signature cs = nat_eq (length cs) 64 && all_of is_hex cs

-- [a-z][a-z0-9_]{0,63}\Z
unfoldable pub is_error_code : List ℕ → Bool
is_error_code [] = false
is_error_code (c ∷ cs) = is_lower c && all_of is_code cs && leb (length cs) 63

-- [0-9]+
unfoldable pub is_decimal : List ℕ → Bool
is_decimal [] = false
is_decimal (c ∷ cs) = is_digit c && all_of is_digit cs

-- int(text), of digits
unfoldable pub decimal_from : ℕ → List ℕ → ℕ
decimal_from n [] = n
decimal_from n (c ∷ cs) = decimal_from (n * 10 + (c - 0x30)) cs

unfoldable pub decimal_value : List ℕ → ℕ
unfolding decimal_from
decimal_value cs = decimal_from 0 cs

-- [A-Za-z0-9_-]+(?:\.[A-Za-z0-9_-]+)*\Z, after a character of a label or not
unfoldable pub is_host_from : Bool → List ℕ → Bool
is_host_from in_label [] = in_label
is_host_from in_label (c ∷ cs) =
    is_host_from (is_label c) cs && (is_label c || (nat_eq c 0x2e && in_label))

unfoldable pub is_hostname : List ℕ → Bool
unfolding is_host_from
is_hostname cs = is_host_from false cs

-- value.isascii()
abbrev pub is_ascii : String → Bool
is_ascii s = all_of (λ c. leb c 0x7f) (codes s)

-- the character that stands in `to` where `c` stands in `from`, and otherwise `c`
unfoldable pub translate : String → String → Char → Char
translate (String.◌∷◌ a from) (String.◌∷◌ b to) c =
    let rest = translate from to c in if nat_eq (code a) (code c) then b else rest
translate from to c = c

-- value.lower(), of ASCII letters
unfoldable pub lower : String → String
unfolding translate
lower String.[] = ""
lower (String.◌∷◌ c s) =
    String.◌∷◌ (translate "ABCDEFGHIJKLMNOPQRSTUVWXYZ" "abcdefghijklmnopqrstuvwxyz" c) (lower s)

-- value.lstrip()
unfoldable pub drop_spaces : String → String
drop_spaces String.[] = ""
drop_spaces (String.◌∷◌ c s) =
    let rest = drop_spaces s in if is_space (code c) then rest else String.◌∷◌ c s

-- value.rstrip(): a character goes if it is a space and nothing of the rest stays
unfoldable pub drop_last_spaces : String → String
drop_last_spaces String.[] = ""
drop_last_spaces (String.◌∷◌ c s) = elim (drop_last_spaces s) [
  | String.[] ↦ if is_space (code c) then "" else String.◌∷◌ c String.[]
  | String.◌∷◌ d rest ↦ String.◌∷◌ c (String.◌∷◌ d rest)
]

-- value.strip()
unfoldable pub strip : String → String
unfolding drop_spaces drop_last_spaces
strip s = drop_last_spaces (drop_spaces s)

-- `if value.endswith("."): value = value[:-1]`
unfoldable pub drop_dot : String → String
drop_dot String.[] = ""
drop_dot (String.◌∷◌ c String.[]) = if nat_eq (code c) 0x2e then "" else String.◌∷◌ c String.[]
drop_dot (String.◌∷◌ c (String.◌∷◌ d s)) = String.◌∷◌ c (drop_dot (String.◌∷◌ d s))
