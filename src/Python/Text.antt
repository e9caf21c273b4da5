-- ===== src/Python/Text.antt =====
-- str: the code points of a text, `len`, `strip`, and the test of visible ASCII.
use Prim.Native.Char.{code}
use alert2ir.Prelude.{ℕ, suc, String, Bool, true, ◌&&◌, ◌||◌, leb, nat_eq, List, [], ◌∷◌}

abbrev pub codes : String → List ℕ
codes String.[] = []
codes (String.◌∷◌ c s) = code c ∷ codes s

module _ {ℓ} {A : Type ℓ} where
  abbrev pub length : List A → ℕ
  length [] = 0
  length (x ∷ xs) = suc (length xs)

  abbrev pub all_of : (A → Bool) → List A → Bool
  all_of p [] = true
  all_of p (x ∷ xs) = p x && all_of p xs

-- len(value)
abbrev pub text_length : String → ℕ
text_length s = length (codes s)

-- str.isspace, the characters that `strip` removes
unfoldable pub is_space : ℕ → Bool
is_space c =
    (leb 9 c && leb c 13)
    || (leb 28 c && leb c 32)
    || nat_eq c 0x85
    || nat_eq c 0xa0
    || nat_eq c 0x1680
    || (leb 0x2000 c && leb c 0x200a)
    || nat_eq c 0x2028
    || nat_eq c 0x2029
    || nat_eq c 0x202f
    || nat_eq c 0x205f
    || nat_eq c 0x3000

-- not value.strip()
unfoldable pub is_blank : String → Bool
unfolding is_space
is_blank s = all_of is_space (codes s)

-- 0x21 <= ord(character) <= 0x7E
abbrev pub is_visible : ℕ → Bool
is_visible c = leb 0x21 c && leb c 0x7e
