-- ===== src/Python/Library.antt =====
-- What the program takes from modules outside the repository: the operations, and in `Documented`
-- what their documentation states and the program relies on.
use alert2ir.Prelude.{ℕ, String, Option, some, List, Bool, true, ◌≡◌, leb, ◌&&◌}
use alert2ir.Python.Text.{codes, all_of}
use alert2ir.Python.Result.{Result}
use alert2ir.Python.Pattern.{is_signature}
use alert2ir.Python.Json.{Value}

-- urllib.parse.SplitResult
pub record SplitUrl : Type 0 where
  pub scheme : String
  pub hostname : Option String
  pub username : Option String
  pub password : Option String
  pub query : String
  pub fragment : String
  pub path : String

pub record Library : Type 0 where
  -- hmac.new(key, message, sha256).hexdigest()
  pub hmac_hex : List ℕ → List ℕ → String
  -- UUID(value), and str(value); a UUID is a number of 128 bits
  pub parse_uuid : String → Option ℕ
  pub uuid_text : ℕ → String
  -- value.isprintable()
  pub is_printable : String → Bool
  -- urllib.parse.quote(value, safe="-._~")
  pub quote : String → String
  -- urllib.parse.urlsplit(value), and Path(value).is_absolute()
  pub split_url : String → Result SplitUrl
  pub is_absolute : String → Bool
  -- json.loads(body), with non-standard constants rejected
  pub parse_json : List ℕ → Option Value
  -- response.json() of httpx2, none for a ValueError
  pub response_json : List ℕ → Option Value

-- a UUID, which some text denotes
abbrev pub IsUuid : Library → ℕ → Type 0
IsUuid l u = (s : String) × (l.parse_uuid s ≡ some u)

pub record Documented (l : Library) : Type 0 where
  pub hex_digest : (key message : List ℕ) → is_signature (codes (l.hmac_hex key message)) ≡ true
  pub parse_text : (u : ℕ) → IsUuid l u → l.parse_uuid (l.uuid_text u) ≡ some u
  pub printable :
      (s : String)
      → all_of (λ c. leb 0x20 c && leb c 0x7e) (codes s) ≡ true
      → l.is_printable s ≡ true
