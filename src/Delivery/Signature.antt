-- ===== src/Delivery/Signature.antt =====
-- integrations/splunk/alert2ir_delivery/bin/alert2ir_delivery.py: the secret and the HMAC header.
pub mod Accepted
use Prim.Native.String.{◌++◌}
use alert2ir.Prelude.{
  ℕ, String, Option, none, some, List, [], ◌∷◌, not, ◌||◌, ltb, nat_eq, if◌then◌else◌,
}
use alert2ir.Python.Result.{Result, ok, err, ◌>>◌, raise_exc_if, action_configuration_error}
use alert2ir.Python.Text.{codes, length}
use alert2ir.Python.Pattern.{is_timestamp}
use alert2ir.Python.Library.{Library}
use alert2ir.Splunk.Auth.{join}

unfoldable pub validate_secret : List ℕ → Result (Unit {0})
validate_secret secret =
    raise_exc_if (ltb (length secret) 32 || ltb 4_096 (length secret))
      (action_configuration_error "secret must be at least 32 bytes")

-- the end of `load_secret`: one line end goes
unfoldable pub trim_line_end : List ℕ → List ℕ
trim_line_end [] = []
trim_line_end (c ∷ []) = if nat_eq c 10 then [] else c ∷ []
trim_line_end (c ∷ d ∷ []) =
    if nat_eq d 10 then (if nat_eq c 13 then [] else c ∷ []) else c ∷ d ∷ []
trim_line_end (c ∷ d ∷ e ∷ rest) = c ∷ trim_line_end (d ∷ e ∷ rest)

-- `load_secret`, of the size and the bytes of a file, or none where it is no file or cannot be read
unfoldable pub load_secret : Option (List ℕ) → Result (List ℕ)
unfolding validate_secret trim_line_end
load_secret none = err (action_configuration_error "secret file is invalid")
load_secret (some bytes) = do
  raise_exc_if (ltb 4_098 (length bytes)) (action_configuration_error "secret file is invalid")
  validate_secret (trim_line_end bytes)
  ok (trim_line_end bytes)

-- SIGNING_CONTEXT
abbrev pub action_signing_context : List ℕ
action_signing_context = join (codes "alert2ir-splunk-v1") (10 ∷ [])

-- signing_input
abbrev pub action_signing_input : String → List ℕ → List ℕ
action_signing_input timestamp body =
    join action_signing_context (join (codes timestamp) (10 ∷ body))

-- SIGNATURE_VERSION + "=" + hmac.new(…).hexdigest()
abbrev pub header_of : Library → List ℕ → String → List ℕ → String
header_of l secret timestamp body = "v1=" ++ l.hmac_hex secret (action_signing_input timestamp body)

unfoldable pub signature_header : Library → List ℕ → String → List ℕ → Result String
unfolding validate_secret
signature_header l secret timestamp body = do
  validate_secret secret
  raise_exc_if (not (is_timestamp (codes timestamp)))
      (action_configuration_error "authentication timestamp is invalid")
  ok (header_of l secret timestamp body)
