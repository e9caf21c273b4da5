-- ===== src/Splunk/Client.antt =====
-- src/alert2ir/adapters/splunk/client.py: what the gateway makes of Alert2IR's response. The model
-- of a response has the headers that are read, as the lists of their values.
pub mod Submit
pub mod Valid
use mathlib.Core.Option
use Prim.Native.String
use alert2ir.Prelude.{
  ℕ, String, Option, none, some, List, [], ◌∷◌, Bool, true, false, not, ◌&&◌, ◌||◌, ltb, leb,
  nat_eq, ◌==◌, string_equality, if◌then◌else◌,
}
use alert2ir.Python.Result.{Result, ok, err, ◌>>=◌, ◌>>◌, raise_exc_if, validation_error}
use alert2ir.Python.Text.{codes, length, text_length}
use alert2ir.Python.Pattern.{is_error_code, lower}
use alert2ir.Python.Library.{Library}
use alert2ir.Python.Json.{Value, null, text, object, lookup, hashed_text}

pub data DeliveryClassification : Type 0 where
  completed accepted permanent_failure durable_failure transient_failure : DeliveryClassification

-- httpx2.Response
pub record Response : Type 0 where
  pub status_code : ℕ
  pub content : List ℕ
  -- get_list("Location") and get_list("Idempotency-Replayed")
  pub locations : List String
  pub replays : List String

-- Alert2IRDeliveryResult; a UUID is a number
pub record DeliveryResult : Type 0 where
  pub classification : DeliveryClassification
  pub upstream_status : Option ℕ
  pub processing_id : Option ℕ
  pub state : Option String
  pub status_url : Option String
  pub replayed : Bool
  pub decision_outcome : Option String
  pub error_code : Option String
  pub retryable : Bool
  pub acceptance_unknown : Bool

-- the dict that `_response_fields` returns
pub record Fields : Type 0 where
  pub upstream_status : ℕ
  pub processing_id : Option String
  pub state : Option String
  pub status_url : Option String
  pub replayed : Bool
  pub decision_outcome : Option String
  pub error_code : Option String

abbrev pub no_members : String → Value
no_members name = null

abbrev pub members_of : Option Value → String → Value
members_of (some (object members)) = lookup members
members_of _ = no_members

unfoldable pub bounded_json_object : Library → Response → String → Value
unfolding lookup
bounded_json_object l response =
    if ltb 65_536 (length response.content)
    then no_members
    else members_of (l.response_json response.content)

unfoldable pub processing_id : Library → Value → Option String
processing_id l (text value) = Option.map l.uuid_text (l.parse_uuid value)
processing_id l _ = none

unfoldable pub bounded_visible : Library → Value → ℕ → Option String
bounded_visible l (text value) maximum =
    if not (leb 1 (text_length value) && leb (text_length value) maximum)
      || not (l.is_printable value)
    then none
    else some value
bounded_visible l _ maximum = none

abbrev pub single_location : Library → List String → Option String
single_location l (location ∷ []) = bounded_visible l (text location) 2_048
single_location l _ = none

unfoldable pub status_url : Library → Response → (String → Value) → Option String
status_url l response body = elim (bounded_visible l (body "status_url") 2_048) [
  | some from_body ↦ some from_body
  | none ↦ single_location l response.locations
]

-- value in values
abbrev pub is_one_of : List String → String → Bool
is_one_of [] value = false
is_one_of (v ∷ vs) value = (value == v) || is_one_of vs value

-- _PROCESSING_STATES, also the values that the field `state` of a result may have
abbrev pub processing_states : List String
processing_states =
    "accepted" ∷ "planned" ∷ "submitting" ∷ "submitted" ∷ "completed" ∷ "failed"
    ∷ "recovery_required" ∷ []

abbrev pub decision_outcomes : List String
decision_outcomes = "no_action" ∷ "investigate" ∷ []

-- value if value in values else None
unfoldable pub keep_member : List String → Option String → Option String
keep_member values none = none
keep_member values (some value) = if is_one_of values value then some value else none

unfoldable pub state : (String → Value) → Option String
unfolding keep_member
state body = elim (body "state") [
  | text value ↦ keep_member processing_states (some value)
  | _ ↦ none
]

-- `outcome in {...}` raises TypeError for a list or a dict
unfoldable pub decision_outcome : (String → Value) → Result (Option String)
unfolding keep_member lookup
decision_outcome body = elim (body "decision") [
  | object decision ↦ do
    outcome ← hashed_text (lookup decision "outcome")
    ok (keep_member decision_outcomes outcome)
  | _ ↦ ok none
]

abbrev pub code_of : Value → Option String
code_of (text value) = if is_error_code (codes value) then some value else none
code_of _ = none

unfoldable pub error_code : (String → Value) → Option String
error_code body = elim (code_of (body "code")) [
  | some value ↦ some value
  | none ↦ code_of (body "error_category")
]

unfoldable pub replayed : Response → Bool
replayed response = elim (response.replays) [ value ∷ [] ↦ lower value == "true" | _ ↦ false ]

abbrev pub fields_of : Library → Response → Option String → Fields
fields_of l response outcome =
    let body = bounded_json_object l response in
    record {
      upstream_status = response.status_code;
      processing_id = processing_id l (body "processing_id");
      state = state body;
      status_url = status_url l response body;
      replayed = replayed response;
      decision_outcome = outcome;
      error_code = error_code body;
    }

unfoldable pub response_fields : Library → Response → Result Fields
unfolding bounded_json_object processing_id state status_url replayed decision_outcome error_code
response_fields l response = do
  outcome ← decision_outcome (bounded_json_object l response)
  ok (fields_of l response outcome)
