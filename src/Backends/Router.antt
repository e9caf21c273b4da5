-- ===== src/Backends/Router.antt =====
-- src/alert2ir/backends/router.py: selection of the one backend with all the capabilities. A
-- frozenset is a list, read by membership.
pub mod Selection
use alert2ir.Prelude.{
  String, Option, none, some, List, [], ◌∷◌, map, Bool, false, ◌||◌, ◌==◌, string_equality,
  if◌then◌else◌,
}
use alert2ir.Python.Result.{Result, ok, err, unsupported_capabilities, ambiguous_backend}
use alert2ir.Python.Text.{all_of}
use alert2ir.Core.Workflow.{InvestigationRequest}
use alert2ir.Backends.Base.{InvestigationBackend}

-- name in values
abbrev pub contains : String → List String → Bool
contains name [] = false
contains name (x ∷ xs) = name == x || contains name xs

-- set(required) <= capabilities
unfoldable pub is_subset : List String → List String → Bool
is_subset required capabilities = all_of (λ name. contains name capabilities) required

-- `tuple(x for x in items if test(x))`
unfoldable pub keep_if {ℓ} : {A : Type ℓ} → (A → Bool) → List A → List A
keep_if test [] = []
keep_if test (x ∷ xs) = let rest = keep_if test xs in if test x then x ∷ rest else rest

abbrev pub backend_names : List InvestigationBackend → List String
backend_names = map (λ b. b.name)

abbrev pub supports : InvestigationRequest → InvestigationBackend → Bool
supports request backend = is_subset request.required_capabilities backend.capabilities

-- the branches on the number of eligible backends
abbrev pub only_eligible : List String → List InvestigationBackend → Result InvestigationBackend
only_eligible required [] = err (unsupported_capabilities required)
only_eligible required (backend ∷ []) = ok backend
only_eligible required (a ∷ b ∷ rest) =
    err (ambiguous_backend required (backend_names (a ∷ b ∷ rest)))

-- BackendRouter.select
unfoldable pub select :
    List InvestigationBackend → InvestigationRequest → Result InvestigationBackend
select backends request =
    only_eligible request.required_capabilities (keep_if (supports request) backends)

abbrev pub only_match : List InvestigationBackend → Option InvestigationBackend
only_match (backend ∷ []) = some backend
only_match _ = none

-- BackendRouter.get
unfoldable pub get : List InvestigationBackend → String → Option InvestigationBackend
get backends name = only_match (keep_if (λ b. b.name == name) backends)
