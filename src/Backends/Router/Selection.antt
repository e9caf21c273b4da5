-- ===== src/Backends/Router/Selection.antt =====
-- What `select` answers.
use alert2ir.Prelude.{
  sym, ◌⊎◌, String, List, [], ◌∷◌, ◌≡◌, refl, Bool, true, false, Bool-cases, inl, inr,
  if◌then◌else◌, subst,
}
use alert2ir.Python.Result.{ok}
use alert2ir.Core.Workflow.{InvestigationRequest}
use alert2ir.Backends.Base.{InvestigationBackend}
use alert2ir.Backends.Router.{keep_if, supports, only_eligible, select}

-- a backend stands in the list
abbrev pub IsIn : InvestigationBackend → List InvestigationBackend → Type 0
IsIn b [] = ⊥
IsIn b (c ∷ rest) = (b ≡ c) ⊎ IsIn b rest

module _ (test : InvestigationBackend → Bool) where
  keep_if-IsIn :
      (b : InvestigationBackend) (bs : List InvestigationBackend)
      → IsIn b bs
      → test b ≡ true
      → IsIn b (keep_if test bs)
  unfolding keep_if
  keep_if-IsIn b [] m h = absurd m
  keep_if-IsIn b (c ∷ rest) (inl e) h = rw (subst (λ x. test x ≡ true) e h) (inl e)
  keep_if-IsIn b (c ∷ rest) (inr m) h = elim (Bool-cases (test c)) [
    | inl e ↦ rw e (inr (keep_if-IsIn b rest m h))
    | inr e ↦ rw e (keep_if-IsIn b rest m h)
  ]

  IsIn-keep_if :
      (b : InvestigationBackend) (bs : List InvestigationBackend)
      → IsIn b (keep_if test bs)
      → IsIn b bs × (test b ≡ true)
  unfolding keep_if
  IsIn-keep_if b [] m = absurd m
  IsIn-keep_if b (c ∷ rest) m = go (test c) refl (λ m'. IsIn-keep_if b rest m') m
    where
      go :
          (t : Bool)
          → test c ≡ t
          → (IsIn b (keep_if test rest) → IsIn b rest × (test b ≡ true))
          → IsIn b (if t then c ∷ keep_if test rest else keep_if test rest)
          → IsIn b (c ∷ rest) × (test b ≡ true)
      go true e within (inl same) = (inl same, subst (λ x. test x ≡ true) (sym same) e)
      go true e within (inr m') = let (found, h) = within m' in (inr found, h)
      go false e within m' = let (found, h) = within m' in (inr found, h)

only_eligible-ok :
    (required : List String) (bs : List InvestigationBackend) (b : InvestigationBackend)
    → only_eligible required bs ≡ ok b
    → bs ≡ b ∷ []
only_eligible-ok required [] b h = absurd (cc)
only_eligible-ok required (c ∷ []) b h = cc
only_eligible-ok required (c ∷ d ∷ rest) b h = absurd (cc)

-- When `select` returns a backend, it is a configured one that has all the required capabilities,
-- and every configured backend that has them is this one.
pub select_unique :
    (backends : List InvestigationBackend) (request : InvestigationRequest)
    (b : InvestigationBackend)
    → select backends request ≡ ok b
    → IsIn b backends
      × (supports request b ≡ true)
      × ((c : InvestigationBackend) → IsIn c backends → supports request c ≡ true → c ≡ b)
unfolding select
select_unique backends request b h =
    let kept =
      only_eligible-ok request.required_capabilities (keep_if (supports request) backends) b h in
    let (found, able) = IsIn-keep_if (supports request) b backends (rw kept (inl refl)) in
    (
      found,
      able,
      λ c m able'.
          only (subst (λ bs. IsIn c bs) kept (keep_if-IsIn (supports request) c backends m able')),
    )
  where
    only : {c : InvestigationBackend} → IsIn c (b ∷ []) → c ≡ b
    only (inl e) = e
    only (inr m) = absurd m
