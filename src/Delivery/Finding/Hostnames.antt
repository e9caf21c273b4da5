-- ===== src/Delivery/Finding/Hostnames.antt =====
-- The alert action and the gateway agree on the host names of a finding.
use alert2ir.Prelude.{
  String, Option, none, some, Bool, true, false, not, ◌||◌, ltb, ◌≡◌, refl, ◌↔◌, ◌⊎◌, inl, inr,
  Bool-cases, ◌==◌, string_equality,
}
use alert2ir.Python.Result.{Result, ok, err, Exc, ◌>>◌, raise_if, raise_exc_if}
use alert2ir.Python.Text.{codes, text_length}
use alert2ir.Python.Pattern.{is_ascii, is_hostname, lower, strip, drop_dot}
use alert2ir.Splunk.Mapping.{
  normalize_one_hostname, normalize_optional, choose_hostname, normalize_hostname,
}
use alert2ir.Delivery.Finding.{
  normalize_for_comparison, normalize_optional_name, compare_names, validate_hostnames,
}

-- two computations that return the same, or both raise
abbrev Alike {ℓ} : {A : Type ℓ} → Result A → Result A → Type ℓ
Alike {A = A} r s =
    ((a : A) × (r ≡ ok a) × (s ≡ ok a)) ⊎ ((e : Exc) × (f : Exc) × (r ≡ err e) × (s ≡ err f))

checks-Alike :
    (a b c d : Bool) (e : Exc) (first second third fourth : String) (h : String)
    → Alike (raise_exc_if (a || b || c || d) e >> ok h) (
        raise_if a first
        >> (raise_if b second >> (raise_if c third >> (raise_if d fourth >> ok h))))
checks-Alike true b c d e first second third fourth h = inr (_, _, refl, refl)
checks-Alike false true c d e first second third fourth h = inr (_, _, refl, refl)
checks-Alike false false true d e first second third fourth h = inr (_, _, refl, refl)
checks-Alike false false false true e first second third fourth h = inr (_, _, refl, refl)
checks-Alike false false false false e first second third fourth h = inl (h, refl, refl)

normalize-Alike : (v : String) → Alike (normalize_for_comparison v) (normalize_one_hostname v)
unfolding normalize_for_comparison normalize_one_hostname
normalize-Alike v =
    let n = drop_dot (strip v) in
    checks-Alike (n == "") (ltb 255 (text_length n)) (not (is_ascii n))
      (not (is_hostname (codes n))) _ _ _ _ _ (lower n)

optional-Alike : (v : Option String) → Alike (normalize_optional_name v) (normalize_optional v)
unfolding normalize_optional_name normalize_optional
optional-Alike none = inl (none, refl, refl)
optional-Alike (some v) = elim (normalize-Alike v) [
  | inl (n, left, right) ↦ inl (some n, rw left refl, rw right refl)
  | inr (e, f, left, right) ↦ inr (e, f, rw left refl, rw right refl)
]

-- of two names in normal form
compare_alike :
    (c h : Option String)
    → (compare_names c h ≡ ok tt) ↔ ((name : String) × (choose_hostname c h ≡ ok name))
unfolding compare_names choose_hostname
compare_alike none none = (λ wrong. absurd (cc), λ (name, wrong). absurd (cc))
compare_alike none (some h) = (λ e. (h, refl), λ e. refl)
compare_alike (some c) none = (λ e. (c, refl), λ e. refl)
compare_alike (some c) (some h) = elim (Bool-cases (c == h)) [
  | inl same ↦ rw same (λ e. (c, refl), λ e. refl)
  | inr other ↦ rw other (λ wrong. absurd (cc), λ (name, wrong). absurd (cc))
]

-- The alert action accepts the Computer and the host of a row exactly when the gateway normalizes
-- them to one host name.
pub hostnames_alike :
    (computer host : Option String)
    → (validate_hostnames computer host ≡ ok tt)
      ↔ ((name : String) × (normalize_hostname computer host ≡ ok name))
unfolding validate_hostnames normalize_hostname
hostnames_alike computer host = elim (optional-Alike computer) [
  | inr (e, f, left, right) ↦ rw (left, right) (λ wrong. absurd (cc), λ (name, wrong). absurd (cc))
  | inl (c, left, right) ↦ elim (optional-Alike host) [
    | inr (e, f, left_host, right_host) ↦
        rw (left, right)
          (rw (left_host, right_host) (λ wrong. absurd (cc), λ (name, wrong). absurd (cc)))
    | inl (h, left_host, right_host) ↦
        rw (left, right) (rw (left_host, right_host) (compare_alike c h))
  ]
]
