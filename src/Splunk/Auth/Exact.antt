-- ===== src/Splunk/Auth/Exact.antt =====
-- What a request must have to be authenticated.
use alert2ir.Prelude.{
  ◌∙◌, ap, ==_refl, Bool-cases, ◌↔◌, ℕ, ◌≤◌, String, Option, none, some, List, ◌≡◌, refl, true,
  false, not, ltb, ◌==◌, ==_iff, string_equality, arith, sym, inl, inr,
}
use alert2ir.Python.Result.{
  check-ok, Result, ok, err, ◌>>=◌, raise_if, raise_exc_if, bind-ok, >>-ok, passed-ok,
  raise_exc_if-false, raise_if-false, authentication_error,
}
use alert2ir.Python.DateTime.{DateTime, is_naive}
use alert2ir.Python.Text.{codes, length}
use alert2ir.Python.Pattern.{is_timestamp, decimal_value}
use alert2ir.Python.Library.{Library}
use alert2ir.Splunk.Auth.{
  verify_signature, check_signature, check_digits, signature_digits, parse_timestamp, epoch_seconds,
  distance, compute_signature, signing_bytes, signing_input, validate_shared_secret,
}

-- the parts of an authentic request
pub record Authentic (l : Library) (secret : List ℕ) (timestamp signature : String) (body : List ℕ)
    (now : DateTime) (skew : ℕ) : Type 0 where
  pub well_formed : is_timestamp (codes timestamp) ≡ true
  pub fresh : distance (epoch_seconds now) (decimal_value (codes timestamp)) ≤ skew
  pub strong : 32 ≤ length secret
  pub signed : signature_digits signature ≡ some (l.hmac_hex secret (signing_bytes timestamp body))

module _ (l : Library) (secret : List ℕ) (body : List ℕ) (now : DateTime) (skew : ℕ) where
  digits-Authentic :
      (timestamp signature digits : String)
      → is_timestamp (codes timestamp) ≡ true
      → signature_digits signature ≡ some digits
      → check_digits l secret timestamp body
          (epoch_seconds now)
          (decimal_value (codes timestamp))
          skew
          digits
        ≡ ok tt
      → Authentic l secret timestamp signature body now skew
  unfolding check_digits compute_signature validate_shared_secret signing_input parse_timestamp
  digits-Authentic timestamp signature digits good given h =
      let late = ltb skew (distance (epoch_seconds now) (decimal_value (codes timestamp))) in
      let judge : String → Result (Unit {0}) =
        λ expected. raise_exc_if (not (expected == digits)) authentication_error in
      let signed_body : Result String =
        signing_input timestamp body >>= λ message. ok (l.hmac_hex secret message) in
      let (near, h1) =
        >>-ok (raise_exc_if late authentication_error)
          (compute_signature l secret timestamp body >>= judge) h in
      let (expected, computed, h2) =
        bind-ok (compute_signature l secret timestamp body) judge tt h1 in
      let same = raise_exc_if-false (not (expected == digits)) authentication_error h2 in
      let checked = passed-ok (validate_shared_secret secret) signed_body expected computed in
      let long =
        raise_if-false (ltb (length secret) 32) "shared secret must be at least 32 bytes" checked in
      let rest = check-ok (validate_shared_secret secret) signed_body expected computed in
      let hex : l.hmac_hex secret (signing_bytes timestamp body) ≡ expected =
        ground (arith, good, rest) in
      let equal : expected ≡ digits = ground (arith, ==_iff expected digits) in
      record {
        well_formed = good;
        fresh = ground (arith, raise_exc_if-false late authentication_error near);
        strong = ground (arith, long);
        signed = given ∙ ap some (sym equal ∙ sym hex);
      }

  parsed-Authentic :
      (timestamp signature : String)
      → is_timestamp (codes timestamp) ≡ true
      → check_signature l secret
          (some timestamp)
          body
          (epoch_seconds now)
          (decimal_value (codes timestamp))
          skew
          (some signature)
        ≡ ok tt
      → Authentic l secret timestamp signature body now skew
  unfolding check_signature
  parsed-Authentic timestamp signature good h = go (signature_digits signature) refl h
    where
      go :
          (o : Option String)
          → signature_digits signature ≡ o
          → elim o [
            | none ↦ err authentication_error
            | some digits ↦
                check_digits l secret timestamp body
                  (epoch_seconds now)
                  (decimal_value (codes timestamp))
                  skew
                  digits
          ]
            ≡ ok tt
          → Authentic l secret timestamp signature body now skew
      go none e h' = absurd (cc)
      go (some digits) e h' = digits-Authentic timestamp signature digits good e h'

  verified-Authentic :
      (timestamp signature : String)
      → verify_signature l secret (some timestamp) (some signature) body now skew ≡ ok tt
      → (is_naive now ≡ false) × Authentic l secret timestamp signature body now skew
  unfolding verify_signature parse_timestamp
  verified-Authentic timestamp signature h =
      let check : ℕ → Result (Unit {0}) = λ t.
        check_signature l secret (some timestamp) body (epoch_seconds now) t skew
          (some signature) in
      let awake =
        raise_if-false (is_naive now) "authentication clock must be timezone-aware"
          (passed-ok _ (parse_timestamp (some timestamp) >>= check) tt h) in
      let h1 =
        check-ok (raise_if (is_naive now) "authentication clock must be timezone-aware")
          (parse_timestamp (some timestamp) >>= check) tt h in
      (
        awake,
        elim (Bool-cases (is_timestamp (codes timestamp))) [
          | inl e ↦ parsed-Authentic timestamp signature e (rw e at h1)
          | inr e ↦ absurd (let wrong : err authentication_error ≡ ok tt = rw e at h1 in cc)
        ],
      )

  pub Authentic-verified :
      (timestamp signature : String)
      → is_naive now ≡ false
      → Authentic l secret timestamp signature body now skew
      → verify_signature l secret (some timestamp) (some signature) body now skew ≡ ok tt
  unfolding verify_signature parse_timestamp check_signature check_digits compute_signature
      validate_shared_secret signing_input
  Authentic-verified timestamp signature awake a =
      let hex = l.hmac_hex secret (signing_bytes timestamp body) in
      let near : ltb skew (distance (epoch_seconds now) (decimal_value (codes timestamp))) ≡ false =
        ground (arith, a.fresh) in
      let long : ltb (length secret) 32 ≡ false = ground (arith, a.strong) in
      rw (awake, a.well_formed)
        (rw (a.signed, check_signature)
          (rw (near, long, a.well_formed) (rw (==_refl hex, check_signature) refl)))

  -- verify_signature passes exactly for an authentic request: the clock is aware, both headers are
  -- there, the timestamp has the format and lies within the skew of the clock, the secret is long
  -- enough, and the signature carries the digest of the context, the timestamp and the body.
  pub verify_exactly :
      (timestamp signature : Option String)
      → (verify_signature l secret timestamp signature body now skew ≡ ok tt) ↔ (
          (is_naive now ≡ false)
          × (t : String) × (s : String) × (timestamp ≡ some t)
          × (signature ≡ some s)
          × Authentic l secret t s body now skew)
  unfolding verify_signature check_signature parse_timestamp
  verify_exactly none signature = (
    λ h. absurd (
        let wrong : err authentication_error ≡ ok tt =
          check-ok (raise_if (is_naive now) "authentication clock must be timezone-aware")
            (err authentication_error) tt h in
        cc),
    λ (awake, t, s, none_t, some_s, a). absurd (cc),
  )
  verify_exactly (some t) none = (
    λ h.
        let parsed : Result ℕ = parse_timestamp (some t) in
        let h1 =
          check-ok (raise_if (is_naive now) "authentication clock must be timezone-aware")
            (parsed >>= λ n. err authentication_error) tt h in
        let (n, got, wrong) = bind-ok parsed (λ n. err authentication_error) tt h1 in absurd (cc),
    λ (awake, t', s, some_t, none_s, a). absurd (cc),
  )
  verify_exactly (some t) (some s) = (
    λ h. let (awake, a) = verified-Authentic t s h in (awake, t, s, refl, refl, a),
    λ (awake, t', s', some_t, some_s, a).
        let same_t : t ≡ t' = cc in
        let same_s : s ≡ s' = cc in rw (same_t, same_s) (Authentic-verified t' s' awake a),
  )
