-- ===== src/Splunk/App/Gate.antt =====
-- The gateway submits authenticated, valid findings and no others.
use alert2ir.Prelude.{
  Option, String, inr, inl, ℕ, ◌≤◌, ◌+◌, none, some, List, [], ◌∷◌, true, false, ltb, ◌≡◌, refl,
  arith, Bool-cases, if◌then◌else◌,
}
use alert2ir.Python.Text.{length}
use alert2ir.Splunk.Auth.{join}
use alert2ir.Splunk.Auth.{allowed_skew}
use alert2ir.Splunk.Client.{DeliveryResult}
use alert2ir.Splunk.Auth.{verify_signature}
use alert2ir.Core.Models.{CanonicalAlert}
use alert2ir.Python.DateTime.{DateTime}
use alert2ir.Python.Result.{Result, ok, err}
use alert2ir.Python.Json.{Value}
use alert2ir.Python.Library.{Library}
use alert2ir.Splunk.Models.{CanonicalizedFinding}
use alert2ir.Splunk.App

-- the bytes of all chunks
abbrev pub joined : List (List ℕ) → List ℕ
joined [] = []
joined (chunk ∷ chunks) = join chunk (joined chunks)

length-join : (xs ys : List ℕ) → length (join xs ys) ≡ length xs + length ys
length-join [] ys = omega arith
length-join (x ∷ xs) ys = rw (length-join xs ys) (omega arith)

join_nil : (xs : List ℕ) → join xs [] ≡ xs
join_nil [] = refl
join_nil (x ∷ xs) = rw (join_nil xs) refl

join_assoc : (xs ys zs : List ℕ) → join (join xs ys) zs ≡ join xs (join ys zs)
join_assoc [] ys zs = refl
join_assoc (x ∷ xs) ys zs = rw (join_assoc xs ys zs) refl

bounded_body_from-joined :
    (body : List ℕ) (chunks : List (List ℕ))
    → length body ≤ 65_536
    → App.bounded_body_from body chunks ≡ (
        if ltb 65_536 (length (join body (joined chunks)))
        then none
        else some (join body (joined chunks)))
unfolding App.bounded_body_from
bounded_body_from-joined body [] small =
    rw (join_nil body)
      (let within : ltb 65_536 (length body) ≡ false = ground (arith, small) in rw within refl)
bounded_body_from-joined body (chunk ∷ chunks) small =
    elim (Bool-cases (ltb 65_536 (length body + length chunk))) [
      | inl large ↦
          let over : ltb 65_536 (length (join body (join chunk (joined chunks)))) ≡ true =
            rw (length-join body (join chunk (joined chunks)), length-join chunk (joined chunks))
              (ground (arith, large)) in
          rw (large, over) refl
      | inr fits ↦
          let next : length (join body chunk) ≤ 65_536 =
            rw (length-join body chunk) (ground (arith, fits)) in
          rw
            (
              fits,
              bounded_body_from-joined (join body chunk) chunks next,
              join_assoc body chunk (joined chunks),
            )
            refl
    ]

-- The body that the route reads chunk by chunk is all of the request's body, or none exactly when
-- that is longer than 65,536 bytes.
pub bounded_body-joined :
    (chunks : List (List ℕ))
    → App.bounded_body chunks
      ≡ (if ltb 65_536 (length (joined chunks)) then none else some (joined chunks))
unfolding App.bounded_body
bounded_body-joined chunks = bounded_body_from-joined [] chunks (omega arith)

-- a request that the route submits as a finding
pub record Submits (l : Library) (read_finding : Value → Result CanonicalizedFinding)
    (secret : List ℕ) (now : DateTime) (request : App.Request) (f : CanonicalizedFinding)
    : Type 0 where
  pub within : length (joined request.chunks) ≤ 65_536
  pub authentic :
      verify_signature l secret
        (App.single_header request.timestamps)
        (App.single_header request.signatures)
        (joined request.chunks)
        now
        allowed_skew
      ≡ ok tt
  pub json : App.is_json request.content_types ≡ true
  pub valid :
      (decoded : Value) × (l.parse_json (joined request.chunks) ≡ some decoded)
      × (read_finding decoded ≡ ok f)

module _ (l : Library) (read_finding : Value → Result CanonicalizedFinding)
    (submit : CanonicalAlert → String → Result DeliveryResult) where
  submit_read-submitted :
      (r : Result CanonicalizedFinding) (f : CanonicalizedFinding)
      → (App.submit_read l read_finding submit r).submitted ≡ some f
      → r ≡ ok f
  unfolding App.submit_read App.submit_canonicalized
  submit_read-submitted (ok g) f h = cc
  submit_read-submitted (err e) f h = elim (Bool-cases (App.is_invalid e)) [
    | inl invalid ↦ absurd (let wrong : none ≡ some f = rw invalid at h in cc)
    | inr other ↦ absurd (let wrong : none ≡ some f = rw other at h in cc)
  ]

  submit_json-submitted :
      (v : Option Value) (f : CanonicalizedFinding)
      → (App.submit_json l read_finding submit v).submitted ≡ some f
      → (decoded : Value) × (v ≡ some decoded) × (read_finding decoded ≡ ok f)
  unfolding App.submit_json
  submit_json-submitted none f h = absurd (cc)
  submit_json-submitted (some v) f h = (v, refl, submit_read-submitted (read_finding v) f h)

  submit_verified-submitted :
      (request : App.Request) (body : List ℕ) (verified : Result (Unit {0}))
      (f : CanonicalizedFinding)
      → (App.submit_verified l read_finding submit request body verified).submitted ≡ some f
      → (verified ≡ ok tt)
        × (App.is_json request.content_types ≡ true)
        × (decoded : Value) × (l.parse_json body ≡ some decoded)
        × (read_finding decoded ≡ ok f)
  unfolding App.submit_verified
  submit_verified-submitted request body (err e) f h =
      elim (Bool-cases (App.is_unauthenticated e)) [
        | inl refused ↦ absurd (let wrong : none ≡ some f = rw refused at h in cc)
        | inr other ↦ absurd (let wrong : none ≡ some f = rw other at h in cc)
      ]
  submit_verified-submitted request body (ok passed) f h =
      elim (Bool-cases (App.is_json request.content_types)) [
        | inl json ↦
            let (decoded, parsed, read) =
              submit_json-submitted (l.parse_json body) f (rw json at h) in
            (refl, json, decoded, parsed, read)
        | inr other ↦ absurd (let wrong : none ≡ some f = rw other at h in cc)
      ]

  -- The route submits a finding only if the body is at most 65,536 bytes long, the signature passes
  -- for exactly these bytes, the content type is JSON, and the finding is what the body decodes to.
  pub submit_finding-Submits :
      (secret : List ℕ) (now : DateTime) (request : App.Request) (f : CanonicalizedFinding)
      → (App.submit_finding l read_finding submit secret now request).submitted ≡ some f
      → Submits l read_finding secret now request f
  unfolding App.submit_finding App.submit_body
  submit_finding-Submits secret now request f h =
      elim (Bool-cases (ltb 65_536 (length (joined request.chunks)))) [
        | inl large ↦
            absurd (
              let wrong : none ≡ some f = rw (bounded_body-joined request.chunks, large) at h in cc)
        | inr small ↦
            let h1 = rw (bounded_body-joined request.chunks, small) at h in
            let (authentic, json, decoded, parsed, read) =
              submit_verified-submitted request (joined request.chunks) _ f h1 in
            (record {
              within = ground (arith, small);
              authentic = authentic;
              json = json;
              valid = (decoded, parsed, read);
            })
      ]
