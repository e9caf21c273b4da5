-- ===== src/Delivery/Classification/Success.antt =====
-- What a disposition that reports a success stands for.
use alert2ir.Prelude.{
  if◌then◌else◌, subst, ℕ, String, Option, none, some, List, [], ◌∷◌, Bool, true, false, not, ◌&&◌,
  ◌||◌, leb, nat_eq, ◌≡◌, refl, ◌⊎◌, inl, inr, arith, Bool-cases, ◌==◌, string_equality,
}
use alert2ir.Python.Result.{Result, ok, err, bind-ok, check-ok}
use alert2ir.Python.Json.{Value, hashed_text}
use alert2ir.Python.Library.{Library}
use alert2ir.Delivery.Classification.{
  contract_at, HttpResponse, AdapterDisposition, fallback_disposition, Contract, contract,
  contract_of, find_contract, is_status, is_same_boolean, apply_contract, classify_body,
  classify_adapter_response, bounded_response_object, disposition_of,
  transient_exception_disposition, is_transient,
}

-- 200 or 202
abbrev pub IsDelivered : Option ℕ → Type 0
IsDelivered status = (s : ℕ) × (status ≡ some s) × ((s ≡ 200) ⊎ (s ≡ 202))

abbrev IsSound : AdapterDisposition → Type 0
IsSound d = d.success ≡ true → IsDelivered d.status

fallback-IsSound : (status : ℕ) → IsSound (fallback_disposition status)
unfolding fallback_disposition
fallback-IsSound status = elim (Bool-cases (nat_eq status 200 || nat_eq status 202)) [
  | inl good ↦ λ h. rw good (status, refl, ground (arith, good))
  | inr bad ↦ elim (Bool-cases (leb 300 status && leb status 499)) [
    | inl permanent ↦ rw (bad, permanent) (λ h. absurd (cc))
    | inr transient ↦ rw (bad, transient) (λ h. absurd (cc))
  ]
]

-- a contract of success names the status 200 or 202 only
abbrev IsSafe : Contract → Type 0
IsSafe c = c.success ≡ true → (c.statuses ≡ 200 ∷ []) ⊎ (c.statuses ≡ 202 ∷ [])

failure-IsSafe :
    (statuses : List ℕ) (retryable : Bool) (category : String)
    → IsSafe (contract statuses retryable category false)
failure-IsSafe statuses retryable category h = absurd (cc)

abbrev AllSafe : Option Contract → Type 0
AllSafe found = (c : Contract) → found ≡ some c → IsSafe c

some-AllSafe : (c : Contract) → IsSafe c → AllSafe (some c)
some-AllSafe c safe c' h = let same : c ≡ c' = cc in subst IsSafe same safe

none-AllSafe : AllSafe none
none-AllSafe c h = absurd (cc)

choose-AllSafe :
    (b : Bool) (x y : Option Contract) → AllSafe x → AllSafe y → AllSafe (if b then x else y)
choose-AllSafe true x y left right = left
choose-AllSafe false x y left right = right

contract_of-AllSafe : (name : String) → AllSafe (contract_of name)
unfolding contract_of
contract_of-AllSafe name =
    choose-AllSafe (name == "completed") _ _
      (some-AllSafe (contract (200 ∷ []) false "success" true) (λ h. inl refl))
      (choose-AllSafe (name == "accepted") _ _
        (some-AllSafe (contract (202 ∷ []) false "success" true) (λ h. inr refl))
        (choose-AllSafe (name == "permanent_failure") _ _
          (some-AllSafe _ (failure-IsSafe (400 ∷ 409 ∷ 422 ∷ []) false "permanent_failure"))
          (choose-AllSafe (name == "durable_failure") _ _
            (some-AllSafe _ (failure-IsSafe (500 ∷ []) false "durable_failure"))
            (choose-AllSafe (name == "transient_failure") _ _
              (some-AllSafe _ (failure-IsSafe (502 ∷ 503 ∷ 504 ∷ []) true "transient_failure"))
              (none-AllSafe)))))

apply_contract-IsSound :
    (l : Library) (status : ℕ) (body : String → Value) (found : Option Contract)
    → AllSafe found
    → IsSound (apply_contract l status body found)
unfolding apply_contract
apply_contract-IsSound l status body none safe = fallback-IsSound status
apply_contract-IsSound l status body (some c) safe =
    elim (Bool-cases
      (not (is_status c.statuses status) || not (is_same_boolean (body "retryable") c.retryable))) [
        | inl other ↦ rw other (fallback-IsSound status)
        | inr same ↦ rw same (λ h. (
          status,
          refl,
          elim (safe c refl h) [
            | inl is_200 ↦ let listed = rw is_200 at same in ground (arith, listed)
            | inr is_202 ↦ let listed = rw is_202 at same in ground (arith, listed)
          ],
        ))
      ]

contract_at-AllSafe : (key : Option String) → AllSafe (contract_at key)
unfolding contract_at
contract_at-AllSafe (some name) = contract_of-AllSafe name
contract_at-AllSafe none = none-AllSafe

find_contract-AllSafe :
    (value : Value) (found : Option Contract) → find_contract value ≡ ok found → AllSafe found
unfolding find_contract
find_contract-AllSafe value found h =
    let (key, hashed, got) = bind-ok (hashed_text value) (λ key. ok (contract_at key)) found h in
    let same : contract_at key ≡ found = cc in subst AllSafe same (contract_at-AllSafe key)

classify_body-IsSound :
    (l : Library) (status : ℕ) (body : Option (String → Value)) (d : AdapterDisposition)
    → classify_body l status body ≡ ok d
    → IsSound d
unfolding classify_body
classify_body-IsSound l status none d h =
    let same : fallback_disposition status ≡ d = cc in subst IsSound same (fallback-IsSound status)
classify_body-IsSound l status (some body) d h =
    let (found, got, made) =
      bind-ok (find_contract (body "classification"))
        (λ found. ok (apply_contract l status body found)) d h in
    let same : apply_contract l status body found ≡ d = cc in
    subst IsSound same
      (apply_contract-IsSound l status body found (find_contract-AllSafe _ found got))

-- A disposition that is made of a reply and reports a success comes with the status 200 or 202.
pub disposition_of-success :
    (l : Library) (reply : Result HttpResponse) (d : AdapterDisposition)
    → disposition_of l reply ≡ ok d
    → d.success ≡ true
    → IsDelivered d.status
unfolding disposition_of classify_adapter_response transient_exception_disposition
disposition_of-success l (ok response) d h good =
    classify_body-IsSound l response.status (bounded_response_object l response) d
      (check-ok _ (classify_body l response.status (bounded_response_object l response)) d h) good
disposition_of-success l (err e) d h good = elim (Bool-cases (is_transient e)) [
  | inl transient ↦ absurd (
      let same : ok (transient_exception_disposition e) ≡ ok d = rw transient at h in
      let failed : transient_exception_disposition e ≡ d = cc in
      let bad : d.success ≡ false = rw (← failed) refl in cc)
  | inr other ↦ absurd (let wrong : err e ≡ ok d = rw other at h in cc)
]
