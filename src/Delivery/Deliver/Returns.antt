-- ===== src/Delivery/Deliver/Returns.antt =====
-- A delivery ends with an outcome.
use alert2ir.Prelude.{
  ℕ, zero, suc, ◌+◌, ◌≡◌, true, not, ◌||◌, nat_eq, refl, arith, Bool-cases, inl, inr,
}
use alert2ir.Python.Result.{ok}
use alert2ir.Python.Library.{Library}
use alert2ir.Delivery.Classification.{AdapterDisposition}
use alert2ir.Delivery.Deliver.{
  Job, Environment, DeliveryOutcome, maximum_attempts, outcome_of, checked, deliver,
}
use alert2ir.Delivery.Deliver.Settled.{disposition_at, Settles, settled, retried, deliver-Settles}

module _ (l : Library) (job : Job) (environment : Environment) where
  -- every attempt has a disposition
  abbrev pub Responsive : Type 0
  Responsive = (n : ℕ) → (d : AdapterDisposition) × (disposition_at l job environment n ≡ ok d)

  Settles-attempts :
      (left n : ℕ)
      → left + n ≡ 3
      → Responsive
      → (o : DeliveryOutcome) × Settles l job environment n o
  Settles-attempts zero n sum responsive =
      let (d, at) = responsive n in
      let last : (d.success || not d.retryable || nat_eq n maximum_attempts) ≡ true =
        ground (arith, sum) in
      (outcome_of d n, settled d at last)
  Settles-attempts (suc left) n sum responsive =
      let (d, at) = responsive n in
      let (o, rest) = Settles-attempts left (suc n) (omega (arith, sum)) responsive in
      elim (Bool-cases (d.success || not d.retryable || nat_eq n maximum_attempts)) [
        | inl final ↦ (outcome_of d n, settled d at final)
        | inr again ↦ (o, retried d at again rest)
      ]

  -- For a body and a secret that pass the checks, `deliver` returns an outcome, if each attempt has a
  -- disposition: a clock in range, and a response that can be classified or a failed connection.
  pub deliver-returns :
      checked job ≡ ok tt
      → Responsive
      → (o : DeliveryOutcome) × ((deliver l job environment).answer ≡ ok o)
  deliver-returns passed responsive =
      let (o, s) = Settles-attempts 2 1 refl responsive in
      (o, (deliver-Settles l job environment passed o).1 s)
