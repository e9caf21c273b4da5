-- ===== src/Delivery/Deliver/Progress.antt =====
-- A delivery that meets a success in its first three attempts returns it.
use alert2ir.Prelude.{
  ◌-◌, ℕ, zero, suc, ◌+◌, ◌≤◌, ◌<◌, ◌≡◌, true, false, not, ◌||◌, nat_eq, refl, arith, subst,
}
use alert2ir.Python.Result.{ok}
use alert2ir.Python.Library.{Library}
use alert2ir.Delivery.Classification.{AdapterDisposition}
use alert2ir.Delivery.Deliver.{
  Job, Environment, DeliveryOutcome, maximum_attempts, outcome_of, checked, deliver,
}
use alert2ir.Delivery.Deliver.Settled.{disposition_at, Settles, settled, retried, deliver-Settles}

module _ (l : Library) (job : Job) (environment : Environment) where
  -- an attempt that fails, and that may be made again
  abbrev pub FailsRetryably : ℕ → Type 0
  FailsRetryably n =
      (d : AdapterDisposition) × (disposition_at l job environment n ≡ ok d)
      × (d.success ≡ false)
      × (d.retryable ≡ true)

  Settles-after :
      (left m n : ℕ) (o : DeliveryOutcome)
      → left + m ≡ n
      → n ≤ 3
      → ((i : ℕ) → m ≤ i → i < n → FailsRetryably i)
      → Settles l job environment n o
      → Settles l job environment m o
  Settles-after zero m n o sum below failing s =
      let same : n ≡ m = omega (arith, sum) in subst (λ k. Settles l job environment k o) same s
  Settles-after (suc left) m n o sum below failing s =
      let (d, at, failed, again) = failing m (omega arith) (omega (arith, sum)) in
      let earlier : nat_eq m maximum_attempts ≡ false = ground (arith, sum, below) in
      let continues : (d.success || not d.retryable || nat_eq m maximum_attempts) ≡ false =
        rw (failed, again, earlier) refl in
      retried d at continues (
        Settles-after left (suc m) n o (omega (arith, sum)) below
          (λ i after before. failing i (omega (arith, after)) before) s)

  -- For a body and a secret that pass the checks: if one of the first three attempts is a success and
  -- every attempt before it is a retryable failure, `deliver` returns this success.
  pub deliver-success :
      (n : ℕ) (d : AdapterDisposition)
      → checked job ≡ ok tt
      → 1 ≤ n
      → n ≤ 3
      → ((i : ℕ) → 1 ≤ i → i < n → FailsRetryably i)
      → disposition_at l job environment n ≡ ok d
      → d.success ≡ true
      → (deliver l job environment).answer ≡ ok (outcome_of d n)
  deliver-success n d passed first below failing at good =
      let final : (d.success || not d.retryable || nat_eq n maximum_attempts) ≡ true =
        rw good refl in
      let left : (k : ℕ) × (k + 1 ≡ n) = (n - 1, omega (arith, first)) in
      (deliver-Settles l job environment passed (outcome_of d n)).1
        (Settles-after left.0 1 n (outcome_of d n) left.1 below failing (settled d at final))
