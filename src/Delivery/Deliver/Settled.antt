-- ===== src/Delivery/Deliver/Settled.antt =====
-- `deliver` against its contract: attempt after attempt while the disposition asks for another, up to
-- the third, and the outcome is that of the last attempt.
use alert2ir.Prelude.{
  subst, ℕ, zero, suc, ◌+◌, ◌≤◌, true, false, not, ◌||◌, nat_eq, ◌≡◌, refl, ◌↔◌, arith, Bool-cases,
  inl, inr,
}
use alert2ir.Python.Result.{Result, ok, err, ◌>>=◌, bind-ok, Result-cases}
use alert2ir.Python.Library.{Library}
use alert2ir.Delivery.Classification.{AdapterDisposition, disposition_of}
use alert2ir.Delivery.Deliver.{
  DeliveryOutcome, Environment, Job, Run, maximum_attempts, retry_delay, prepare_post, outcome_of,
  sleep_before, finish_attempt, attempt_loop, checked, deliver,
}

module _ (l : Library) (job : Job) (environment : Environment) where
  -- the disposition of an attempt
  unfoldable pub disposition_at : ℕ → Result AdapterDisposition
  disposition_at n = do
    p ← prepare_post l job (environment.clock n)
    disposition_of l (environment.transport n p)

  -- the outcome of the attempts from the n-th on
  pub data Settles : ℕ → DeliveryOutcome → Type 0 where
    -- a success, a failure that is not retryable, or the last attempt
    settled :
        {n : ℕ}
        → (d : AdapterDisposition) → disposition_at n ≡ ok d
        → (d.success || not d.retryable || nat_eq n maximum_attempts) ≡ true
        → Settles n (outcome_of d n)
    -- a retryable failure before the last attempt
    retried :
        {n : ℕ}
        → {o : DeliveryOutcome} → (d : AdapterDisposition) → disposition_at n ≡ ok d
        → (d.success || not d.retryable || nat_eq n maximum_attempts) ≡ false
        → Settles (suc n) o
        → Settles n o

  sleep_before-answer :
      (n : ℕ) (rest : Run) (o : DeliveryOutcome)
      → (sleep_before n rest).answer ≡ ok o
      → rest.answer ≡ ok o
  unfolding sleep_before retry_delay
  sleep_before-answer zero rest o h = h
  sleep_before-answer (suc zero) rest o h = h
  sleep_before-answer (suc (suc zero)) rest o h = h
  sleep_before-answer (suc (suc (suc n))) rest o h = absurd (cc)

  finish_attempt-Settles :
      (n : ℕ) (rest : Run) (o : DeliveryOutcome) (r : Result AdapterDisposition)
      → disposition_at n ≡ r
      → (rest.answer ≡ ok o → Settles (suc n) o)
      → (finish_attempt r n rest).answer ≡ ok o
      → Settles n o
  unfolding finish_attempt
  finish_attempt-Settles n rest o (err e) at next h = absurd (cc)
  finish_attempt-Settles n rest o (ok d) at next h =
      elim (Bool-cases (d.success || not d.retryable || nat_eq n maximum_attempts)) [
        | inl final ↦
            let returned : ok (outcome_of d n) ≡ ok o = rw final at h in
            let same : outcome_of d n ≡ o = cc in subst (Settles n) same (settled d at final)
        | inr again ↦ retried d at again (next (sleep_before-answer n rest o (rw again at h)))
      ]

  attempt_loop-Settles :
      (left n : ℕ) (o : DeliveryOutcome)
      → (attempt_loop l job environment left n).answer ≡ ok o
      → Settles n o
  unfolding attempt_loop disposition_at
  attempt_loop-Settles zero n o h = absurd (cc)
  attempt_loop-Settles (suc left) n o h =
      let next = attempt_loop-Settles left (suc n) o in
      elim (Result-cases (prepare_post l job (environment.clock n))) [
        | inl (e, failed) ↦ absurd (let wrong : err e ≡ ok o = rw (failed, attempt_loop) at h in cc)
        | inr (p, made) ↦
            finish_attempt-Settles n (attempt_loop l job environment left (suc n)) o
              (disposition_of l (environment.transport n p)) (rw made refl) next
              (rw (made, attempt_loop) at h)
      ]

  sleep_before-rest : (n : ℕ) (rest : Run) → n ≤ 2 → (sleep_before n rest).answer ≡ rest.answer
  unfolding sleep_before retry_delay
  sleep_before-rest zero rest below = refl
  sleep_before-rest (suc zero) rest below = refl
  sleep_before-rest (suc (suc zero)) rest below = refl
  sleep_before-rest (suc (suc (suc n))) rest below = absurd (omega (arith, below))

  attempt-answer :
      (left n : ℕ) (d : AdapterDisposition)
      → disposition_at n ≡ ok d
      → (attempt_loop l job environment (suc left) n).answer
        ≡ (finish_attempt (ok d) n (attempt_loop l job environment left (suc n))).answer
  unfolding attempt_loop disposition_at
  attempt-answer left n d at =
      let (p, made, got) =
        bind-ok (prepare_post l job (environment.clock n))
          (λ p. disposition_of l (environment.transport n p)) d at in
      rw (made, attempt_loop) (rw got refl)

  Settles-attempt_loop :
      (left n : ℕ) (o : DeliveryOutcome)
      → left + n ≡ 4
      → n ≤ 3
      → Settles n o
      → (attempt_loop l job environment left n).answer ≡ ok o
  unfolding finish_attempt
  Settles-attempt_loop zero n o sum below s = absurd (omega (arith, sum, below))
  Settles-attempt_loop (suc left) n o sum below (settled d at final) =
      rw (attempt-answer left n d at) (rw final refl)
  Settles-attempt_loop (suc left) n o sum below (retried d at again next) =
      rw (attempt-answer left n d at) (
        rw again (
          rw
            (sleep_before-rest n (attempt_loop l job environment left (suc n))
              (ground (arith, again, below)))
            (Settles-attempt_loop left (suc n) o (omega (arith, sum)) (ground (arith, again, below))
              next)))

  -- For a body and a secret that pass the checks, `deliver` returns an outcome exactly when it is
  -- the outcome of the attempts from the first on: that of an attempt that succeeded, that failed for
  -- good, or that was the third, where every attempt before it was a retryable failure.
  pub deliver-Settles :
      checked job ≡ ok tt
      → (o : DeliveryOutcome) → ((deliver l job environment).answer ≡ ok o) ↔ Settles 1 o
  unfolding deliver
  deliver-Settles passed o = (
    λ h. attempt_loop-Settles 3 1 o (rw (passed, deliver) at h),
    λ s. rw (passed, deliver) (Settles-attempt_loop 3 1 o refl (omega arith) s),
  )
