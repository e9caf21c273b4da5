-- ===== src/Delivery/Deliver/Answered.antt =====
-- The response behind a delivery that succeeds.
use mathlib.Core.List.{Mem, mem-cons_self, mem-cons_of_mem}
use alert2ir.Prelude.{
  ℕ, zero, suc, List, ◌∷◌, ◌≡◌, true, not, ◌||◌, nat_eq, refl, Bool-cases, inl, inr, subst,
}
use alert2ir.Python.Result.{Result, ok, err, bind-ok, Result-cases}
use alert2ir.Delivery.Signature.{signature_header}
use alert2ir.Python.Library.{Library}
use alert2ir.Delivery.Classification.{AdapterDisposition, disposition_of}
use alert2ir.Delivery.Classification.Replied.{Replied, disposition_of-Replied}
use alert2ir.Delivery.Deliver.{
  Job, Environment, DeliveryOutcome, Post, Event, Run, posted, slept, maximum_attempts, retry_delay,
  prepare_post, post_of, timestamp_from_clock, outcome_of, sleep_before, finish_attempt,
  attempt_loop, checked, deliver,
}

-- An attempt whose request was sent and answered with the status 200 or 202, which the outcome
-- reports.
pub record Answered (l : Library) (job : Job) (environment : Environment) (events : List Event)
    (o : DeliveryOutcome) : Type 0 where
  pub post : Post
  pub made : prepare_post l job (environment.clock o.attempts) ≡ ok post
  pub addressed : post.url ≡ job.url
  pub carried : post.body ≡ job.body
  pub sent : Mem (posted post) events
  pub replied : Replied (environment.transport o.attempts post) o.status

module _ (l : Library) (job : Job) (environment : Environment) where
  Answered-later :
      (e : Event) (events : List Event) (o : DeliveryOutcome)
      → Answered l job environment events o
      → Answered l job environment (e ∷ events) o
  Answered-later e events o a = record {
    post = a.post;
    made = a.made;
    addressed = a.addressed;
    carried = a.carried;
    sent = mem-cons_of_mem e a.sent;
    replied = a.replied;
  }

  prepare_post-job :
      (n : ℕ) (p : Post)
      → prepare_post l job (environment.clock n) ≡ ok p
      → (p.url ≡ job.url) × (p.body ≡ job.body)
  unfolding prepare_post
  prepare_post-job n p h =
      let (timestamp, read, h1) = bind-ok (timestamp_from_clock (environment.clock n)) _ p h in
      let (signature, signed, h2) =
        bind-ok (signature_header l job.secret timestamp job.body) _ p h1 in
      let same : post_of job timestamp signature ≡ p = cc in
      subst (λ (q : Post). (q.url ≡ job.url) × (q.body ≡ job.body)) same (refl, refl)

  sleep_before-Answered :
      (n : ℕ) (rest : Run) (o : DeliveryOutcome)
      → (rest.answer ≡ ok o → Answered l job environment rest.events o)
      → (sleep_before n rest).answer ≡ ok o
      → Answered l job environment (sleep_before n rest).events o
  unfolding sleep_before retry_delay
  sleep_before-Answered zero rest o next h = Answered-later (slept 2_000) rest.events o (next h)
  sleep_before-Answered (suc zero) rest o next h =
      Answered-later (slept 1_000) rest.events o (next h)
  sleep_before-Answered (suc (suc zero)) rest o next h =
      Answered-later (slept 2_000) rest.events o (next h)
  sleep_before-Answered (suc (suc (suc n))) rest o next h = absurd (cc)

  finish_attempt-Answered :
      (n : ℕ) (post : Post) (rest : Run) (o : DeliveryOutcome) (r : Result AdapterDisposition)
      → prepare_post l job (environment.clock n) ≡ ok post
      → disposition_of l (environment.transport n post) ≡ r
      → (rest.answer ≡ ok o → Answered l job environment rest.events o)
      → o.success ≡ true
      → (finish_attempt r n rest).answer ≡ ok o
      → Answered l job environment (posted post ∷ (finish_attempt r n rest).events) o
  unfolding finish_attempt
  finish_attempt-Answered n post rest o (err e) made got next good h = absurd (cc)
  finish_attempt-Answered n post rest o (ok d) made got next good h =
      elim (Bool-cases (d.success || not d.retryable || nat_eq n maximum_attempts)) [
        | inl final ↦
            let returned : ok (outcome_of d n) ≡ ok o = rw final at h in
            let same : outcome_of d n ≡ o = cc in
            let success : d.success ≡ true = rw (← same) at good in
            rw final (
              subst (Answered l job environment _) same (record {
                post = post;
                made = made;
                addressed = (prepare_post-job n post made).0;
                carried = (prepare_post-job n post made).1;
                sent = mem-cons_self;
                replied = disposition_of-Replied l (environment.transport n post) d got success;
              }))
        | inr again ↦
            rw again (
              Answered-later (posted post) _ o
                (sleep_before-Answered n rest o next (rw again at h)))
      ]

  attempt_loop-Answered :
      (left n : ℕ) (o : DeliveryOutcome)
      → o.success ≡ true
      → (attempt_loop l job environment left n).answer ≡ ok o
      → Answered l job environment (attempt_loop l job environment left n).events o
  unfolding attempt_loop
  attempt_loop-Answered zero n o good h = absurd (cc)
  attempt_loop-Answered (suc left) n o good h =
      let rest = attempt_loop l job environment left (suc n) in
      elim (Result-cases (prepare_post l job (environment.clock n))) [
        | inl (e, failed) ↦ absurd (let wrong : err e ≡ ok o = rw (failed, attempt_loop) at h in cc)
        | inr (p, made) ↦
            rw (made, attempt_loop)
              (finish_attempt-Answered n p rest o (disposition_of l (environment.transport n p))
                made refl (attempt_loop-Answered left (suc n) o good) good
                (rw (made, attempt_loop) at h))
      ]

  -- a delivery that succeeds was answered
  pub deliver-Answered :
      (o : DeliveryOutcome)
      → o.success ≡ true
      → (deliver l job environment).answer ≡ ok o
      → Answered l job environment (deliver l job environment).events o
  unfolding deliver
  deliver-Answered o good h = elim (Result-cases (checked job)) [
    | inl (e, failed) ↦ absurd (let wrong : err e ≡ ok o = rw (failed, deliver) at h in cc)
    | inr (u, passed) ↦
        rw (passed, deliver) (attempt_loop-Answered 3 1 o good (rw (passed, deliver) at h))
  ]
