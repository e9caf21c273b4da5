-- ===== src/Delivery/Deliver/Conduct.antt =====
-- What `deliver` does to its environment: how often it posts, what it posts, and how long it sleeps.
use alert2ir.Prelude.{
  refl, subst, inr, inl, ℕ, zero, suc, ◌+◌, ◌≤◌, List, [], ◌∷◌, not, ◌||◌, nat_eq, ◌≡◌, arith,
  Bool-cases,
}
use alert2ir.Python.Result.{◌>>=◌, Result-cases, bind-ok, Exc, Result, ok, err}
use alert2ir.Python.Library.{Library}
use alert2ir.Delivery.Signature.{signature_header}
use alert2ir.Delivery.Classification.{disposition_of, AdapterDisposition}
use alert2ir.Delivery.Deliver.{
  post_of, checked, timestamp_from_clock, Option, deliver, attempt_loop, prepare_post, Environment,
  Post, Event, posted, slept, DeliveryOutcome, Job, Run, maximum_attempts, retry_delay, outcome_of,
  stop, before, sleep_before, finish_attempt,
}

abbrev pub post_count : List Event → ℕ
post_count [] = 0
post_count (posted p ∷ events) = suc (post_count events)
post_count (slept n ∷ events) = post_count events

abbrev pub time_slept : List Event → ℕ
time_slept [] = 0
time_slept (posted p ∷ events) = time_slept events
time_slept (slept n ∷ events) = n + time_slept events

-- a post of the job: its URL and its body, and the signature of this body
abbrev pub IsPostOf : Library → Job → Post → Type 0
IsPostOf l job p =
    (p.url ≡ job.url)
    × (p.body ≡ job.body)
    × (signature_header l job.secret p.timestamp job.body ≡ ok p.signature)

-- every post of a list is one of the job
abbrev pub ArePostsOf : Library → Job → List Event → Type 0
ArePostsOf l job [] = Unit {0}
ArePostsOf l job (posted p ∷ events) = IsPostOf l job p × ArePostsOf l job events
ArePostsOf l job (slept n ∷ events) = ArePostsOf l job events

-- a run after `n` posts that sleeps for `rest` milliseconds at most
pub record Conduct (l : Library) (job : Job) (n rest : ℕ) (run : Run) : Type 0 where
  pub few : post_count run.events + n ≤ 3
  pub short : time_slept run.events ≤ rest
  pub same : ArePostsOf l job run.events
  pub counted : (o : DeliveryOutcome) → run.answer ≡ ok o → post_count run.events + n ≡ o.attempts

-- the milliseconds that are left to sleep after `n` posts and the pause after them
abbrev rest_delay : ℕ → ℕ
rest_delay zero = 3_000
rest_delay (suc zero) = 2_000
rest_delay (suc (suc n)) = 0

module _ (l : Library) (job : Job) where
  raised-Conduct : (n rest : ℕ) (e : Exc) → n ≤ 3 → Conduct l job n rest (stop (err e))
  raised-Conduct n rest e below = record {
    few = omega (arith, below);
    short = omega arith;
    same = tt;
    counted = λ o h. absurd (cc);
  }

  returned-Conduct :
      (n rest : ℕ) (d : AdapterDisposition)
      → n ≤ 3
      → Conduct l job n rest (stop (ok (outcome_of d n)))
  returned-Conduct n rest d below = record {
    few = omega (arith, below);
    short = omega arith;
    same = tt;
    counted = λ o h. let same : outcome_of d n ≡ o = cc in rw (← same) (omega arith);
  }

  slept-Conduct :
      (n rest pause : ℕ) (run : Run)
      → Conduct l job n rest run
      → Conduct l job n (pause + rest) (before (slept pause) run)
  slept-Conduct n rest pause run c = record {
    few = c.few;
    short = omega (arith, c.short);
    same = c.same;
    counted = c.counted;
  }

  sleep_before-Conduct :
      (n : ℕ) (run : Run)
      → suc n ≤ 3
      → Conduct l job (suc n) (rest_delay (suc n)) run
      → Conduct l job (suc n) (rest_delay n) (sleep_before (suc n) run)
  unfolding sleep_before retry_delay
  sleep_before-Conduct zero run below c = slept-Conduct 1 2_000 1_000 run c
  sleep_before-Conduct (suc zero) run below c = slept-Conduct 2 0 2_000 run c
  sleep_before-Conduct (suc (suc n)) run below c = raised-Conduct (suc (suc (suc n))) _ _ below

  finish_attempt-Conduct :
      (d : Result AdapterDisposition) (n : ℕ) (run : Run)
      → suc n ≤ 3
      → Conduct l job (suc n) (rest_delay (suc n)) run
      → Conduct l job (suc n) (rest_delay n) (finish_attempt d (suc n) run)
  unfolding finish_attempt
  finish_attempt-Conduct (err e) n run below c = raised-Conduct (suc n) _ e below
  finish_attempt-Conduct (ok d) n run below c =
      elim (Bool-cases (d.success || not d.retryable || nat_eq (suc n) maximum_attempts)) [
        | inl final ↦ rw final (returned-Conduct (suc n) _ d below)
        | inr again ↦ rw again (sleep_before-Conduct n run below c)
      ]

  posted-Conduct :
      (n rest : ℕ) (p : Post) (run : Run)
      → IsPostOf l job p
      → Conduct l job (suc n) rest run
      → Conduct l job n rest (before (posted p) run)
  posted-Conduct n rest p run is_post c = record {
    few = omega (arith, c.few);
    short = c.short;
    same = (is_post, c.same);
    counted = λ o h. let e = c.counted o h in omega (arith, e);
  }

  prepare_post-IsPostOf :
      (now : Option ℕ) (p : Post) → prepare_post l job now ≡ ok p → IsPostOf l job p
  unfolding prepare_post
  prepare_post-IsPostOf now p h =
      let (timestamp, read, h1) =
        bind-ok (timestamp_from_clock now)
          (λ timestamp. do
            signature ← signature_header l job.secret timestamp job.body
            ok (post_of job timestamp signature))
          p h in
      let (signature, signed, h2) =
        bind-ok (signature_header l job.secret timestamp job.body)
          (λ signature. ok (post_of job timestamp signature)) p h1 in
      let made : post_of job timestamp signature ≡ p = cc in
      subst (IsPostOf l job) made (refl, refl, signed)

  module _ (environment : Environment) where
    attempt_loop-Conduct :
        (left n : ℕ)
        → left + n ≡ 3
        → Conduct l job n (rest_delay n) (attempt_loop l job environment left (suc n))
    unfolding attempt_loop
    attempt_loop-Conduct zero n sum = raised-Conduct n _ _ (omega (arith, sum))
    attempt_loop-Conduct (suc left) n sum =
        let rest = attempt_loop-Conduct left (suc n) (omega (arith, sum)) in
        elim (Result-cases (prepare_post l job (environment.clock (suc n)))) [
          | inl (e, failed) ↦ rw (failed, attempt_loop) (raised-Conduct n _ e (omega (arith, sum)))
          | inr (p, made) ↦
              rw (made, attempt_loop)
                (posted-Conduct n _ p _ (prepare_post-IsPostOf _ p made) (
                  finish_attempt-Conduct (disposition_of l (environment.transport (suc n) p)) n _
                    (omega (arith, sum)) rest))
        ]

    -- A call of `deliver` posts at most three times, every time the one body to the one URL with a
    -- signature of that body, sleeps at most three seconds in all, and reports the number of its
    -- posts as the number of attempts.
    pub deliver-Conduct : Conduct l job 0 3_000 (deliver l job environment)
    unfolding deliver
    deliver-Conduct = elim (Result-cases (checked job)) [
      | inl (e, failed) ↦ rw (failed, deliver) (raised-Conduct 0 _ e (omega arith))
      | inr (u, passed) ↦ rw (passed, deliver) (attempt_loop-Conduct 3 0 refl)
    ]
