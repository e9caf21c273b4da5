-- ===== src/Processing/Bounds.antt =====
-- The bounds of one reconciliation pass.
use alert2ir.Prelude.{
  ◌-◌, subst, ℕ, suc, ◌≤◌, ◌+◌, Option, some, List, [], ◌∷◌, ◌≡◌, true, false, Bool, if◌then◌else◌,
  Bool-cases, inl, inr, arith, ltb, nat_eq, ◌||◌, ◌==◌,
}
use alert2ir.Python.Result.{raise_if, Result, ok, err}
use alert2ir.Python.Action.{check-ok, pure, >>=-ok, Action, ◌>>=◌}
use alert2ir.Python.DateTime.{aware, DateTime}
use alert2ir.Application.Record.{ProcessingRecord}
use alert2ir.Application.States.{processing_state_equality}
use alert2ir.Repository.Store.{Repository}
use alert2ir.Repository.Window.{length, length-find}
use alert2ir.Repository.Reconcilable.{find_reconcilable}
use alert2ir.Application.Attempt.{ExecutionAttempt}
use alert2ir.Processing.World.{in_repository, attempting, Processor, World, remaining, expired}
use alert2ir.Processing.Reconciliation.{
  advance, attempt_of, ReconciliationReport, count_outcome, examine, pass, no_work, reconcile_once,
}

-- A report within its bounds.
pub record Bounded (n : ℕ) (c : ReconciliationReport) : Type 0 where
  pub at_most : c.examined ≤ n
  pub counted : c.advanced + c.failed ≤ c.examined

module _ (p : Processor) (deadline : ℕ) where
  count-Bounded :
      (n : ℕ) (before : ProcessingRecord) (o : Result ProcessingRecord) (c : ReconciliationReport)
      → Bounded n c
      → Bounded (suc n) (count_outcome p deadline before o (record c { examined = suc c.examined }))
  unfolding count_outcome
  count-Bounded n before (err e) c b = record {
    at_most = omega (arith, b.at_most);
    counted = omega (arith, b.counted);
  }
  count-Bounded n before (ok after) c b = elim (Bool-cases (after.state == before.state)) [
    | inl e ↦
        rw e (record { at_most = omega (arith, b.at_most); counted = omega (arith, b.counted) })
    | inr e ↦
        rw e (record { at_most = omega (arith, b.at_most); counted = omega (arith, b.counted) })
  ]

  examine-Bounded :
      (n : ℕ) (current : ProcessingRecord) (c c' : ReconciliationReport) (w : World)
      → Bounded n c
      → (examine p deadline current c w).0 ≡ ok c'
      → Bounded (suc n) c'
  unfolding examine
  examine-Bounded n current c c' w b h =
      let count : Result ProcessingRecord → ReconciliationReport =
        λ o. count_outcome p deadline current o (record c { examined = suc c.examined }) in
      let k : Result ProcessingRecord → Action World ReconciliationReport = λ o. pure (count o) in
      let f : Option ExecutionAttempt → Action World ReconciliationReport =
        λ _. attempting (advance p deadline current.state current) >>= k in
      let (a, _, h1) = >>=-ok (attempt_of p deadline current) f w c' h in
      let (o, _, h2) =
        >>=-ok (attempting (advance p deadline current.state current)) k
          (attempt_of p deadline current w).1 c' h1 in
      let same : count o ≡ c' = cc in
      subst (λ x. Bounded (suc n) x) same (count-Bounded n current o c b)

  more-Bounded : (n m : ℕ) (c : ReconciliationReport) → n ≤ m → Bounded n c → Bounded m c
  more-Bounded n m c le b = record { at_most = omega (arith, b.at_most); counted = b.counted }

  stopped-Bounded :
      (n : ℕ) (c : ReconciliationReport)
      → Bounded n c
      → Bounded n (record c { time_limit_reached = true })
  stopped-Bounded n c b = record { at_most = b.at_most; counted = b.counted }

  abbrev stopped : ReconciliationReport → ReconciliationReport
  stopped c = record c { time_limit_reached = true }

  -- the second test of the deadline
  finish_pass :
      (rest : List ProcessingRecord) (n : ℕ) (d c' : ReconciliationReport) (v : World) (late : Bool)
      → Bounded (suc n) d
      → ((if late then pure (stopped d) else pass p deadline rest d) v).0 ≡ ok c'
      → ((pass p deadline rest d v).0 ≡ ok c' → Bounded (length rest + suc n) c')
      → Bounded (length rest + suc n) c'
  finish_pass rest n d c' v false b h more = more h
  finish_pass rest n d c' v true b h more =
      let same : stopped d ≡ c' = cc in
      subst (λ x. Bounded (length rest + suc n) x) same
        (stopped-Bounded _ d (more-Bounded (suc n) _ d (omega arith) b))

  pass-Bounded :
      (rs : List ProcessingRecord) (n : ℕ) (c c' : ReconciliationReport) (w : World)
      → Bounded n c
      → (pass p deadline rs c w).0 ≡ ok c'
      → Bounded (length rs + n) c'
  unfolding pass length
  pass-Bounded [] n c c' w b h =
      let e : c ≡ c' = cc in
      subst (λ x. Bounded (0 + n) x) e (more-Bounded n (0 + n) c (omega arith) b)
  pass-Bounded (current ∷ rest) n c c' w b h =
      let go_on : ReconciliationReport → Option ℕ → Action World ReconciliationReport =
        λ d after. if expired after then pure (stopped d) else pass p deadline rest d in
      let looped : ReconciliationReport → Action World ReconciliationReport =
        λ d. remaining p (some deadline) >>= go_on d in
      let begin : Option ℕ → Action World ReconciliationReport = λ before.
        if expired before then pure (stopped c) else examine p deadline current c >>= looped in
      let (before, _, h1) = >>=-ok (remaining p (some deadline)) begin w c' h in
      elim (Bool-cases (expired before)) [
        | inl e ↦
            let stop : Result.ok (stopped c) ≡ ok c' = rw e at h1 in
            let same : stopped c ≡ c' = cc in
            subst (λ x. Bounded (suc (length rest) + n) x) same
              (stopped-Bounded _ c (more-Bounded n _ c (omega arith) b))
        | inr e ↦
            let on : ((examine p deadline current c >>= looped) (remaining p (some deadline) w).1).0
                ≡ ok c' =
              rw e at h1 in
            let (d, got, h2) = >>=-ok (examine p deadline current c) looped _ c' on in
            let b' = examine-Bounded n current c d _ b got in
            let v = (examine p deadline current c (remaining p (some deadline) w).1).1 in
            let (after, _, h3) = >>=-ok (remaining p (some deadline)) (go_on d) v c' h2 in
            more-Bounded (length rest + suc n) (suc (length rest) + n) c' (omega arith) (
              finish_pass rest n d c' (remaining p (some deadline) v).1 (expired after) b' h3
                (pass-Bounded rest (suc n) d c' _ b'))
      ]

-- A pass that returned examined at most `limit` records, and those that it counts as advanced or
-- failed are among the examined ones.
pub reconcile_once-Bounded :
    (p : Processor) (limit max_seconds stale_after : ℕ) (w : World) (c : ReconciliationReport)
    → (reconcile_once p limit max_seconds stale_after w).0 ≡ ok c
    → Bounded limit c
unfolding reconcile_once in_repository
reconcile_once-Bounded p limit max_seconds stale_after w c h =
    let find : DateTime → Action Repository (List ProcessingRecord) = λ now s.
      (find_reconcilable limit (aware (p.wall_clock (suc w.ordinal) - stale_after)) s, s) in
    let deadline = p.monotonic w.ordinal + max_seconds in
    let goal : (w' : World)
        → ((in_repository p find >>= λ found. pass p deadline found no_work) w').0 ≡ ok c
        → Bounded limit c =
      λ w' h'.
        let (found, answered, h2) =
          >>=-ok (in_repository p find) (λ found. pass p deadline found no_work) w' c h' in
        more-Bounded p deadline (length found + 0) limit c
          (omega (arith, length-find limit _ w'.repository found answered))
          (pass-Bounded p deadline found 0 no_work c _
            (record { at_most = omega arith; counted = omega arith }) h2) in
    goal _ (
      check-ok
        (raise_if (ltb limit 1 || nat_eq max_seconds 0) "reconciliation bounds must be positive") _
        w c h)
