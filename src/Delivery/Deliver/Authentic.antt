-- ===== src/Delivery/Deliver/Authentic.antt =====
-- The gateway authenticates every post of a delivery.
use alert2ir.Prelude.{ℕ, ◌≤◌, ◌≡◌, String, some, not, subst, false}
use alert2ir.Python.Result.{ok, raise_exc_if, bind-ok, check-ok}
use alert2ir.Python.DateTime.{DateTime, is_naive}
use alert2ir.Python.Text.{codes}
use alert2ir.Python.Pattern.{is_timestamp, decimal_value}
use alert2ir.Python.Decimal.{decimal_text}
use alert2ir.Python.Decimal.RoundTrip.{decimal_value-text}
use alert2ir.Python.Library.{Library, Documented}
use alert2ir.Splunk.Auth.{verify_signature, epoch_seconds, distance}
use alert2ir.Delivery.Signature.{signature_header}
use alert2ir.Delivery.Signature.Accepted.{sent-verified}
use alert2ir.Delivery.Deliver.{Job, Post, post_of, timestamp_from_clock, prepare_post}

timestamp_from_clock-text :
    (t : ℕ) (timestamp : String)
    → timestamp_from_clock (some t) ≡ ok timestamp
    → decimal_text t ≡ timestamp
unfolding timestamp_from_clock
timestamp_from_clock-text t timestamp h =
    let got =
      check-ok (raise_exc_if (not (is_timestamp (codes (decimal_text t)))) _) (ok (decimal_text t))
        timestamp h in
    cc

-- Where HMAC digests are hexadecimal, a post that the action prepares while its clock shows the
-- second t passes the gateway's verification of the same secret, while the gateway's clock is
-- aware and within the allowed skew of t.
pub prepare_post-verified :
    (l : Library) (job : Job) (t : ℕ) (p : Post) (now : DateTime) (skew : ℕ)
    → Documented l
    → prepare_post l job (some t) ≡ ok p
    → is_naive now ≡ false
    → distance (epoch_seconds now) t ≤ skew
    → verify_signature l job.secret (some p.timestamp) (some p.signature) p.body now skew ≡ ok tt
unfolding prepare_post
prepare_post-verified l job t p now skew d h awake near =
    let (timestamp, read, h1) = bind-ok (timestamp_from_clock (some t)) _ p h in
    let (signature, signed, h2) =
      bind-ok (signature_header l job.secret timestamp job.body) _ p h1 in
    let made : post_of job timestamp signature ≡ p = cc in
    let shown = timestamp_from_clock-text t timestamp read in
    let same : decimal_value (codes timestamp) ≡ t = rw (← shown) (decimal_value-text t) in
    subst
      (λ q.
        verify_signature l job.secret (some q.timestamp) (some q.signature) q.body now skew ≡ ok tt)
      made
      (sent-verified l job.secret timestamp signature job.body now skew d signed awake
        (rw same near))
