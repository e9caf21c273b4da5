-- ===== src/Repository/Replays.antt =====
-- An idempotency key, once it is bound, answers with its first processing for ever.
use alert2ir.Prelude.{
  none, refl, arith, sym, ◌==◌, ap, Option, subst, not, true, ℕ, String, some, List, ◌≡◌, true,
  false, ==_iff, nat_equality, string_equality,
}
use alert2ir.Python.Result.{Result, ok}
use alert2ir.Python.DateTime.{DateTime}
use alert2ir.Python.Dict.{get-put_self, get, get-put_fresh, pair_equality}
use alert2ir.Core.Models.{CanonicalAlert}
use alert2ir.Backends.Base.{Uuid}
use alert2ir.Application.Record.{ProcessingRecord, record_post_init}
use alert2ir.Repository.Store.{Repository}
use alert2ir.Repository.Acceptance.{
  accept_existing, accept_identity, create_processing, new_record, ProcessingAcceptance,
  accept_processing, is_valid_key,
}
use alert2ir.Repository.Call.{accept, execute, Call, run}
use alert2ir.Repository.Change.{Change, unchanged, accepts, moves, advances, updates, plans}
use alert2ir.Repository.Invariant.{Inv}
use alert2ir.Repository.Rules.{raise_if-rule, construct-rule, load_record-rule}
use alert2ir.Python.Optional.{is_some}
use alert2ir.Repository.Histories.{execute-Inv, run_induction}
use alert2ir.Repository.Lifecycle.{SameIdentity, run-Kept}

Change-bound :
    (scope key : String) (k : Uuid) (s t : Repository)
    → Inv s
    → Change s t
    → get s.idempotency (scope, key) ≡ some k
    → get t.idempotency (scope, key) ≡ some k
Change-bound scope key k s t inv (unchanged e) h = rw e h
Change-bound scope key k s t inv (accepts j scope' key' r new e) h =
    rw e (get-put_fresh s.idempotency (scope', key') (scope, key) j k new.unbound h)
Change-bound scope key k s t inv (moves j r r' w e) h = rw e h
Change-bound scope key k s t inv (advances a x x' w e) h = rw e h
Change-bound scope key k s t inv (updates j a r r' x x' w v e) h = rw e h
Change-bound scope key k s t inv (plans j a x r r' y w new e) h = rw e h

-- the answer of an acceptance under a bound key
abbrev pub replay : ProcessingRecord → ProcessingAcceptance
replay r = record { accepted_record = r; created = false }

pub accept_bound :
    (s : Repository) (j k : Uuid) (alert : CanonicalAlert) (scope key : String) (version : ℕ)
    (digest : List ℕ) (now : DateTime) (r : ProcessingRecord)
    → scope ≡ alert.source.source
    → is_valid_key key ≡ true
    → get s.idempotency (scope, key) ≡ some k
    → get s.records k ≡ some r
    → accept_processing j alert scope key version digest now s ≡ (ok (replay r), s)
unfolding accept_processing
accept_bound s j k alert scope key version digest now r same valid bound found =
    rw ((==_iff scope alert.source.source).1 same, valid, bound, found)

-- When an identity is bound to a processing, and after any further history of calls, an
-- acceptance under the same scope and key, with whatever processing ID and fingerprint, changes
-- nothing and answers with that processing: the same ID, alert and stored fingerprint, not newly
-- created.
accept-replays :
    (s : Repository) (calls : List (Call × DateTime)) (j k : Uuid) (alert : CanonicalAlert)
    (scope key : String) (version : ℕ) (digest : List ℕ) (now : DateTime) (r : ProcessingRecord)
    → Inv s
    → get s.idempotency (scope, key) ≡ some k
    → get s.records k ≡ some r
    → scope ≡ alert.source.source
    → is_valid_key key ≡ true
    → (r' : ProcessingRecord) × (accept_processing j alert scope key version digest now
          (run calls s)
        ≡ (ok (replay r'), run calls s))
      × SameIdentity r r'
accept-replays s calls j k alert scope key version digest now r inv bound found same valid =
    let bound' =
      run_induction (λ t. get t.idempotency (scope, key) ≡ some k) (Change-bound scope key k) s
        calls inv bound in
    let (r', found', kept) = run-Kept s calls k r inv found in
    (
      r',
      accept_bound (run calls s) j k alert scope key version digest now r' same valid bound' found',
      kept,
    )

module _ (s : Repository) (inv : Inv s) (alert : CanonicalAlert) (scope key : String) where
  -- What an acceptance leaves behind: the answered record, stored, and the key bound to it.
  abbrev Binds : Result ProcessingAcceptance × Repository → Type 0
  Binds (r, t) =
      (p : ProcessingAcceptance)
      → r ≡ ok p
      → (get t.idempotency (scope, key) ≡ some p.accepted_record.processing_id)
        × (get t.records p.accepted_record.processing_id ≡ some p.accepted_record)

  create-Binds :
      (k : Uuid) (version : ℕ) (digest : List ℕ) (now : DateTime)
      → Binds (create_processing k alert scope key version digest now s)
  unfolding create_processing
  create-Binds k version digest now =
      raise_if-rule {B = ProcessingAcceptance} Binds s (is_some (get s.records k))
        "processing ID already exists" _ (λ e p h. absurd (cc))
        λ missing.
          construct-rule Binds s record_post_init (new_record k alert scope key version digest now)
            _ (λ e p h. absurd (cc))
            λ valid p h.
              let fresh = new_record k alert scope key version digest now in
              let e : p ≡ record { accepted_record = fresh; created = true } = cc in
              rw e (
                unfold new_record in
                (get-put_self s.idempotency (scope, key) k, get-put_self s.records k fresh))

  accept_existing-Binds :
      (o : Option Uuid) (k : Uuid) (version : ℕ) (digest : List ℕ) (now : DateTime)
      → get s.idempotency (scope, key) ≡ o
      → Binds (accept_existing o (create_processing k alert scope key version digest now) s)
  accept_existing-Binds none k version digest now e = create-Binds k version digest now
  accept_existing-Binds (some j) k version digest now e =
      load_record-rule {B = ProcessingAcceptance} Binds s j _ (λ p h. absurd (cc))
        λ r found p h.
          let own : j ≡ r.processing_id = sym ((inv.records j r found).own_id) in
          let e' : p ≡ replay r = cc in
          rw e' (
            subst (λ i. get s.idempotency (scope, key) ≡ some i) own e,
            subst (λ i. get s.records i ≡ some r) own found,
          )

  pub accept-Binds :
      (k : Uuid) (version : ℕ) (digest : List ℕ) (now : DateTime)
      → Binds (accept_processing k alert scope key version digest now s)
  unfolding accept_processing
  accept-Binds k version digest now =
      raise_if-rule {B = ProcessingAcceptance} Binds s (not (scope == alert.source.source))
        "idempotency scope must equal canonical source"
        (accept_identity k alert scope key version digest now) (λ e p h. absurd (cc))
        λ _.
          raise_if-rule {B = ProcessingAcceptance} Binds s (not (is_valid_key key))
            "idempotency key must be visible ASCII" _ (λ e p h. absurd (cc))
            λ _. accept_existing-Binds (get s.idempotency (scope, key)) k version digest now refl

-- an acceptance that returned had a scope and a key that pass its tests
accept-tests :
    (s t : Repository) (k : Uuid) (alert : CanonicalAlert) (scope key : String) (version : ℕ)
    (digest : List ℕ) (now : DateTime) (p : ProcessingAcceptance)
    → accept_processing k alert scope key version digest now s ≡ (ok p, t)
    → is_valid_key key ≡ true
unfolding accept_processing
accept-tests s t k alert scope key version digest now p h =
    raise_if-rule {B = ProcessingAcceptance} Tested s (not (scope == alert.source.source))
      "idempotency scope must equal canonical source"
      (accept_identity k alert scope key version digest now) (λ e q. absurd (cc))
      (λ _.
        raise_if-rule {B = ProcessingAcceptance} Tested s (not (is_valid_key key))
          "idempotency key must be visible ASCII" _ (λ e q. absurd (cc)) (λ passed _. ground arith))
      (ap (λ o. o.0) h)
  where
    Tested : Result ProcessingAcceptance × Repository → Type 0
    Tested out = out.0 ≡ ok p → is_valid_key key ≡ true

-- An acceptance that returned, from a repository that satisfies the invariant, is final for its
-- key. After any further history, an acceptance under
-- the same scope and key, with whatever processing ID, alert of that source and fingerprint,
-- changes nothing and answers with the processing of the first one: its ID, its alert and its
-- fingerprint, not newly created.
pub accept_once :
    (s t : Repository) (k j : Uuid) (alert alert' : CanonicalAlert) (scope key : String)
    (version version' : ℕ) (digest digest' : List ℕ) (now now' : DateTime)
    (p : ProcessingAcceptance) (calls : List (Call × DateTime))
    → Inv s
    → accept_processing k alert scope key version digest now s ≡ (ok p, t)
    → scope ≡ alert'.source.source
    → (r : ProcessingRecord) × (accept_processing j alert' scope key version' digest' now'
          (run calls t)
        ≡ (ok (replay r), run calls t))
      × SameIdentity p.accepted_record r
accept_once s t k j alert alert' scope key version version' digest digest' now now' p calls inv h
      same =
    let u = (accept_processing k alert scope key version digest now s).1 in
    let valid = accept-tests s t k alert scope key version digest now p h in
    let (bound, found) =
      accept-Binds s inv alert scope key k version digest now p (ap (λ o. o.0) h) in
    subst
      (λ v.
        (r : ProcessingRecord) × (accept_processing j alert' scope key version' digest' now'
            (run calls v)
          ≡ (ok (replay r), run calls v))
        × SameIdentity p.accepted_record r)
      (ap (λ o. o.1) h)
      (accept-replays u calls j p.accepted_record.processing_id alert' scope key version' digest'
        now' p.accepted_record
        (unfold execute in execute-Inv s (accept k alert scope key version digest) now inv) bound
        found same valid)
