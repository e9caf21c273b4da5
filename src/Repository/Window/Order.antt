-- ===== src/Repository/Window/Order.antt =====
-- What `find_reconcilable` answers: of the stored work that a pass may resume, the oldest records,
-- the oldest first.
use mathlib.Core.List.{Perm}
use mathlib.Core.List.Perm
use alert2ir.Prelude.{
  ◌∙◌, ltb, ◌<◌, ◌≤◌, ℕ, zero, suc, List, [], ◌∷◌, ◌++◌, ◌≡◌, refl, ap, sym, ◌⊎◌, true, false,
  Bool-cases, inl, inr, arith, subst,
}
use alert2ir.Python.Result.{ok, raise_if, bind-ok, check-ok, ◌>>=◌}
use alert2ir.Python.DateTime.{DateTime, instant}
use alert2ir.Python.Dict.{values}
use alert2ir.Application.Record.{ProcessingRecord}
use alert2ir.Repository.Store.{Repository}
use alert2ir.Repository.Window.{length, length-find}
use alert2ir.Repository.Window.Resumable.{MayResume, AllOf, Split, collect-Split}
use alert2ir.Repository.Reconcilable.{
  find_reconcilable, take, collect_reconcilable, sort_records, insert_sorted, sorts_before,
}

-- updated before the other, or at the same time and with an ID that is not greater
abbrev pub IsOlder : ProcessingRecord → ProcessingRecord → Type 0
IsOlder a b =
    (instant a.updated_at < instant b.updated_at)
    ⊎ ((instant a.updated_at ≡ instant b.updated_at) × (a.processing_id ≤ b.processing_id))

-- each element is older than all that follow
abbrev pub IsSorted : List ProcessingRecord → Type 0
IsSorted [] = Unit {0}
IsSorted (x ∷ xs) = AllOf (IsOlder x) xs × IsSorted xs

-- each element of the first list is older than all of the second
abbrev pub AreOlder : List ProcessingRecord → List ProcessingRecord → Type 0
AreOlder [] ys = Unit {0}
AreOlder (x ∷ xs) ys = AllOf (IsOlder x) ys × AreOlder xs ys

sorts_before-IsOlder : (a b : ProcessingRecord) → sorts_before a b ≡ true → IsOlder a b
sorts_before-IsOlder a b h = ground (arith, h)

sorts_before-later : (a b : ProcessingRecord) → sorts_before a b ≡ false → IsOlder b a
sorts_before-later a b h = ground (arith, h)

IsOlder-trans : (a b c : ProcessingRecord) → IsOlder a b → IsOlder b c → IsOlder a c
IsOlder-trans a b c (inl h) (inl k) = inl (omega (arith, h, k))
IsOlder-trans a b c (inl h) (inr k) = inl (omega (arith, h, k.0))
IsOlder-trans a b c (inr h) (inl k) = inl (omega (arith, h.0, k))
IsOlder-trans a b c (inr h) (inr k) = inr (h.0 ∙ k.0, omega (arith, h.1, k.1))

IsOlder-AllOf :
    (a b : ProcessingRecord) (xs : List ProcessingRecord)
    → IsOlder a b
    → AllOf (IsOlder b) xs
    → AllOf (IsOlder a) xs
IsOlder-AllOf a b [] h hs = tt
IsOlder-AllOf a b (x ∷ xs) h hs = (IsOlder-trans a b x h hs.0, IsOlder-AllOf a b xs h hs.1)

insert_sorted-AllOf :
    (P : ProcessingRecord → Type 0) (r : ProcessingRecord) (xs : List ProcessingRecord)
    → P r
    → AllOf P xs
    → AllOf P (insert_sorted r xs)
unfolding insert_sorted
insert_sorted-AllOf P r [] h hs = (h, tt)
insert_sorted-AllOf P r (x ∷ xs) h hs = elim (Bool-cases (sorts_before r x)) [
  | inl e ↦ rw e (h, hs)
  | inr e ↦ rw e (hs.0, insert_sorted-AllOf P r xs h hs.1)
]

sort-AllOf :
    (P : ProcessingRecord → Type 0) (xs : List ProcessingRecord)
    → AllOf P xs
    → AllOf P (sort_records xs)
unfolding sort_records
sort-AllOf P [] hs = tt
sort-AllOf P (r ∷ rs) hs = insert_sorted-AllOf P r (sort_records rs) hs.0 (sort-AllOf P rs hs.1)

insert_sorted-IsSorted :
    (r : ProcessingRecord) (xs : List ProcessingRecord)
    → IsSorted xs
    → IsSorted (insert_sorted r xs)
unfolding insert_sorted
insert_sorted-IsSorted r [] h = (tt, tt)
insert_sorted-IsSorted r (x ∷ xs) h = elim (Bool-cases (sorts_before r x)) [
  | inl e ↦
      let older = sorts_before-IsOlder r x e in rw e ((older, IsOlder-AllOf r x xs older h.0), h)
  | inr e ↦ rw e (
    insert_sorted-AllOf (IsOlder x) r xs (sorts_before-later r x e) h.0,
    insert_sorted-IsSorted r xs h.1,
  )
]

sort-IsSorted : (xs : List ProcessingRecord) → IsSorted (sort_records xs)
unfolding sort_records
sort-IsSorted [] = tt
sort-IsSorted (r ∷ rs) = insert_sorted-IsSorted r (sort_records rs) (sort-IsSorted rs)

insert_sorted-perm :
    (r : ProcessingRecord) (xs : List ProcessingRecord) → Perm (insert_sorted r xs) (r ∷ xs)
unfolding insert_sorted
insert_sorted-perm r [] = Perm.rfl
insert_sorted-perm r (x ∷ xs) = elim (Bool-cases (sorts_before r x)) [
  | inl e ↦ rw e Perm.rfl
  | inr e ↦ rw e (Perm.trans (Perm.cons x (insert_sorted-perm r xs)) (Perm.swap r x xs))
]

sort-perm : (xs : List ProcessingRecord) → Perm (sort_records xs) xs
unfolding sort_records
sort-perm [] = Perm.rfl
sort-perm (r ∷ rs) =
    Perm.trans (insert_sorted-perm r (sort_records rs)) (Perm.cons r (sort-perm rs))

-- A sorted list cut after its first `n` elements.
record Cut (n : ℕ) (xs : List ProcessingRecord) : Type 0 where
  rest : List ProcessingRecord
  whole : take n xs ++ rest ≡ xs
  full : (length (take n xs) ≡ n) ⊎ (rest ≡ [])
  sorted : IsSorted (take n xs)
  older : AreOlder (take n xs) rest

append-AllOf :
    (P : ProcessingRecord → Type 0) (xs ys : List ProcessingRecord)
    → AllOf P (xs ++ ys)
    → AllOf P xs × AllOf P ys
append-AllOf P [] ys h = (tt, h)
append-AllOf P (x ∷ xs) ys h = let (left, right) = append-AllOf P xs ys h.1 in ((h.0, left), right)

cut : (n : ℕ) (xs : List ProcessingRecord) → IsSorted xs → Cut n xs
unfolding length
cut zero xs h = record { rest = xs; whole = refl; full = inl refl; sorted = tt; older = tt }
cut (suc n) [] h = record { rest = []; whole = refl; full = inr refl; sorted = tt; older = tt }
cut (suc n) (x ∷ xs) h =
    let c = cut n xs h.1 in
    let (left, right) =
      append-AllOf (IsOlder x) (take n xs) c.rest (subst (AllOf (IsOlder x)) (sym c.whole) h.0) in
    record {
      rest = c.rest;
      whole = ap (◌∷◌ x) c.whole;
      full = elim c.full [ inl e ↦ inl (ap suc e) | inr e ↦ inr e ];
      sorted = (left, c.sorted);
      older = (right, c.older);
    }

-- The oldest `limit` records of the stored work that may be resumed. The stored records are, in some
-- order, those of the answer, further ones that may be resumed and those that may not.
pub record Window (limit : ℕ) (before : DateTime) (s : Repository) (rs : List ProcessingRecord)
    : Type 0 where
  pub rest : List ProcessingRecord
  pub others : List ProcessingRecord
  pub stored : Perm ((rs ++ rest) ++ others) (values s.records)
  pub resumable : AllOf (MayResume s before) rs
  pub resumable_rest : AllOf (MayResume s before) rest
  pub refused : AllOf (λ r. ¬ MayResume s before r) others
  pub few : length rs ≤ limit
  pub full : (length rs ≡ limit) ⊎ (rest ≡ [])
  pub sorted : IsSorted rs
  pub oldest : AreOlder rs rest

module _ (limit : ℕ) (before : DateTime) (s : Repository) where
  sorted-Window :
      (found : List ProcessingRecord)
      → Split s before (values s.records) found
      → length (take limit (sort_records found)) ≤ limit
      → Window limit before s (take limit (sort_records found))
  sorted-Window found p few =
      let c = cut limit (sort_records found) (sort-IsSorted found) in
      let (left, right) =
        append-AllOf (MayResume s before) (take limit (sort_records found)) c.rest (
          subst (AllOf (MayResume s before)) (sym c.whole)
            (sort-AllOf (MayResume s before) found p.resumable)) in
      record {
        rest = c.rest;
        others = p.others;
        stored =
            Perm.trans
              (Perm.append_right p.others
                (subst (λ ys. Perm ys found) (sym c.whole) (sort-perm found)))
              p.same;
        resumable = left;
        resumable_rest = right;
        refused = p.refused;
        few = few;
        full = c.full;
        sorted = c.sorted;
        oldest = c.older;
      }

  -- An answer of `find_reconcilable` is the oldest of the stored work that a pass may resume, the
  -- oldest first. Work may be resumed if it is accepted, planned or submitted, or if it is submitting
  -- with an attempt that started at the time given or earlier. The stored records are, each as often
  -- as it is stored, those of the answer, further ones that may be resumed, and others that may not;
  -- there are further ones only if the answer has `limit` records, and it never has more. Each record
  -- of the answer is older than those after it and than the further ones, by the time of update and
  -- by the ID where the times agree.
  pub find_reconcilable-Window :
      (rs : List ProcessingRecord)
      → find_reconcilable limit before s ≡ ok rs
      → Window limit before s rs
  unfolding find_reconcilable
  find_reconcilable-Window rs h =
      let h1 =
        check-ok (raise_if (ltb limit 1) "reconciliation limit must be positive")
          (collect_reconcilable s before (values s.records) >>= λ found.
            ok (take limit (sort_records found)))
          rs h in
      let (found, collected, h2) =
        bind-ok (collect_reconcilable s before (values s.records))
          (λ found. ok (take limit (sort_records found))) rs h1 in
      let same : take limit (sort_records found) ≡ rs = cc in
      subst (Window limit before s) same (
        sorted-Window found (collect-Split s before (values s.records) found collected)
          (subst (λ x. length x ≤ limit) (sym same) (length-find limit before s rs h)))
