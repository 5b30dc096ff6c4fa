-- ===== src/Billing/Invoices/Numbers.antt =====
-- The numbers of invoices: which one comes next, and the unique constraints of the table.
use opencloud_backend.Base.{
  ℕ, ◌+◌, ◌≤◌, ◌≡◌, refl, sym, ◌∙◌, ap, false, ◌&&◌, some, List, [], ◌∷◌, ◌++◌, All, All-append,
  arith, Bool-cases, Option-cases, inl, inr, none≢some, some_injective, ◌==◌,
}
use opencloud_backend.Billing.Model.{Invoice}
use opencloud_backend.Billing.Invoices.{last_seq, next_number, clashes, create, commit_others}

-- No two rows share a number, or an account with a period.
abbrev pub IsUnique : List Invoice → Type 0
IsUnique [] = Unit
IsUnique (i ∷ invoices) = All (λ j. clashes j i ≡ false) invoices × IsUnique invoices

-- `number_seq` is the sequence that the number shows.
abbrev pub IsNumbered : List Invoice → Type 0
IsNumbered invoices = All (λ (i : Invoice). i.number_seq ≡ i.number.seq) invoices

-- A row that the table does not refuse is added at the end.
pub create_lem :
    (i : Invoice) (invoices : List Invoice)
    → All (λ j. clashes i j ≡ false) invoices
    → create i invoices ≡ some (invoices ++ i ∷ [])
unfolding create
create_lem i [] h = refl
create_lem i (j ∷ invoices) h = rw (h.0, create_lem i invoices h.1)

-- A row that was added clashes with none that was there.
pub create-some :
    (i : Invoice) (invoices : List Invoice) {grown : List Invoice}
    → create i invoices ≡ some grown
    → (grown ≡ invoices ++ i ∷ []) × All (λ j. clashes i j ≡ false) invoices
unfolding create
create-some i [] h = ground arith
create-some i (j ∷ invoices) h = elim (Bool-cases (clashes i j)) [
  | inl e ↦ absurd (none≢some (rw e at h))
  | inr e ↦ elim (Option-cases (create i invoices)) [
    | inl n ↦ absurd (none≢some (rw (e, n) at h))
    | inr (rest, m) ↦
        let (same, free) = create-some i invoices m in
        (sym (some_injective (rw (e, m) at h)) ∙ ap (◌∷◌ j) same, (e, free))
  ]
]

IsUnique-append :
    (i : Invoice) (invoices : List Invoice)
    → IsUnique invoices
    → All (λ j. clashes i j ≡ false) invoices
    → IsUnique (invoices ++ i ∷ [])
IsUnique-append i [] u h = (tt, tt)
IsUnique-append i (j ∷ invoices) u h = (
  All-append (λ k. clashes k j ≡ false) invoices (i ∷ []) u.0 (h.0, tt),
  IsUnique-append i invoices u.1 h.1,
)

pub create-IsUnique :
    (i : Invoice) (invoices : List Invoice) {grown : List Invoice}
    → create i invoices ≡ some grown
    → IsUnique invoices
    → IsUnique grown
create-IsUnique i invoices h u =
    let (e, free) = create-some i invoices h in rw e (IsUnique-append i invoices u free)

-- What other transactions commit keeps the constraints too.
pub commit_others-IsUnique :
    (others invoices : List Invoice) → IsUnique invoices → IsUnique (commit_others others invoices)
unfolding commit_others
commit_others-IsUnique [] invoices u = u
commit_others-IsUnique (i ∷ others) invoices u = elim (Option-cases (create i invoices)) [
  | inl e ↦ rw e (commit_others-IsUnique others invoices u)
  | inr (grown, e) ↦ rw e (commit_others-IsUnique others grown (create-IsUnique i invoices e u))
]

-- `last_seq` is no less than any sequence number of the year.
pub last_seq-bound :
    (y n : ℕ) (invoices : List Invoice)
    → last_seq y invoices ≤ n
    → All (λ (i : Invoice). i.number.year ≡ y → i.number_seq ≤ n) invoices
unfolding last_seq
last_seq-bound y n [] h = tt
last_seq-bound y n (i ∷ invoices) h =
    ((λ e. ground arith), last_seq-bound y n invoices (ground arith))

fresh_of_bound :
    (y n : ℕ) (invoices : List Invoice)
    → All (λ (i : Invoice). i.number.year ≡ y → i.number_seq ≤ n) invoices
    → IsNumbered invoices
    → All (λ (i : Invoice). (y == i.number.year && n + 1 == i.number.seq) ≡ false) invoices
fresh_of_bound y n [] b h = tt
fresh_of_bound y n (i ∷ invoices) b h = (ground (arith, b.0), fresh_of_bound y n invoices b.1 h.1)

-- Where every row of the table carries the sequence of its number, the next number of a year
-- stands on no row.
pub next_number_fresh :
    (y : ℕ) (invoices : List Invoice)
    → IsNumbered invoices
    → let number = (next_number y invoices).1 in
      All
        (λ (i : Invoice). (number.year == i.number.year && number.seq == i.number.seq) ≡ false)
        invoices
unfolding next_number
next_number_fresh y invoices h =
    fresh_of_bound y (last_seq y invoices) invoices
      (last_seq-bound y (last_seq y invoices) invoices (omega arith)) h

-- A property of every row, old and committed by others, holds of the table.
pub commit_others-All {ℓ} :
    (P : Invoice → Type ℓ) (others invoices : List Invoice)
    → All P others
    → All P invoices
    → All P (commit_others others invoices)
unfolding commit_others
commit_others-All P [] invoices o n = n
commit_others-All P (i ∷ others) invoices o n = elim (Option-cases (create i invoices)) [
  | inl e ↦ rw e (commit_others-All P others invoices o.1 n)
  | inr (grown, e) ↦
      let (same, free) = create-some i invoices e in
      rw e (
        commit_others-All P others grown o.1 (rw same (All-append P invoices (i ∷ []) n (o.0, tt))))
]
