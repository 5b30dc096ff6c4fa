-- ===== src/Billing/Invoices/Table.antt =====
-- What issuing leaves of the table: one invoice for a number, and for an account and a month, and every
-- row that was there.
use opencloud_backend.Base.{
  ℕ, zero, suc, ◌≡◌, refl, sym, ap, ◌∙◌, true, false, Option, none, some, List, [], ◌∷◌, ◌++◌, All,
  All-map, arith, text_eq_iff, first_by, Option-cases, Bool-cases, inl, inr, none≢some,
  some_injective,
}
use mathlib.Core.List.{append_assoc, append-nil}
use opencloud_backend.Billing.Model.{Invoice}
use opencloud_backend.Billing.Documents.{Settings, Database, Document, draft, serialize}
use opencloud_backend.Billing.Invoices.{
  Request, Interference, IssueResult, issued, integrity_error, invoice_of, next_number, clashes,
  create, commit_others, allocate, issue, attempts_max,
}
use opencloud_backend.Billing.Invoices.Numbers.{
  IsUnique, create-some, create-IsUnique, commit_others-IsUnique,
}
use opencloud_backend.Billing.Invoices.Issue.{answers, answers-invoice_of}

-- Two invoices with different numbers, and with different accounts or months.
abbrev pub AreApart : Invoice → Invoice → Type 0
AreApart i j =
    (¬ ((i.number.year ≡ j.number.year) × (i.number.seq ≡ j.number.seq)))
    × (¬ ((i.account ≡ j.account) × (i.period ≡ j.period)))

-- Any two rows are so.
abbrev pub HasOneEach : List Invoice → Type 0
HasOneEach [] = Unit
HasOneEach (i ∷ invoices) = All (λ j. AreApart j i) invoices × HasOneEach invoices

clashes_apart : (i j : Invoice) → clashes i j ≡ false → AreApart i j
unfolding clashes
clashes_apart i j h = (
  (λ e. ground (arith, h, e.0, e.1)),
  (λ e.
      ground
        (arith, h, (text_eq_iff i.account j.account).1 e.0, (text_eq_iff i.period j.period).1 e.1)),
)

apart_clashes : (i j : Invoice) → AreApart i j → clashes i j ≡ false
unfolding clashes
apart_clashes i j h =
    ground (arith, h.0, h.1, text_eq_iff i.account j.account, text_eq_iff i.period j.period)

IsUnique-HasOneEach : (invoices : List Invoice) → IsUnique invoices → HasOneEach invoices
IsUnique-HasOneEach [] u = tt
IsUnique-HasOneEach (i ∷ invoices) u =
    (All-map _ _ invoices (λ j. clashes_apart j i) u.0, IsUnique-HasOneEach invoices u.1)

HasOneEach-IsUnique : (invoices : List Invoice) → HasOneEach invoices → IsUnique invoices
HasOneEach-IsUnique [] u = tt
HasOneEach-IsUnique (i ∷ invoices) u =
    (All-map _ _ invoices (λ j. apart_clashes j i) u.0, HasOneEach-IsUnique invoices u.1)

-- The rows of the one table are the first of the other.
abbrev pub Extends : List Invoice → List Invoice → Type 0
Extends old table = (added : List Invoice) × (table ≡ old ++ added)

Extends-trans : (a b c : List Invoice) → Extends a b → Extends b c → Extends a c
Extends-trans a b c (more, e) (rest, f) =
    (more ++ rest, f ∙ ap (λ (t : List Invoice). t ++ rest) e ∙ append_assoc a more rest)

create-Extends :
    (i : Invoice) (invoices : List Invoice) {grown : List Invoice}
    → create i invoices ≡ some grown
    → Extends invoices grown
create-Extends i invoices e = (i ∷ [], (create-some i invoices e).0)

commit_others-Extends :
    (others invoices : List Invoice) → Extends invoices (commit_others others invoices)
unfolding commit_others
commit_others-Extends [] invoices = ([], sym (append-nil invoices))
commit_others-Extends (i ∷ others) invoices = elim (Option-cases (create i invoices)) [
  | inl e ↦ rw e (commit_others-Extends others invoices)
  | inr (grown, e) ↦ rw e (
      Extends-trans invoices grown _ (create-Extends i invoices e)
        (commit_others-Extends others grown))
]

-- A row of the table, for the account and the month of the request.
abbrev pub IsRow : Request → List Invoice → Invoice → Type 0
IsRow r table row =
    (before after : List Invoice) × (table ≡ before ++ row ∷ after) × (answers r row ≡ true)

-- A document that was answered is that of such a row.
abbrev pub IsShown : Settings → Request → List Invoice → IssueResult → Type 0
IsShown settings r table integrity_error = Unit
IsShown settings r table (issued d) =
    (row : Invoice) × IsRow r table row × (d ≡ serialize settings row)

abbrev IsMade : Request → List Invoice → Option Invoice → Type 0
IsMade r table none = Unit
IsMade r table (some row) = IsRow r table row

allocate-IsMade :
    (n : ℕ) (others : ℕ → Interference) (r : Request) (d : Document) (invoices : List Invoice)
    → IsUnique invoices
    → let (made, table) = allocate n others r d invoices in
      IsUnique table × Extends invoices table × IsMade r table made
unfolding allocate
allocate-IsMade zero others r d invoices u = (u, ([], sym (append-nil invoices)), tt)
allocate-IsMade (suc n) others r d invoices u =
    let seen = commit_others (others n).before invoices in
    let number = next_number r.year seen in
    let row = invoice_of r d number in
    let table = commit_others (others n).between seen in
    let unique : IsUnique table =
      commit_others-IsUnique (others n).between seen
        (commit_others-IsUnique (others n).before invoices u) in
    let grows : Extends invoices table =
      Extends-trans invoices seen table (commit_others-Extends (others n).before invoices)
        (commit_others-Extends (others n).between seen) in
    elim (Option-cases (create row table)) [
      | inl e ↦
          let (once, more, made) = allocate-IsMade n others r d table unique in
          rw (e, allocate) (once, Extends-trans invoices table _ grows more, made)
      | inr (grown, e) ↦
          rw (e, allocate)
            (
              create-IsUnique row table e unique,
              Extends-trans invoices table grown grows (create-Extends row table e),
              (table, [], (create-some row table e).0, answers-invoice_of r d number),
            )
    ]

first_by-IsRow :
    (r : Request) (invoices : List Invoice) {row : Invoice}
    → first_by (answers r) invoices ≡ some row
    → IsRow r invoices row
first_by-IsRow r [] h = absurd (none≢some h)
first_by-IsRow r (i ∷ invoices) h = elim (Bool-cases (answers r i)) [
  | inl e ↦ let same = some_injective (rw e at h) in rw (← same) ([], invoices, refl, e)
  | inr e ↦
      let (before, after, split, holds) = first_by-IsRow r invoices (rw e at h) in
      (i ∷ before, after, ap (◌∷◌ i) split, holds)
]

made-IsShown :
    (settings : Settings) (r : Request) (table : List Invoice) (made : Option Invoice)
    → IsMade r table made
    → IsShown settings r table
        (elim made [ some row ↦ issued (serialize settings row) | none ↦ integrity_error ])
made-IsShown settings r table none h = tt
made-IsShown settings r table (some row) h = (row, h, refl)

-- From a table in which no two invoices have the same number, or the same account and month, issuing
-- leaves such a table, whatever other transactions commit between the steps. Every row that was there
-- stays as it was, and a document that is answered is that of a row of the table for the account, in
-- whatever case, and the month.
pub issue-HasOneEach :
    (settings : Settings) (db : Database) (others : ℕ → Interference) (r : Request)
    → HasOneEach db.invoices
    → let (result, table) = issue settings db others r in
      HasOneEach table × Extends db.invoices table × IsShown settings r table result
unfolding issue
issue-HasOneEach settings db others r u = elim (Option-cases (first_by (answers r) db.invoices)) [
  | inl e ↦
      let d = draft settings db r.account r.domain_id r.first r.last r.period in
      let (once, more, made) =
        allocate-IsMade attempts_max others r d db.invoices (HasOneEach-IsUnique db.invoices u) in
      rw (e, issue)
        (
          IsUnique-HasOneEach _ once,
          more,
          made-IsShown settings r _ (allocate attempts_max others r d db.invoices).0 made,
        )
  | inr (existing, e) ↦
      rw (e, issue)
        (u, ([], sym (append-nil db.invoices)), (existing, first_by-IsRow r db.invoices e, refl))
]
