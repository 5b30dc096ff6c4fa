-- ===== src/Billing/Invoices/Issue.antt =====
-- Issuing an invoice: one document for an account and a month, under a number of its own, also while
-- other transactions issue theirs.
use opencloud_backend.Base.{
  ℕ, zero, suc, ◌+◌, ◌≡◌, refl, sym, ap, Bool, true, false, ◌&&◌, Option, none, some, List, [], ◌∷◌,
  ◌++◌, All, arith, text_eq, text_eq_iff, text_eq_refl, iexact, lower, first_by, Option-cases,
  Bool-cases, inl, inr, none≢some, ◌==◌,
}
use opencloud_backend.Billing.Model.{Invoice, InvoiceNumber}
use opencloud_backend.Billing.Documents.{Settings, Database, Document, draft, serialize}
use opencloud_backend.Billing.Invoices.{
  Request, Interference, issued, invoice_of, next_number, last_seq, clashes, create, commit_others,
  allocate, issue,
}
use opencloud_backend.Billing.Invoices.Numbers.{
  IsNumbered, create_lem, commit_others-All, next_number_fresh,
}

-- Nobody else commits anything.
abbrev pub quiet : ℕ → Interference
quiet k = record { before = []; between = [] }

-- An issued invoice of the request's account and month, as `issue` looks for it.
abbrev pub answers : Request → Invoice → Bool
answers r i = iexact i.account r.account && text_eq i.period r.period

-- Rows that are neither of the year's next number nor of the account and period do not clash.
no_clash :
    (r : Request) (d : Document) (n : ℕ × InvoiceNumber) (invoices : List Invoice)
    → All (λ (i : Invoice). (n.1.year == i.number.year && n.1.seq == i.number.seq) ≡ false) invoices
    → All
        (λ (i : Invoice). (text_eq r.account i.account && text_eq r.period i.period) ≡ false)
        invoices
    → All (λ j. clashes (invoice_of r d n) j ≡ false) invoices
unfolding clashes invoice_of
no_clash r d n [] h f = tt
no_clash r d n (i ∷ invoices) h f = (rw (h.0, f.0), no_clash r d n invoices h.1 f.1)

-- The row of the request is not there, by the test of the unique constraint.
abbrev pub IsFree : Request → Invoice → Type 0
IsFree r i = (text_eq r.account i.account && text_eq r.period i.period) ≡ false

commit_others-nil : (invoices : List Invoice) → commit_others [] invoices ≡ invoices
unfolding commit_others
commit_others-nil invoices = refl

abbrev NumberShown : Invoice → Type 0
NumberShown i = i.number_seq ≡ i.number.seq

-- An attempt between whose two steps nobody commits finds its number.
allocate_undisturbed :
    (n : ℕ) (r : Request) (d : Document) (others : ℕ → Interference) (invoices : List Invoice)
    → (others n).between ≡ []
    → IsNumbered (commit_others (others n).before invoices)
    → All (IsFree r) (commit_others (others n).before invoices)
    → let seen = commit_others (others n).before invoices in
      let row = invoice_of r d (next_number r.year seen) in
      allocate (suc n) others r d invoices ≡ (some row, seen ++ row ∷ [])
unfolding allocate
allocate_undisturbed n r d others invoices alone numbered free =
    let seen = commit_others (others n).before invoices in
    let number = next_number r.year seen in
    let fresh = no_clash r d number seen (next_number_fresh r.year seen numbered) free in
    let added = create_lem (invoice_of r d number) seen fresh in
    rw (alone, allocate) (rw (commit_others-nil seen, allocate) (rw (added, allocate)))

-- The rows that others commit in the attempts carry their own numbers, and none of them is the
-- account's for the month.
abbrev pub AreElsewhere : Request → (ℕ → Interference) → Type 0
AreElsewhere r others =
    (k : ℕ)
    → IsNumbered (others k).before
      × IsNumbered (others k).between
      × All (IsFree r) (others k).before
      × All (IsFree r) (others k).between

allocate_found :
    (n : ℕ) (r : Request) (d : Document) (others : ℕ → Interference) (invoices : List Invoice)
    → AreElsewhere r others
    → (others 0).between ≡ []
    → IsNumbered invoices
    → All (IsFree r) invoices
    → (row : Invoice) × ((allocate (suc n) others r d invoices).0 ≡ some row)
unfolding allocate
allocate_found zero r d others invoices away alone numbered free =
    let before = (others 0).before in
    (
      invoice_of r d (next_number r.year (commit_others before invoices)),
      ap (λ (p : Option Invoice × List Invoice). p.0)
          (allocate_undisturbed 0 r d others invoices alone
            (commit_others-All NumberShown before invoices (away 0).0 numbered)
            (commit_others-All (IsFree r) before invoices (away 0).2 free)),
    )
allocate_found (suc n) r d others invoices away alone numbered free =
    let here = others (suc n) in
    let seen = commit_others here.before invoices in
    let table = commit_others here.between seen in
    let row = invoice_of r d (next_number r.year seen) in
    elim (Option-cases (create row table)) [
      | inl e ↦
          rw (e, allocate)
            (allocate_found n r d others table away alone
              (commit_others-All NumberShown here.between seen (away (suc n)).1
                (commit_others-All NumberShown here.before invoices (away (suc n)).0 numbered))
              (commit_others-All (IsFree r) here.between seen (away (suc n)).3
                (commit_others-All (IsFree r) here.before invoices (away (suc n)).2 free)))
      | inr (grown, e) ↦ (row, rw (e, allocate))
    ]

not_answered : (r : Request) (i : Invoice) → answers r i ≡ false → IsFree r i
unfolding iexact
not_answered r i h = ground (
  arith,
  text_eq_iff r.account i.account,
  text_eq_iff r.period i.period,
  text_eq_iff i.period r.period,
  text_eq_iff (lower i.account) (lower r.account),
)

-- `issue` looks by `iexact`, the constraint compares exactly: what the one does not find is free.
first_by-IsFree :
    (r : Request) (invoices : List Invoice)
    → first_by (answers r) invoices ≡ none
    → All (IsFree r) invoices
first_by-IsFree r [] h = tt
first_by-IsFree r (i ∷ invoices) h = elim (Bool-cases (answers r i)) [
  | inl e ↦ absurd (none≢some (sym (rw e at h)))
  | inr e ↦ (not_answered r i e, first_by-IsFree r invoices (rw e at h))
]

-- With nobody else at work, and every row of the table carrying the sequence of its number, an
-- account without an invoice for the month gets one, under the number after the last of the year,
-- added to the table; it carries the figures of the draft.
pub issue-quiet :
    (settings : Settings) (db : Database) (r : Request)
    → IsNumbered db.invoices
    → first_by (answers r) db.invoices ≡ none
    → let d = draft settings db r.account r.domain_id r.first r.last r.period in
      let row = invoice_of r d (next_number r.year db.invoices) in
      (issue settings db quiet r ≡ (issued (serialize settings row), db.invoices ++ row ∷ []))
      × (row.number.seq ≡ last_seq r.year db.invoices + 1)
      × (row.subtotal ≡ d.subtotal)
      × (row.vat_amount ≡ d.vat_amount)
      × (row.total ≡ d.total)
unfolding issue commit_others invoice_of next_number
issue-quiet settings db r numbered h =
    let d = draft settings db r.account r.domain_id r.first r.last r.period in
    let made =
      allocate_undisturbed 4 r d quiet db.invoices refl numbered
        (first_by-IsFree r db.invoices h) in
    (rw (h, issue) (rw (made, issue)), refl, refl, refl, refl)

first_by-append_one :
    (keep : Invoice → Bool) (invoices : List Invoice) (row : Invoice)
    → first_by keep invoices ≡ none
    → keep row ≡ true
    → first_by keep (invoices ++ row ∷ []) ≡ some row
first_by-append_one keep [] row h k = rw k
first_by-append_one keep (i ∷ invoices) row h k = elim (Bool-cases (keep i)) [
  | inl e ↦ absurd (none≢some (sym (rw e at h)))
  | inr e ↦ rw e (first_by-append_one keep invoices row (rw e at h) k)
]

pub answers-invoice_of :
    (r : Request) (d : Document) (n : ℕ × InvoiceNumber) → answers r (invoice_of r d n) ≡ true
unfolding invoice_of iexact
answers-invoice_of r d n = rw (text_eq_refl (lower r.account), text_eq_refl r.period)

issue_existing :
    (settings : Settings) (db : Database) (others : ℕ → Interference) (r : Request) (i : Invoice)
    → first_by (answers r) db.invoices ≡ some i
    → issue settings db others r ≡ (issued (serialize settings i), db.invoices)
unfolding issue
issue_existing settings db others r i h = rw (h, issue)

-- Where every row of the table carries the sequence of its number, and the first document was
-- issued with nobody else at work: issuing again for the same account and period, under the same
-- settings and with the table as it was left, gives the document that was issued and changes
-- nothing, whatever became of the prices, the measurements and the buyer since, and whatever
-- others commit meanwhile.
pub issue_again :
    (settings : Settings) (db db' : Database) (others : ℕ → Interference) (r r' : Request)
    → IsNumbered db.invoices
    → db'.invoices ≡ (issue settings db quiet r).1
    → r'.account ≡ r.account
    → r'.period ≡ r.period
    → issue settings db' others r' ≡ ((issue settings db quiet r).0, db'.invoices)
issue_again settings db db' others r r' numbered same account period =
    elim (Option-cases (first_by (answers r) db.invoices)) [
      | inl e ↦
          let row =
            invoice_of r (draft settings db r.account r.domain_id r.first r.last r.period)
              (next_number r.year db.invoices) in
          let made = (issue-quiet settings db r numbered e).0 in
          let found : first_by (answers r') db'.invoices ≡ some row =
            rw (account, period, same, made)
              (first_by-append_one (answers r) db.invoices row e (answers-invoice_of r _ _)) in
          rw made (issue_existing settings db' others r' row found)
      | inr (i, e) ↦
          let made = issue_existing settings db quiet r i e in
          let found : first_by (answers r') db'.invoices ≡ some i =
            rw (account, period, same, made) e in
          rw made (issue_existing settings db' others r' i found)
    ]

-- Clashes of numbers alone do not make issuing fail: where every row, of the table and of those
-- that others commit, carries the sequence of its number, as long as nobody commits between the
-- two steps of the last of the five attempts, and nobody else issues for the account and the
-- month, a document is issued.
pub issue_found :
    (settings : Settings) (db : Database) (others : ℕ → Interference) (r : Request)
    → AreElsewhere r others
    → (others 0).between ≡ []
    → IsNumbered db.invoices
    → (d : Document) × ((issue settings db others r).0 ≡ issued d)
unfolding issue
issue_found settings db others r away alone numbered =
    elim (Option-cases (first_by (answers r) db.invoices)) [
      | inl e ↦
          let d = draft settings db r.account r.domain_id r.first r.last r.period in
          let (row, made) =
            allocate_found 4 r d others db.invoices away alone numbered
              (first_by-IsFree r db.invoices e) in
          (serialize settings row, rw (e, issue) (rw (made, issue)))
      | inr (i, e) ↦ (serialize settings i, rw (e, issue))
    ]
