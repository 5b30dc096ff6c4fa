-- ===== src/Platform/Snapshot/Conservation.antt =====
-- Nothing is lost between the lists of the cloud and the accounts: what no account has is what the rows
-- of unknown projects hold.
use opencloud_backend.Base.{
  ℕ, ◌+◌, ◌≡◌, refl, sym, ◌∙◌, true, Option, some, List, [], ◌∷◌, sum_by, arith, Text, text_eq,
  text_eq_refl, is_some, or_default, Bool-cases, Option-cases, inl, inr, none≢some, some_injective,
  if◌then◌else◌,
}
use opencloud_backend.Base.Dict.{Dict, lookup, insert, lookup-insert}
use opencloud_backend.Platform.Snapshot.{
  Source, vms, volumes, volume_snapshots, vm_snapshots, public_ips, vpcs, subnets, security_groups,
  sources, Row, Usage, blank_usage, fold,
}
use opencloud_backend.Platform.Snapshot.Build.{
  Project, Domain, Entry, blank_entry, blank_accounts, add_owned, owners, all_projects, change_at,
  account_of, take_row, Tally, fold_rows, fold_sources, rows_of, attribute,
}

-- The sum of a figure over the accounts.
abbrev pub sum_entries : (Usage → ℕ) → Dict Entry → ℕ
sum_entries f = sum_by (λ (e : Text × Entry). f e.1.usage)

lookup-change_at :
    (j k : Text) (change : Entry → Entry) (d : Dict Entry)
    → is_some (lookup j (change_at k change d)) ≡ is_some (lookup j d)
unfolding change_at lookup
lookup-change_at j k change [] = refl
lookup-change_at j k change ((i, e) ∷ d) = ground (arith, lookup-change_at j k change d)

sum_entries-change_at :
    (f : Usage → ℕ) (n : ℕ) (k : Text) (change : Entry → Entry) (d : Dict Entry)
    → ((e : Entry) → f (change e).usage ≡ f e.usage + n)
    → is_some (lookup k d) ≡ true
    → sum_entries f (change_at k change d) ≡ sum_entries f d + n
unfolding change_at lookup
sum_entries-change_at f n k change [] step h = ground arith
sum_entries-change_at f n k change ((i, e) ∷ d) step h = elim (Bool-cases (text_eq i k)) [
  | inl q ↦ rw (q, step e) (omega arith)
  | inr q ↦ rw (q, sum_entries-change_at f n k change d step (rw q at h)) (omega arith)
]

take_row_lem :
    (f : Usage → ℕ) (w : Source → Row → ℕ) (s : Source) (r : Row)
    → ((t : Source) (r' : Row) (u : Usage) → f (fold t r' u) ≡ f u + w t r')
    → (e : Entry) → f (take_row s r e).usage ≡ f e.usage + w s r
unfolding take_row
take_row_lem f w vms r step e = step vms r e.usage
take_row_lem f w volumes r step e = step volumes r e.usage
take_row_lem f w volume_snapshots r step e = step volume_snapshots r e.usage
take_row_lem f w vm_snapshots r step e = step vm_snapshots r e.usage
take_row_lem f w public_ips r step e = step public_ips r e.usage
take_row_lem f w vpcs r step e = step vpcs r e.usage
take_row_lem f w subnets r step e = step subnets r e.usage
take_row_lem f w security_groups r step e = step security_groups r e.usage

-- Every account of the directory has its entry.
abbrev HasAccounts : Dict Text → Dict Entry → Type 0
HasAccounts directory accounts =
    (p a : Text) → lookup p directory ≡ some a → is_some (lookup a accounts) ≡ true

-- What the rows of no known account add to a figure.
abbrev pub unowned : Dict Text → (Row → ℕ) → List Row → ℕ
unowned directory weight = sum_by (λ r. if is_some (account_of directory r) then 0 else weight r)

account_of-lookup :
    (directory : Dict Text) (r : Row) {a : Text}
    → account_of directory r ≡ some a
    → lookup r.project_id directory ≡ some a
unfolding account_of
account_of-lookup directory r h = ground arith

HasAccounts-change_at :
    (directory : Dict Text) (k : Text) (change : Entry → Entry) (d : Dict Entry)
    → HasAccounts directory d
    → HasAccounts directory (change_at k change d)
HasAccounts-change_at directory k change d h p a e = lookup-change_at a k change d ∙ h p a e

module _ (f : Usage → ℕ) (w : Source → Row → ℕ)
    (step : (t : Source) (r : Row) (u : Usage) → f (fold t r u) ≡ f u + w t r) where
  fold_rows-sum :
      (directory : Dict Text) (s : Source) (rows : List Row) (t : Tally) (n : ℕ)
      → HasAccounts directory t.accounts
      → let after = (fold_rows directory s rows t n).0 in
        (sum_entries f after.accounts + unowned directory (w s) rows
          ≡ sum_entries f t.accounts + sum_by (w s) rows)
        × HasAccounts directory after.accounts
  unfolding fold_rows
  fold_rows-sum directory s [] t n h = (refl, h)
  fold_rows-sum directory s (r ∷ rows) t n h = elim (Option-cases (account_of directory r)) [
    | inl e ↦
        let rest = fold_rows-sum directory s rows t (n + 1) h in
        (rw (e, fold_rows) (omega (arith, rest.0)), rw (e, fold_rows) rest.1)
    | inr (a, e) ↦
        let found = h r.project_id a (account_of-lookup directory r e) in
        let t' : Tally = record {
          accounts = change_at a (take_row s r) t.accounts;
          projects = change_at r.project_id (take_row s r) t.projects;
        } in
        let rest =
          fold_rows-sum directory s rows t' n
            (HasAccounts-change_at directory a (take_row s r) t.accounts h) in
        let one =
          sum_entries-change_at f (w s r) a (take_row s r) t.accounts (take_row_lem f w s r step)
            found in
        (rw (e, fold_rows) (omega (arith, rest.0, one)), rw (e, fold_rows) rest.1)
  ]

  fold_sources-sum :
      (lists : Source → Option (List Row)) (directory : Dict Text) (ss : List Source) (t : Tally)
      → HasAccounts directory t.accounts
      → sum_entries f (fold_sources lists directory ss t).0.accounts
          + sum_by (λ s. unowned directory (w s) (rows_of lists s)) ss
        ≡ sum_entries f t.accounts + sum_by (λ s. sum_by (w s) (rows_of lists s)) ss
  unfolding fold_sources
  fold_sources-sum lists directory [] t h = refl
  fold_sources-sum lists directory (s ∷ ss) t h = elim (Option-cases (lists s)) [
    | inl e ↦ rw (e, fold_sources) (omega (arith, fold_sources-sum lists directory ss t h))
    | inr (rows, e) ↦
        let one = fold_rows-sum directory s rows t 0 h in
        let rest = fold_sources-sum lists directory ss (fold_rows directory s rows t 0).0 one.1 in
        rw (e, fold_sources) (omega (arith, one.0, rest))
  ]

add_owned-HasAccounts :
    (domain_id : Text) (projects : List Project) (directory : Dict Text) (accounts : Dict Entry)
    → is_some (lookup domain_id accounts) ≡ true
    → HasAccounts directory accounts
    → HasAccounts (add_owned domain_id projects directory) accounts
unfolding add_owned
add_owned-HasAccounts domain_id [] directory accounts there h = h
add_owned-HasAccounts domain_id (q ∷ projects) directory accounts there h =
    add_owned-HasAccounts domain_id projects (insert q.id domain_id directory) accounts there
      (λ p a e. elim (Bool-cases (text_eq q.id p)) [
        | inl same ↦
            let same_account : domain_id ≡ a =
              some_injective (rw same at (sym (lookup-insert q.id p domain_id directory) ∙ e)) in
            rw (← same_account) there
        | inr other ↦ h p a (rw other at (sym (lookup-insert q.id p domain_id directory) ∙ e))
      ])

insert-HasAccounts :
    (k : Text) (directory : Dict Text) (accounts : Dict Entry)
    → HasAccounts directory accounts
    → HasAccounts directory (insert k blank_entry accounts)
insert-HasAccounts k directory accounts h p a e = elim (Bool-cases (text_eq k a)) [
  | inl q ↦ rw (lookup-insert k a blank_entry accounts, q) refl
  | inr q ↦ rw (lookup-insert k a blank_entry accounts, q) (h p a e)
]

-- A key with its entry stays one.
blank_accounts-keeps :
    (k : Text) (domains : List Domain) (accounts : Dict Entry)
    → is_some (lookup k accounts) ≡ true
    → is_some (lookup k (blank_accounts domains accounts)) ≡ true
unfolding blank_accounts
blank_accounts-keeps k [] accounts h = h
blank_accounts-keeps k (d ∷ domains) accounts h =
    blank_accounts-keeps k domains (insert d.id blank_entry accounts)
      (rw (lookup-insert d.id k blank_entry accounts) (ground (arith, h)))

owners-HasAccounts :
    (domains : List Domain) (directory : Dict Text) (accounts : Dict Entry)
    → HasAccounts directory accounts
    → HasAccounts (owners domains directory) (blank_accounts domains accounts)
unfolding owners blank_accounts
owners-HasAccounts [] directory accounts h = h
owners-HasAccounts (d ∷ domains) directory accounts h =
    owners-HasAccounts domains _ (insert d.id blank_entry accounts) (
      add_owned-HasAccounts d.id (or_default d.projects []) directory
        (insert d.id blank_entry accounts)
        (rw (lookup-insert d.id d.id blank_entry accounts, text_eq_refl d.id) refl)
        (insert-HasAccounts d.id directory accounts h))

-- Before a row is folded in, every figure is zero.
sum_entries-insert :
    (f : Usage → ℕ) (k : Text) (d : Dict Entry)
    → f blank_usage ≡ 0
    → sum_entries f d ≡ 0
    → sum_entries f (insert k blank_entry d) ≡ 0
unfolding insert
sum_entries-insert f k [] z h = omega (arith, z)
sum_entries-insert f k ((j, e) ∷ d) z h = elim (Bool-cases (text_eq j k)) [
  | inl q ↦ rw q (omega (arith, z, h))
  | inr q ↦ rw q (omega (arith, h, sum_entries-insert f k d z (omega (arith, h))))
]

sum_entries-blank :
    (f : Usage → ℕ) (domains : List Domain) (d : Dict Entry)
    → f blank_usage ≡ 0
    → sum_entries f d ≡ 0
    → sum_entries f (blank_accounts domains d) ≡ 0
unfolding blank_accounts
sum_entries-blank f [] d z h = h
sum_entries-blank f (x ∷ domains) d z h =
    sum_entries-blank f domains (insert x.id blank_entry d) z (sum_entries-insert f x.id d z h)

no_accounts : HasAccounts [] []
unfolding lookup
no_accounts p a e = absurd (none≢some e)

pub attribute-sum :
    (f : Usage → ℕ) (w : Source → Row → ℕ) (domains : List Domain)
    (lists : Source → Option (List Row))
    → ((t : Source) (r : Row) (u : Usage) → f (fold t r u) ≡ f u + w t r)
    → f blank_usage ≡ 0
    → sum_entries f (attribute domains lists).0.accounts
        + sum_by (λ s. unowned (owners domains []) (w s) (rows_of lists s)) sources
      ≡ sum_by (λ s. sum_by (w s) (rows_of lists s)) sources
unfolding attribute
attribute-sum f w domains lists step z =
    let t : Tally = record {
      accounts = blank_accounts domains [];
      projects = all_projects domains [];
    } in
    omega (
      arith,
      fold_sources-sum f w step lists (owners domains []) sources t
          (owners-HasAccounts domains [] [] no_accounts),
      sum_entries-blank f domains [] z refl,
    )
