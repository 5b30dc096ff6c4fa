-- ===== src/Accounts/Backups.antt =====
-- apps/accounts/backups.py and the settings row of apps/accounts/models.py.
use opencloud_backend.Base.{
  Bool, true, ◌&&◌, ◌||◌, not, List, [], ◌∷◌, map, Text, nonempty, member_text, filter_by, ◌≡◌,
  refl, arith, text_eq, text_eq_iff, text_eq_refl, any_by, Bool-cases, inl, inr,
}

-- AccountSettings: a row per account that an operator has changed something of.
pub record AccountSettings : Type 0 where
  pub domain_id : Text
  pub account : Text
  pub count_backup_snapshots : Bool

-- The part of a snapshot, of a volume or of a machine, that `is_backup` reads. A missing or null
-- value is the empty text: both are falsy.
pub record SnapshotMark : Type 0 where
  pub protection_group_id : Text
  pub protection_group : Text

unfoldable pub is_backup : SnapshotMark → Bool
is_backup s = nonempty s.protection_group_id || nonempty s.protection_group

-- The ids for which a row says that backups are not counted; a set, so membership is all there is.
unfoldable pub uncounted : List AccountSettings → List Text → List Text
uncounted table domain_ids =
    let wanted : List Text = filter_by nonempty domain_ids in
    map (λ (row : AccountSettings). row.domain_id)
      (filter_by (λ row. member_text row.domain_id wanted && not row.count_backup_snapshots) table)

unfoldable pub counts_backups : List AccountSettings → Text → Bool
counts_backups table domain_id = not (member_text domain_id (uncounted table (domain_id ∷ [])))

-- The rows that say no for one account.
abbrev refuses : Text → AccountSettings → Bool
refuses domain_id row = text_eq domain_id row.domain_id && not row.count_backup_snapshots

member_text-uncounted :
    (domain_id : Text) (table : List AccountSettings) (wanted : List Text)
    → member_text domain_id (
        map
          (λ (row : AccountSettings). row.domain_id)
          (filter_by
            (λ row. member_text row.domain_id wanted && not row.count_backup_snapshots)
            table))
      ≡ (member_text domain_id wanted && any_by (refuses domain_id) table)
unfolding member_text
member_text-uncounted domain_id [] wanted = ground arith
member_text-uncounted domain_id (row ∷ table) wanted =
    elim (Bool-cases (text_eq domain_id row.domain_id)) [
      | inl e ↦
          let same : domain_id ≡ row.domain_id = (text_eq_iff domain_id row.domain_id).0 e in
          ground
            (arith, e, same, member_text-uncounted domain_id table wanted, text_eq_refl domain_id)
      | inr e ↦ ground (arith, e, member_text-uncounted domain_id table wanted)
    ]

member_text-filter_by :
    (domain_id : Text) (ids : List Text)
    → nonempty domain_id ≡ true
    → member_text domain_id (filter_by nonempty ids) ≡ member_text domain_id ids
unfolding member_text
member_text-filter_by domain_id [] h = refl
member_text-filter_by domain_id (s ∷ ids) h = elim (Bool-cases (text_eq domain_id s)) [
  | inl e ↦
      let same : domain_id ≡ s = (text_eq_iff domain_id s).0 e in
      ground (arith, e, h, same, member_text-filter_by domain_id ids h, text_eq_refl domain_id)
  | inr e ↦ ground (arith, e, member_text-filter_by domain_id ids h)
]

-- The batch query answers as the single one does: an account with an id that is among those asked
-- about is left out exactly where the account asked about alone is not counted with its backups.
uncounted_batch :
    (table : List AccountSettings) (domain_ids : List Text) (domain_id : Text)
    → nonempty domain_id ≡ true
    → member_text domain_id domain_ids ≡ true
    → member_text domain_id (uncounted table domain_ids) ≡ not (counts_backups table domain_id)
unfolding uncounted counts_backups member_text
uncounted_batch table domain_ids domain_id h m =
    let single : List Text = domain_id ∷ [] in
    let m' : member_text domain_id single ≡ true =
      ground (arith, member_text, text_eq_refl domain_id) in
    let batch = member_text-uncounted domain_id table (filter_by nonempty domain_ids) in
    let alone = member_text-uncounted domain_id table (filter_by nonempty single) in
    ground (
      arith,
      batch,
      alone,
      member_text-filter_by domain_id domain_ids h,
      member_text-filter_by domain_id single h,
      m,
      m',
    )
