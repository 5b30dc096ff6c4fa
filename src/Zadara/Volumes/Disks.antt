-- ===== src/Zadara/Volumes/Disks.antt =====
-- The disks of a machine: the volumes that are attached to it, each on one machine only.
use opencloud_backend.Base.{
  ◌≡◌, refl, sym, ◌∙◌, Bool, false, ◌&&◌, Option, none, some, List, [], ◌∷◌, ◌++◌, length, sum_by,
  filter_by, arith, Text, text_eq, nonempty, or_default, if◌then◌else◌, Bool-cases, inl, inr,
}
use opencloud_backend.Base.Dict.{Dict, lookup, lookup-append}
use mathlib.Core.List.{append_assoc, append-nil}
use opencloud_backend.Zadara.Volumes.{Volume, hold, group_volumes, summarise_vm_disks, disk_totals}

abbrev pub names_machine : Text → Option Text → Bool
names_machine id none = false
names_machine id (some j) = nonempty j && text_eq j id

-- The volume names this machine.
abbrev pub is_attached_to : Text → Volume → Bool
is_attached_to id v = names_machine id v.attached_to_id

hold-lookup :
    (host : Option Text) (v : Volume) (grouped : Dict (List Volume)) (id : Text)
    → or_default (lookup id (hold host v grouped)) [] ≡ (
        if names_machine id host
        then or_default (lookup id grouped) [] ++ v ∷ []
        else or_default (lookup id grouped) [])
unfolding hold
hold-lookup none v grouped id = refl
hold-lookup (some j) v grouped id = ground (arith, lookup-append j id v grouped)

group_volumes-lookup :
    (volumes : List Volume) (grouped : Dict (List Volume)) (id : Text)
    → or_default (lookup id (group_volumes volumes grouped)) []
      ≡ or_default (lookup id grouped) [] ++ filter_by (is_attached_to id) volumes
unfolding group_volumes
group_volumes-lookup [] grouped id = sym (append-nil _)
group_volumes-lookup (v ∷ volumes) grouped id =
    group_volumes-lookup volumes (hold v.attached_to_id v grouped) id
    ∙ rw (hold-lookup v.attached_to_id v grouped id)
        (elim (Bool-cases (names_machine id v.attached_to_id)) [
          | inl e ↦ rw e (append_assoc (or_default (lookup id grouped) []) (v ∷ []) _)
          | inr e ↦ rw e refl
        ])

-- What a machine is shown to hold is the volumes of the list that name it: their number, their size in
-- all where the list could be read, and their media.
pub summarise_vm_disks_lem :
    (volumes : List Volume) (id : Text)
    → let attached = filter_by (is_attached_to id) volumes in
      let shown = summarise_vm_disks (some volumes) id in
      (shown.disk_gib ≡ some (sum_by (λ (v : Volume). v.size_gib) attached))
      × (shown.disk_volumes ≡ length attached)
      × (shown.disk_media ≡ disk_totals attached)
unfolding summarise_vm_disks lookup
summarise_vm_disks_lem volumes id = rw (group_volumes-lookup volumes [] id) (refl, refl, refl)
