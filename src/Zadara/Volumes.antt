-- ===== src/Zadara/Volumes.antt =====
-- apps/integrations/zadara/resources.py: the types of volumes, the medium of each, the volumes and the
-- disks of a machine.
pub mod Disks
use opencloud_backend.Base.{
  ℕ, ◌+◌, ◌*◌, ◌≡◌, Bool, true, false, ◌&&◌, ◌||◌, not, Option, none, some, List, [], ◌∷◌, ◌++◌,
  map, length, sum_by, Text, txt, text_eq, lower, contains_text, member_text, any_by, filter_by,
  nonempty, is_some, or_default, ltb, ◌==◌, if◌then◌else◌,
}
use opencloud_backend.Base.Dict.{Dict, lookup, insert, adjust}
use opencloud_backend.Base.Json.{
  Json, null, arr, obj, get, truthy, text_of, text_or_none, int_of, is_dict, dicts, list_of,
  or_word,
}
use opencloud_backend.Zadara.Http.{Sent}
use opencloud_backend.Zadara.Cache.{Result, ok, failed, authed_get, Cache, cached_get}
use opencloud_backend.Platform.Snapshot.{MediaTotal, sort, media_before}

-- `_items`
unfoldable pub items : Option Json → Text → List Json
items none key = []
items (some (arr xs)) key = list_of (arr xs)
items (some body) key = list_of (get key body)

abbrev pub ssd_hints : List Text
ssd_hints =
    txt "ssd" ∷ txt "flash" ∷ txt "nvme" ∷ txt "general purpose" ∷ txt "general-purpose" ∷ []

abbrev pub hdd_hints : List Text
hdd_hints = txt "hdd" ∷ txt "hard drive" ∷ txt "hard-drive" ∷ txt "spinning" ∷ txt "sata" ∷ []

-- `_media_from_text`
unfoldable pub media_from_text : Text → Text
media_from_text t =
    let ssd = any_by (λ hint. contains_text hint (lower t)) ssd_hints in
    let hdd = any_by (λ hint. contains_text hint (lower t)) hdd_hints in
    if ssd && not hdd then txt "SSD" else (if hdd && not ssd then txt "HDD" else [])

pub record VolumeType : Type 0 where
  pub id : Text
  pub name : Text
  pub description : Text
  pub alias : Text
  pub storage_class_id : Text
  pub available : Bool
  pub media : Text

unfoldable pub read_type : Json → VolumeType
read_type entry =
    let name = text_of (get (txt "name") entry) in
    let description = text_of (get (txt "description") entry) in
    record {
      id = text_of (get (txt "id") entry);
      name = name;
      description = description;
      alias = text_of (get (txt "alias") entry);
      storage_class_id = text_of (get (txt "storage_class_id") entry);
      available = truthy (get (txt "is_available") entry);
      media = media_from_text (name ++ txt " " ++ description);
    }

-- The first loop: the types by their ids.
unfoldable pub read_types : List Json → Dict VolumeType → Dict VolumeType
read_types [] types = types
read_types (entry ∷ raw) types =
    let kept = is_dict entry && truthy (get (txt "id") entry) in
    read_types raw (if kept then insert (read_type entry).id (read_type entry) types else types)

-- `set.add`
abbrev pub add_text : Text → List Text → List Text
add_text t ts = if member_text t ts then ts else t ∷ ts

-- The media that a storage class is said to have: the set `by_class.get(class)`.
unfoldable pub class_media : Text → Dict VolumeType → List Text
class_media class [] = []
class_media class ((key, t) ∷ types) =
    let rest = class_media class types in
    if nonempty t.media && nonempty t.storage_class_id && text_eq t.storage_class_id class
    then add_text t.media rest
    else rest

-- `len(siblings) == 1`
abbrev pub only_one : List Text → Text
only_one [] = []
only_one (m ∷ []) = m
only_one (m ∷ n ∷ ms) = []

unfoldable pub inherit : Dict VolumeType → VolumeType → VolumeType
inherit types t =
    if nonempty t.media
    then t
    else record t { media = only_one (class_media t.storage_class_id types) }

-- `_classify_volume_types`
unfoldable pub classify_volume_types : List Json → Dict VolumeType
classify_volume_types raw =
    let types = read_types raw [] in map (λ (e : Text × VolumeType). (e.0, inherit types e.1)) types

abbrev pub volume_types_ttl : ℕ
volume_types_ttl = 15 * 60

-- The entry under `zadara:volume_types`, with its time.
unfoldable pub volume_type_index :
    ℕ
    → Sent
    → Option (Dict VolumeType × ℕ)
    → Result (Dict VolumeType) × Option (Dict VolumeType × ℕ)
volume_type_index now asked cached =
    let asks : Result (Dict VolumeType) × Option (Dict VolumeType × ℕ) = elim (authed_get asked) [
      | failed code ↦ (failed code, cached)
      | ok body ↦
          let types = classify_volume_types (elim body [ none ↦ [] | some raw ↦ list_of raw ]) in
          (ok types, some (types, now + volume_types_ttl))
    ] in
    elim cached [
      | none ↦ asks
      | some (types, expires) ↦ if ltb now expires then (ok types, some (types, expires)) else asks
    ]

-- `safe_volume_type_index`
abbrev pub or_no_types : Result (Dict VolumeType) → Dict VolumeType
or_no_types (ok types) = types
or_no_types (failed code) = []

pub record Volume : Type 0 where
  pub id : Text
  pub name : Text
  pub size_gib : ℕ
  pub state : Text
  pub health : Text
  pub attachment_status : Text
  pub attached_to_id : Option Text
  pub guest_device : Json
  pub access_mode : Json
  pub volume_type_id : Option Text
  pub volume_type : Text
  pub media : Text
  pub created_at : Json
  pub project_id : Option Text
  pub can_update : Bool
  pub can_delete : Bool

-- `_attached_instance`: the first host that names a machine.
unfoldable pub first_host : List Json → Option Text
first_host [] = none
first_host (host ∷ hosts) =
    let rest = first_host hosts in
    if is_dict host && truthy (get (txt "instance_id") host)
    then some (text_of (get (txt "instance_id") host))
    else rest

unfoldable pub attached_instance : Json → Option Text
attached_instance raw = first_host (list_of (get (txt "hosts") (get (txt "attachment") raw)))

unfoldable pub normalize_volume : Json → Volume
normalize_volume raw =
    let permissions = get (txt "permissions") raw in
    record {
      id = text_of (get (txt "id") raw);
      name = text_of (get (txt "name") raw);
      size_gib = int_of (get (txt "size_gib") raw);
      state = or_word (text_of (get (txt "state") raw)) (txt "unknown");
      health = or_word (text_of (get (txt "health") raw)) (txt "unknown");
      attachment_status = or_word (text_of (get (txt "attachment_status") raw)) (txt "available");
      attached_to_id = attached_instance raw;
      guest_device = get (txt "guest_device_name") raw;
      access_mode = get (txt "access_mode") raw;
      volume_type_id = text_or_none (get (txt "storage_pool") raw);
      volume_type = [];
      media = [];
      created_at = get (txt "created_at") raw;
      project_id = text_or_none (get (txt "project_id") raw);
      can_update = truthy (get (txt "update") permissions);
      can_delete = truthy (get (txt "delete") permissions);
    }

-- `label_volume_media`
unfoldable pub label_volume : Dict VolumeType → Volume → Volume
label_volume types v = elim (lookup (or_default v.volume_type_id []) types) [
  | none ↦ record v { volume_type = []; media = [] }
  | some t ↦ record v { volume_type = t.name; media = t.media }
]

-- `list_volumes`, of the body of the list
unfoldable pub read_volumes : Option Json → List Volume
read_volumes body = map normalize_volume (dicts (items body (txt "volumes")))

unfoldable pub list_volumes : Bool → Result (Option Json) → Dict VolumeType → Result (List Volume)
list_volumes label_media (failed code) types = failed code
list_volumes label_media (ok body) types =
    ok (if label_media then map (label_volume types) (read_volumes body) else read_volumes body)

-- `media_totals` of volumes
unfoldable pub tally_media : List Volume → Dict MediaTotal → Dict MediaTotal
tally_media [] buckets = buckets
tally_media (v ∷ volumes) buckets = tally_media volumes (
    adjust v.media (record { media = v.media; volumes = 0; total_gib = 0 })
      (λ (b : MediaTotal). record b {
        volumes = b.volumes + 1;
        total_gib = b.total_gib + v.size_gib;
      })
      buckets)

-- What `summarise_vm_disks` writes on a machine.
pub record DiskSummary : Type 0 where
  pub disk_gib : Option ℕ
  pub disk_volumes : ℕ
  pub disk_media : List MediaTotal

-- `grouped`: the volumes by the machine that they are attached to.
unfoldable pub hold : Option Text → Volume → Dict (List Volume) → Dict (List Volume)
hold none v grouped = grouped
hold (some id) v grouped =
    if nonempty id then adjust id [] (λ held. held ++ v ∷ []) grouped else grouped

unfoldable pub group_volumes : List Volume → Dict (List Volume) → Dict (List Volume)
group_volumes [] grouped = grouped
group_volumes (v ∷ volumes) grouped = group_volumes volumes (hold v.attached_to_id v grouped)

unfoldable pub disk_totals : List Volume → List MediaTotal
unfolding tally_media
disk_totals volumes =
    sort media_before (map (λ (e : Text × MediaTotal). e.1) (tally_media volumes []))

-- `summarise_vm_disks`, for one machine
unfoldable pub summarise_vm_disks : Option (List Volume) → Text → DiskSummary
summarise_vm_disks volumes vm_id =
    let attached : List Volume =
      or_default (lookup vm_id (group_volumes (or_default volumes []) [])) [] in
    record {
      disk_gib = elim volumes [
        | none ↦ none
        | some _ ↦ some (sum_by (λ (v : Volume). v.size_gib) attached)
      ];
      disk_volumes = length attached;
      disk_media = disk_totals attached;
    }
