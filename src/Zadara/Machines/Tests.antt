-- ===== src/Zadara/Machines/Tests.antt =====
-- The theorems on the machines at concrete lists.
use opencloud_backend.Base.{
  ◌≡◌, refl, true, none, some, List, [], ◌∷◌, Text, txt, text_eq, length, sum_by, filter_by,
}
use opencloud_backend.Base.Json.{Json, str, null, dict, text_of, get, get_field}
use opencloud_backend.Zadara.Cache.{ok}
use opencloud_backend.Zadara.Volumes.{Volume, summarise_vm_disks, disk_totals}
use opencloud_backend.Zadara.Volumes.Disks.{is_attached_to, summarise_vm_disks_lem}
use opencloud_backend.Zadara.Machines.{ElasticIp, list_vm, details, safe_elastic_ips, normalize_vm}
use opencloud_backend.Zadara.Machines.Addresses.{list_vm-details}

abbrev machine : Json
machine = dict ((txt "id", str (txt "m1")) ∷ (txt "name", str (txt "web")) ∷ [])

abbrev address : Text → Text → ElasticIp
address instance ip = record {
  id = [];
  public_ip = str ip;
  public_dns_name = none;
  private_ip = null;
  instance_id = some instance;
  network_interface_id = null;
  project_id = none;
}

abbrev addresses : List ElasticIp
addresses =
    address (txt "m1") (txt "192.0.2.1")
    ∷ address (txt "m2") (txt "192.0.2.2")
    ∷ address (txt "m1") (txt "192.0.2.3")
    ∷ []

list_vm-details_example :
    (list_vm true (ok addresses) (ok []) machine).public_ips
    ≡ (details machine (safe_elastic_ips (ok addresses))).public_ips
unfolding normalize_vm text_of get get_field text_eq
list_vm-details_example = list_vm-details true (ok addresses) (ok []) machine refl refl

abbrev volume : Text → Volume
volume host = record {
  id = [];
  name = [];
  size_gib = 20;
  state = txt "in-use";
  health = txt "ok";
  attachment_status = txt "attached";
  attached_to_id = some host;
  guest_device = null;
  access_mode = null;
  volume_type_id = none;
  volume_type = [];
  media = txt "SSD";
  created_at = null;
  project_id = none;
  can_update = true;
  can_delete = true;
}

abbrev volumes : List Volume
volumes = volume (txt "m1") ∷ volume (txt "m2") ∷ volume (txt "m1") ∷ []

summarise_vm_disks_lem_example :
    let attached = filter_by (is_attached_to (txt "m1")) volumes in
    let shown = summarise_vm_disks (some volumes) (txt "m1") in
    (shown.disk_gib ≡ some (sum_by (λ (v : Volume). v.size_gib) attached))
    × (shown.disk_volumes ≡ length attached)
    × (shown.disk_media ≡ disk_totals attached)
summarise_vm_disks_lem_example = summarise_vm_disks_lem volumes (txt "m1")
