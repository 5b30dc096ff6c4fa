-- ===== src/Zadara/Machines.antt =====
-- apps/integrations/zadara/resources.py: the machines, their public addresses and disks, what may be
-- done with a machine, and its console. A list of the cloud is taken to be a list of objects.
mod Tests
pub mod Addresses
pub mod Console
use opencloud_backend.Base.{
  ℕ, ◌≡◌, Bool, true, false, ◌&&◌, ◌||◌, not, Option, none, some, List, [], ◌∷◌, ◌++◌, map, Text,
  txt, text_eq, nonempty, filter_by, or_default, ◌==◌, if◌then◌else◌,
}
use opencloud_backend.Base.Dict.{Dict, lookup, adjust}
use opencloud_backend.Base.Json.{
  Json, null, bool, str, arr, nil, obj, Fields, end, get, truthy, text_of, text_or_none, text_value,
  int_of, list_of, show_json, dicts, is_dict, or_word, or_json, dict,
}
use opencloud_backend.Zadara.Http.{
  Response, Sent, response, error, ErrorCode, not_found, forbidden, session_expired, upstream_error,
  invalid_request,
}
use opencloud_backend.Zadara.Auth.{is_ok}
use opencloud_backend.Zadara.Cache.{Result, ok, failed, Cache, invalidate, authed_post}
use opencloud_backend.Zadara.Volumes.{items, Volume, DiskSummary, summarise_vm_disks}

pub record Vm : Type 0 where
  pub id : Text
  pub name : Text
  pub status : Text
  pub vcpus : ℕ
  pub ram_mb : ℕ
  pub disk_gb : ℕ
  pub instance_type : Text
  pub image_id : Option Text
  pub created_at : Json
  pub key_pair : Json
  pub vpc_id : Option Text
  pub availability_zone : Json
  pub private_ips : List Json
  pub tags : List Text
  pub project_id : Option Text

-- `[x for x in values if x]`
abbrev pub truthy_ones : List Json → List Json
truthy_ones vs = filter_by truthy vs

-- `normalize_vm`
unfoldable pub normalize_vm : Json → Vm
normalize_vm raw = record {
  id = text_of (get (txt "id") raw);
  name = text_of (get (txt "name") raw);
  status = or_word (text_of (get (txt "status") raw)) (txt "unknown");
  vcpus = int_of (get (txt "vcpus") raw);
  ram_mb = int_of (get (txt "ramMB") raw);
  disk_gb = int_of (get (txt "diskGB") raw);
  instance_type = text_of (get (txt "instanceType") raw);
  image_id = text_or_none (get (txt "imageId") raw);
  created_at = or_json (get (txt "created") raw) (get (txt "launched_at") raw);
  key_pair = get (txt "key_pair") raw;
  vpc_id = text_or_none (get (txt "vpc_id") raw);
  availability_zone = get (txt "availability_zone") raw;
  private_ips = truthy_ones (map (get (txt "address")) (list_of (get (txt "networks") raw)));
  tags = map show_json (list_of (get (txt "tags") raw));
  project_id = text_or_none (get (txt "project_id") raw);
}

pub record ElasticIp : Type 0 where
  pub id : Text
  pub public_ip : Json
  pub public_dns_name : Option Text
  pub private_ip : Json
  pub instance_id : Option Text
  pub network_interface_id : Json
  pub project_id : Option Text

-- `s.rstrip('.')`
unfoldable pub strip_dots : Text → Text
strip_dots [] = []
strip_dots (c ∷ s) =
    let rest = strip_dots s in if c == b'.' && not (nonempty rest) then [] else c ∷ rest

abbrev pub some_text : Text → Option Text
some_text s = if nonempty s then some s else none

unfoldable pub read_elastic_ip : Json → ElasticIp
read_elastic_ip e = record {
  id = text_of (get (txt "id") e);
  public_ip = get (txt "public_ip") e;
  public_dns_name = some_text (strip_dots (text_of (get (txt "public_dns_name") e)));
  private_ip = get (txt "private_ip_address") e;
  instance_id = text_or_none (get (txt "instance_id") e);
  network_interface_id = get (txt "network_interface_id") e;
  project_id = text_or_none (get (txt "project_id") e);
}

-- `list_elastic_ips`
unfoldable pub list_elastic_ips : Result (Option Json) → Result (List ElasticIp)
list_elastic_ips (failed code) = failed code
list_elastic_ips (ok body) = ok (map read_elastic_ip (dicts (items body (txt "elastic_ips"))))

-- `_safe_elastic_ips`: a refused list is empty.
unfoldable pub safe_elastic_ips : Result (List ElasticIp) → List ElasticIp
safe_elastic_ips (failed code) = []
safe_elastic_ips (ok eips) = eips

-- The loop of `_public_ips_by_instance`.
unfoldable pub add_address : Option Text → Json → Dict (List Json) → Dict (List Json)
add_address none ip mapping = mapping
add_address (some id) ip mapping =
    if nonempty id && truthy ip then adjust id [] (λ ips. ips ++ ip ∷ []) mapping else mapping

unfoldable pub map_addresses : List ElasticIp → Dict (List Json) → Dict (List Json)
map_addresses [] mapping = mapping
map_addresses (e ∷ eips) mapping =
    map_addresses eips (add_address e.instance_id e.public_ip mapping)

-- `_public_ips_by_instance`
unfoldable pub public_ips_by_instance : Result (List ElasticIp) → Dict (List Json)
public_ips_by_instance eips = map_addresses (safe_elastic_ips eips) []

-- A machine of the list; `disks` is none where they were not asked for.
pub record ListedVm : Type 0 where
  pub vm : Vm
  pub public_ips : List Json
  pub disks : Option DiskSummary

-- `_safe_volumes`
unfoldable pub safe_volumes : Result (List Volume) → Option (List Volume)
safe_volumes (failed code) = none
safe_volumes (ok volumes) = some volumes

unfoldable pub list_vm : Bool → Result (List ElasticIp) → Result (List Volume) → Json → ListedVm
list_vm with_disks eips volumes raw =
    let vm = normalize_vm raw in
    record {
      vm = vm;
      public_ips = or_default (lookup vm.id (public_ips_by_instance eips)) [];
      disks = if with_disks then some (summarise_vm_disks (safe_volumes volumes) vm.id) else none;
    }

-- `list_vms`
unfoldable pub list_vms :
    Bool
    → Result (Option Json)
    → Result (List ElasticIp)
    → Result (List Volume)
    → Result (List ListedVm)
list_vms with_disks (failed code) eips volumes = failed code
list_vms with_disks (ok body) eips volumes =
    ok (map (list_vm with_disks eips volumes) (items body (txt "vms")))

-- One machine, with what the list does not show.
pub record VmDetails : Type 0 where
  pub vm : Vm
  pub public_ips : List Json
  pub public_dns_names : List Text
  pub security_groups : Json
  pub subnet_id : Json
  pub boot_volume_id : Json
  pub user_data : Bool
  pub launched_at : Json
  pub description : Json

abbrev pub is_bound_to : Text → ElasticIp → Bool
is_bound_to id e = elim e.instance_id [ none ↦ false | some j ↦ text_eq j id ]

unfoldable pub dns_names : List ElasticIp → List Text
dns_names [] = []
dns_names (e ∷ eips) =
    let rest = dns_names eips in elim e.public_dns_name [ none ↦ rest | some name ↦ name ∷ rest ]

unfoldable pub details : Json → List ElasticIp → VmDetails
details raw eips =
    let vm = normalize_vm (if is_dict raw then raw else obj end) in
    let matching = filter_by (is_bound_to vm.id) eips in
    record {
      vm = vm;
      public_ips = truthy_ones (map (λ (e : ElasticIp). e.public_ip) matching);
      public_dns_names = dns_names matching;
      security_groups = or_json (get (txt "security_groups") raw) (arr nil);
      subnet_id = get (txt "subnet_id") raw;
      boot_volume_id = get (txt "boot_volume_id") raw;
      user_data = truthy (get (txt "user_data") raw);
      launched_at = get (txt "launched_at") raw;
      description = get (txt "description") raw;
    }

-- `get_vm`; a body that is not JSON is an empty one.
unfoldable pub get_vm : Sent → Result (List ElasticIp) → Result VmDetails
get_vm (error code) eips = failed code
get_vm (response r) eips =
    if r.status == 404
    then failed not_found
    else if r.status == 403
    then failed forbidden
    else if r.status == 401
    then failed session_expired
    else if not (is_ok r)
    then failed upstream_error
    else ok (details (or_default r.body (obj end)) (safe_elastic_ips eips))

-- The path below the machine, and the payload, of an action.
unfoldable pub action_request : Text → Bool → Option (Text × Option Json)
action_request action force =
    if text_eq action (txt "start")
    then some (txt "action", some (dict ((txt "action", str (txt "powerup")) ∷ [])))
    else if text_eq action (txt "stop")
    then some (
      txt "action",
      some (dict ((txt "action", str (txt "shutdown")) ∷ (txt "force", bool force) ∷ [])),
    )
    else if text_eq action (txt "reboot")
    then some (txt "actions/guest-reboot", none)
    else none

-- Only an action that the cloud takes drops the cached lists.
unfoldable pub acted : (Text → Text) → Text → Result (Option Json) → Cache → Result Unit × Cache
acted digest token (failed code) c = (failed code, c)
acted digest token (ok body) c = (ok tt, invalidate digest token c)

-- `vm_action`
unfoldable pub vm_action :
    (Text → Text) → (Text → Option Json → Sent) → Text → Text → Bool → Cache → Result Unit × Cache
vm_action digest ask token action force c = elim (action_request action force) [
  | none ↦ (failed invalid_request, c)
  | some (path, payload) ↦ acted digest token (authed_post (ask path payload)) c
]
