-- ===== src/Zadara/Lists.antt =====
-- apps/integrations/zadara/resources.py: the other lists of the cloud, as the dicts that the source
-- returns. Each takes the body of the list, and the outcome of the request goes through `listed`.
mod Tests
pub mod Events
pub mod Quotas
pub mod Sorted
pub mod Order
use opencloud_backend.Base.{
  ℕ, ◌+◌, ◌*◌, ◌≡◌, Bool, true, false, ◌&&◌, ◌||◌, not, Option, none, some, List, [], ◌∷◌, ◌++◌,
  map, Text, txt, text_eq, nonempty, lower, filter_by, ◌==◌, if◌then◌else◌,
}
use opencloud_backend.Base.Json.{
  Json, null, num, str, arr, Items, nil, cons, get, truthy, text_of, show_number, show_json,
  list_of, dicts, or_word, or_json, dict, id_at, optional_id_at, word_at, count_at, flag_at,
  optional_at,
}
use opencloud_backend.Zadara.Cache.{Result, ok, failed}
use opencloud_backend.Zadara.Volumes.{items}
use opencloud_backend.Zadara.Rules.{port_of, show_port}

abbrev pub items_of : List Json → Items
items_of [] = nil
items_of (x ∷ xs) = cons x (items_of xs)

-- `[normalize(x) for x in _items(data, key) if isinstance(x, dict)]`
unfoldable pub listed : Text → (Json → Json) → Result (Option Json) → Result (List Json)
listed key normalize (failed code) = failed code
listed key normalize (ok body) = ok (map normalize (dicts (items body key)))

unfoldable pub vpc : Json → Json
vpc v = dict (
    (txt "id", id_at (txt "id") v)
    ∷ (txt "name", word_at (txt "name") [] v)
    ∷ (txt "cidrBlock", get (txt "cidr_block") v)
    ∷ (txt "state", word_at (txt "state") (txt "unknown") v)
    ∷ (txt "isDefault", flag_at (txt "is_default") v)
    ∷ (txt "projectId", optional_id_at (txt "project_id") v)
    ∷ [])

-- `list_vpcs`
abbrev pub list_vpcs : Result (Option Json) → Result (List Json)
list_vpcs = listed (txt "vpcs") vpc

unfoldable pub alarm : Json → Json
alarm a = dict (
    (txt "id", id_at (txt "id") a)
    ∷ (txt "type", word_at (txt "type_name") [] a)
    ∷ (txt "state", str (lower (text_of (get (txt "state") a))))
    ∷ (txt "entityType", word_at (txt "entity_type") [] a)
    ∷ (txt "entityId", word_at (txt "entity_id") [] a)
    ∷ (txt "createdAt", get (txt "created_at") a)
    ∷ (txt "projectId", optional_id_at (txt "project_id") a)
    ∷ [])

-- `list_alarms`
abbrev pub list_alarms : Result (Option Json) → Result (List Json)
list_alarms = listed (txt "alarms") alarm

unfoldable pub volume_snapshot : Json → Json
volume_snapshot s = dict (
    (txt "id", id_at (txt "id") s)
    ∷ (txt "name", word_at (txt "name") [] s)
    ∷ (txt "description", optional_at (txt "description") s)
    ∷ (txt "sizeGiB", count_at (txt "size_gib") s)
    ∷ (txt "state", word_at (txt "state") (txt "unknown") s)
    ∷ (txt "health", word_at (txt "health") (txt "unknown") s)
    ∷ (txt "sourceVolumeId", optional_id_at (txt "source_volume_id") s)
    ∷ (txt "protectionGroupId", get (txt "protection_group_id") s)
    ∷ (txt "createdAt", get (txt "created_at") s)
    ∷ (txt "projectId", optional_id_at (txt "project_id") s)
    ∷ [])

-- `list_volume_snapshots`
abbrev pub list_volume_snapshots : Result (Option Json) → Result (List Json)
list_volume_snapshots = listed (txt "snapshots") volume_snapshot

unfoldable pub vm_snapshot : Json → Json
vm_snapshot s = dict (
    (txt "id", id_at (txt "id") s)
    ∷ (txt "name", word_at (txt "name") [] s)
    ∷ (txt "description", optional_at (txt "description") s)
    ∷ (txt "status", word_at (txt "status") (txt "unknown") s)
    ∷ (txt "progress", get (txt "progress") s)
    ∷ (txt "volumes", count_at (txt "number_of_volumes") s)
    ∷ (txt "sourceVmId", optional_id_at (txt "source_vm_id") s)
    ∷ (txt "sourceVmName", word_at (txt "source_vm_name") [] s)
    ∷ (txt "incremental", flag_at (txt "enable_incremental_backup") s)
    ∷ (txt "protectionGroup", get (txt "protection_group_name") s)
    ∷ (txt "createdAt", get (txt "created_at") s)
    ∷ (txt "projectId", optional_id_at (txt "project_id") s)
    ∷ [])

-- `list_vm_snapshots`
abbrev pub list_vm_snapshots : Result (Option Json) → Result (List Json)
list_vm_snapshots = listed (txt "vm_snapshots") vm_snapshot

unfoldable pub subnet : Json → Json
subnet n = dict (
    (txt "id", id_at (txt "id") n)
    ∷ (txt "name", word_at (txt "name") [] n)
    ∷ (txt "cidrBlock", get (txt "cidr_block") n)
    ∷ (txt "vpcId", optional_id_at (txt "vpc_id") n)
    ∷ (txt "state", word_at (txt "state") (txt "unknown") n)
    ∷ (txt "isDefault", flag_at (txt "is_default") n)
    ∷ (txt "isDirect", flag_at (txt "is_direct_network") n)
    ∷ (txt "networkType", get (txt "network_type") n)
    ∷ (txt "mtu", get (txt "mtu") n)
    ∷ (txt "totalIps", count_at (txt "total_ip_address_count") n)
    ∷ (txt "availableIps", count_at (txt "available_ip_address_count") n)
    ∷ (txt "projectId", optional_id_at (txt "project_id") n)
    ∷ [])

-- `list_subnets`
abbrev pub list_subnets : Result (Option Json) → Result (List Json)
list_subnets = listed (txt "networks") subnet

-- `start in (None, 0)`
abbrev pub no_start : Option ℕ → Bool
no_start none = true
no_start (some n) = n == 0

-- `end in (None, 0, 65535)`
abbrev pub no_end : Option ℕ → Bool
no_end none = true
no_end (some n) = n == 0 || n == 65535

-- `start == end or end is None`
abbrev pub one_port : Option ℕ → Option ℕ → Bool
one_port first none = true
one_port none (some n) = false
one_port (some m) (some n) = m == n

unfoldable pub describe_ports : Option ℕ → Option ℕ → Text
describe_ports first last =
    if no_start first && no_end last
    then txt "all ports"
    else if one_port first last
    then show_port first
    else show_port first ++ txt "-" ++ show_port last

-- `', '.join(texts)`
unfoldable pub join : List Text → Text
join [] = []
join (t ∷ []) = t
join (t ∷ u ∷ ts) = let rest = join (u ∷ ts) in t ++ txt ", " ++ rest

abbrev pub range_sources : List Json → List Text
range_sources ranges =
    map (λ (r : Json). show_json (get (txt "cidr_ip") r))
      (filter_by (λ (r : Json). truthy (get (txt "cidr_ip") r)) (dicts ranges))

-- `_describe_rule`
unfoldable pub describe_rule : Json → Text
describe_rule rule =
    let protocol = or_word (text_of (get (txt "ip_protocol") rule)) (txt "any") in
    let sources : List Text =
      range_sources (list_of (get (txt "ip_ranges") rule))
      ++ map (λ (g : Json). txt "group") (dicts (list_of (get (txt "groups") rule))) in
    (if text_eq protocol (txt "-1") then txt "any" else protocol)
    ++ txt " "
    ++ describe_ports (port_of (get (txt "from_port") rule)) (port_of (get (txt "to_port") rule))
    ++ txt " · "
    ++ (if nonempty sources then join sources else txt "no source")

abbrev pub rule_texts : Text → Json → Json
rule_texts key g =
    arr (items_of (map (λ (r : Json). str (describe_rule r)) (dicts (list_of (get key g)))))

unfoldable pub security_group : Json → Json
security_group g = dict (
    (txt "id", id_at (txt "id") g)
    ∷ (txt "name", word_at (txt "name") [] g)
    ∷ (txt "description", optional_at (txt "description") g)
    ∷ (txt "vpcId", optional_id_at (txt "vpc_id") g)
    ∷ (txt "ingress", rule_texts (txt "ip_permissions_ingress") g)
    ∷ (txt "egress", rule_texts (txt "ip_permissions_egress") g)
    ∷ (txt "projectId", optional_id_at (txt "project_id") g)
    ∷ [])

-- `list_security_groups`
abbrev pub list_security_groups : Result (Option Json) → Result (List Json)
list_security_groups = listed (txt "security_groups") security_group

abbrev pub first_state : List Json → Json
first_state [] = str (txt "detached")
first_state (a ∷ attachments) = get (txt "state") a

unfoldable pub internet_gateway : Json → Json
internet_gateway g =
    let attachments = dicts (list_of (get (txt "attachment_set") g)) in
    dict (
      (txt "id", id_at (txt "id") g)
      ∷ (txt "name", word_at (txt "name") [] g)
      ∷ (
        txt "vpcIds",
        arr (
            items_of (
              map (id_at (txt "vpc_id"))
                (filter_by (λ (a : Json). truthy (get (txt "vpc_id") a)) attachments))),
      )
      ∷ (txt "state", first_state attachments)
      ∷ (txt "projectId", optional_id_at (txt "project_id") g)
      ∷ [])

-- `list_internet_gateways`
abbrev pub list_internet_gateways : Result (Option Json) → Result (List Json)
list_internet_gateways = listed (txt "internet_gateways") internet_gateway

unfoldable pub nat_gateway : Json → Json
nat_gateway g = dict (
    (txt "id", id_at (txt "id") g)
    ∷ (txt "name", word_at (txt "name") [] g)
    ∷ (txt "publicIp", get (txt "public_ip") g)
    ∷ (txt "privateIp", get (txt "private_ip") g)
    ∷ (txt "state", word_at (txt "state") (txt "unknown") g)
    ∷ (txt "vpcId", optional_id_at (txt "vpc_id") g)
    ∷ (txt "failure", get (txt "failure_message") g)
    ∷ (txt "createdAt", get (txt "created_at") g)
    ∷ (txt "projectId", optional_id_at (txt "project_id") g)
    ∷ [])

-- `list_nat_gateways`, without those that are deleted
unfoldable pub list_nat_gateways : Result (Option Json) → Result (List Json)
list_nat_gateways (failed code) = failed code
list_nat_gateways (ok body) = ok (
    map nat_gateway (
      filter_by (λ (g : Json). not (truthy (get (txt "deleted_at") g)))
        (dicts (items body (txt "nat_gateways")))))
