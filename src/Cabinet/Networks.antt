-- ===== src/Cabinet/Networks.antt =====
-- apps/networking/views.py: the networks of a project on one page, and the changes of its firewall.
pub mod Firewall
pub mod Visible
use opencloud_backend.Base.{
  ℕ, ◌+◌, ◌≡◌, Bool, true, false, ◌&&◌, not, Option, none, some, or_default, List, [], ◌∷◌, ◌++◌,
  map, length, Text, txt, text_eq, nonempty, any_by, filter_by, ◌==◌, if◌then◌else◌,
}
use opencloud_backend.Base.Dict.{Dict, lookup, insert, adjust}
use opencloud_backend.Base.Json.{Json, str, get, text_of, list_of}
use opencloud_backend.Zadara.Http.{ErrorCode, upstream_error}
use opencloud_backend.Zadara.Cache.{Result, ok, failed}
use opencloud_backend.Zadara.Rules.{Rule}
use opencloud_backend.Zadara.Machines.{ElasticIp, ListedVm}

-- The eight lists of the page, each read on its own.
pub record NetworkLists : Type 0 where
  pub vpcs : Result (List Json)
  pub subnets : Result (List Json)
  pub security_groups : Result (List Json)
  pub firewall_rules : Result (List Rule)
  pub elastic_ips : Result (List ElasticIp)
  pub internet_gateways : Result (List Json)
  pub nat_gateways : Result (List Json)
  pub machines : Result (List ListedVm)

-- `results[name].value or []`
abbrev pub or_empty : {A : Type 0} → Result (List A) → List A
or_empty (failed code) = []
or_empty (ok xs) = xs

-- The name of a section whose list failed.
abbrev pub missing : {A : Type 0} → Text → Result A → List Text
missing name (failed code) = name ∷ []
missing name (ok a) = []

unfoldable pub unavailable : NetworkLists → List Text
unavailable l =
    missing (txt "vpcs") l.vpcs
    ++ missing (txt "subnets") l.subnets
    ++ missing (txt "security groups") l.security_groups
    ++ missing (txt "firewall rules") l.firewall_rules
    ++ missing (txt "elastic ips") l.elastic_ips
    ++ missing (txt "internet gateways") l.internet_gateways
    ++ missing (txt "nat gateways") l.nat_gateways

-- `by_group`
unfoldable pub by_group : List Rule → Dict (List Rule) → Dict (List Rule)
by_group [] groups = groups
by_group (r ∷ rules) groups = by_group rules (adjust r.group_id [] (λ rs. rs ++ r ∷ []) groups)

-- `{v['id']: v['name'] for v in values}`
unfoldable pub names_by_id : List Json → Dict Text → Dict Text
names_by_id [] names = names
names_by_id (v ∷ values) names =
    names_by_id values (insert (text_of (get (txt "id") v)) (text_of (get (txt "name") v)) names)

unfoldable pub vm_names : List ListedVm → Dict Text → Dict Text
vm_names [] names = names
vm_names (v ∷ vms) names = vm_names vms (insert v.vm.id v.vm.name names)

-- `names.get(row['vpcId'] or '', '')`
abbrev pub vpc_name : Dict Text → Json → Text
vpc_name names row = or_default (lookup (text_of (get (txt "vpcId") row)) names) []

pub record GroupRow : Type 0 where
  pub group : Json
  pub rules : List Rule
  pub ingress : List Text
  pub egress : List Text
  pub vpc_name : Text

abbrev pub goes : Text → Rule → Bool
goes direction r = text_eq (text_of r.direction) direction

-- The labels of the rules in a direction, or what the group itself says.
unfoldable pub labels_or : Text → Text → List Rule → Json → List Text
labels_or direction key rules group =
    let labels = map (λ (r : Rule). r.label) (filter_by (goes direction) rules) in
    if nonempty labels then labels else map text_of (list_of (get key group))

unfoldable pub group_row : Dict (List Rule) → Dict Text → Json → GroupRow
group_row groups names g =
    let rules = or_default (lookup (text_of (get (txt "id") g)) groups) [] in
    record {
      group = g;
      rules = rules;
      ingress = labels_or (txt "ingress") (txt "ingress") rules g;
      egress = labels_or (txt "egress") (txt "egress") rules g;
      vpc_name = vpc_name names g;
    }

-- A row with the name of its VPC.
pub record NamedRow : Type 0 where
  pub row : Json
  pub vpc_name : Text

abbrev pub named_row : Dict Text → Json → NamedRow
named_row names row = record { row = row; vpc_name = vpc_name names row }

pub record AddressRow : Type 0 where
  pub address : ElasticIp
  pub instance_name : Text

abbrev pub address_row : Dict Text → ElasticIp → AddressRow
address_row names a = record {
  address = a;
  instance_name = or_default (lookup (or_default a.instance_id []) names) [];
}

pub record VpcRow : Type 0 where
  pub vpc : Json
  pub subnets : ℕ
  pub security_groups : ℕ
  pub has_internet_gateway : Bool

-- `row['vpcId'] == id`
abbrev pub is_id : Text → Json → Bool
is_id id (str s) = text_eq s id
is_id id _ = false

abbrev pub has_vpc : Text → Json → Bool
has_vpc id row = is_id id (get (txt "vpcId") row)

abbrev pub reaches : Text → Json → Bool
reaches id gateway = any_by (is_id id) (list_of (get (txt "vpcIds") gateway))

unfoldable pub vpc_row : List Json → List Json → List Json → Json → VpcRow
vpc_row subnets groups gateways v =
    let id = text_of (get (txt "id") v) in
    record {
      vpc = v;
      subnets = length (filter_by (has_vpc id) subnets);
      security_groups = length (filter_by (has_vpc id) groups);
      has_internet_gateway = any_by (reaches id) gateways;
    }

pub record NetworkPage : Type 0 where
  pub vpcs : List VpcRow
  pub subnets : List NamedRow
  pub security_groups : List GroupRow
  pub elastic_ips : List AddressRow
  pub nat_gateways : List NamedRow
  pub elastic_ips_free : ℕ
  pub unavailable : List Text

abbrev pub is_free : ElasticIp → Bool
is_free a = elim a.instance_id [ none ↦ true | some id ↦ not (nonempty id) ]

unfoldable pub network_page : NetworkLists → NetworkPage
network_page l =
    let vpcs : List Json = or_empty l.vpcs in
    let groups : List Json = or_empty l.security_groups in
    let names = names_by_id vpcs [] in
    record {
      vpcs = map (vpc_row (or_empty l.subnets) groups (or_empty l.internet_gateways)) vpcs;
      subnets = map (named_row names) (or_empty l.subnets);
      security_groups = map (group_row (by_group (or_empty l.firewall_rules) []) names) groups;
      elastic_ips = map (address_row (vm_names (or_empty l.machines) [])) (or_empty l.elastic_ips);
      nat_gateways = map (named_row names) (or_empty l.nat_gateways);
      elastic_ips_free = length (filter_by is_free (or_empty l.elastic_ips));
      unavailable = unavailable l;
    }

-- `NetworkOverviewView.get`: an error only where all seven sections failed.
unfoldable pub network_overview : NetworkLists → Result NetworkPage
network_overview l =
    if length (unavailable l) == 7 then failed upstream_error else ok (network_page l)
