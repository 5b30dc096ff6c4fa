-- ===== src/Zadara/Machines/Addresses.antt =====
-- The addresses of a machine in the list.
use opencloud_backend.Base.{
  ◌≡◌, refl, sym, ◌∙◌, Bool, true, false, ◌&&◌, Option, none, some, List, [], ◌∷◌, ◌++◌, map,
  filter_by, arith, Text, text_eq, text_eq_iff, nonempty, or_default, if◌then◌else◌, Bool-cases,
  inl, inr,
}
use opencloud_backend.Base.Dict.{Dict, lookup, lookup-append}
use opencloud_backend.Base.Json.{Json, truthy, is_dict}
use opencloud_backend.Zadara.Machines.{
  ElasticIp, is_bound_to, truthy_ones, list_vm, details, normalize_vm, add_address, map_addresses,
  safe_elastic_ips, public_ips_by_instance,
}
use opencloud_backend.Zadara.Cache.{Result}
use opencloud_backend.Zadara.Volumes.{Volume}
use mathlib.Core.List.{append_assoc, append-nil}

abbrev names_machine : Text → Option Text → Bool
names_machine id none = false
names_machine id (some j) = text_eq j id

add_address-lookup :
    (host : Option Text) (ip : Json) (mapping : Dict (List Json)) (id : Text)
    → nonempty id ≡ true
    → or_default (lookup id (add_address host ip mapping)) [] ≡ (
        if names_machine id host && truthy ip
        then or_default (lookup id mapping) [] ++ ip ∷ []
        else or_default (lookup id mapping) [])
unfolding add_address
add_address-lookup none ip mapping id h = refl
add_address-lookup (some j) ip mapping id h =
    ground (arith, lookup-append j id ip mapping, text_eq_iff j id)

abbrev addresses : Text → List ElasticIp → List Json
addresses id eips =
    truthy_ones (map (λ (e : ElasticIp). e.public_ip) (filter_by (is_bound_to id) eips))

addresses_cons :
    (id : Text) (e : ElasticIp) (eips : List ElasticIp)
    → addresses id (e ∷ eips)
      ≡ (if names_machine id e.instance_id && truthy e.public_ip then e.public_ip ∷ [] else [])
        ++ addresses id eips
addresses_cons id e eips = elim (Bool-cases (names_machine id e.instance_id)) [
  | inl q ↦ elim (Bool-cases (truthy e.public_ip)) [
    | inl p ↦ rw (q, p) refl
    | inr p ↦ rw (q, p) refl
  ]
  | inr q ↦ rw q refl
]

map_addresses-lookup :
    (eips : List ElasticIp) (mapping : Dict (List Json)) (id : Text)
    → nonempty id ≡ true
    → or_default (lookup id (map_addresses eips mapping)) []
      ≡ or_default (lookup id mapping) [] ++ addresses id eips
unfolding map_addresses
map_addresses-lookup [] mapping id h = sym (append-nil _)
map_addresses-lookup (e ∷ eips) mapping id h =
    map_addresses-lookup eips (add_address e.instance_id e.public_ip mapping) id h
    ∙ rw (add_address-lookup e.instance_id e.public_ip mapping id h, addresses_cons id e eips)
        (elim (Bool-cases (names_machine id e.instance_id && truthy e.public_ip)) [
          | inl q ↦ rw q (append_assoc (or_default (lookup id mapping) []) (e.public_ip ∷ []) _)
          | inr q ↦ rw q refl
        ])

-- The public addresses of a machine in the list are those on its own page, in the same order, whether
-- the addresses could be read or not.
pub list_vm-details :
    (with_disks : Bool) (eips : Result (List ElasticIp)) (volumes : Result (List Volume))
    (raw : Json)
    → is_dict raw ≡ true
    → nonempty (normalize_vm raw).id ≡ true
    → (list_vm with_disks eips volumes raw).public_ips
      ≡ (details raw (safe_elastic_ips eips)).public_ips
unfolding list_vm details public_ips_by_instance lookup
list_vm-details with_disks eips volumes raw d h =
    rw (map_addresses-lookup (safe_elastic_ips eips) [] (normalize_vm raw).id h, d) refl
