-- ===== src/Zadara/Rules.antt =====
-- apps/integrations/zadara/resources.py: the firewall rules of a security group, how they are shown,
-- created and deleted. What the cloud answers is an argument, asked with the payload.
mod Tests
pub mod Requests
use opencloud_backend.Base.{
  ℕ, ◌≡◌, Bool, true, false, ◌&&◌, ◌||◌, not, Option, none, some, List, [], ◌∷◌, ◌++◌, map, Text,
  txt, nonempty, or_default, ◌==◌, if◌then◌else◌,
}
use opencloud_backend.Base.Json.{
  Json, null, num, str, obj, Fields, end, get, put, truthy, text_of, show_number, show_json,
  word_at, dicts, is_dict, fields_of, dict, or_word,
}
use opencloud_backend.Zadara.Http.{
  Response, Sent, response, error, ErrorCode, forbidden, conflict, invalid_request,
  write_not_allowed, not_found, upstream_error,
}
use opencloud_backend.Zadara.Auth.{is_ok, body_get}
use opencloud_backend.Zadara.Cache.{Result, ok, failed, Cache, invalidate}
use opencloud_backend.Zadara.Volumes.{items}

-- A port of a rule: a number, or None.
abbrev pub port_of : Json → Option ℕ
port_of (num n) = some n
port_of _ = none

abbrev pub show_port : Option ℕ → Text
show_port none = txt "None"
show_port (some n) = show_number n

unfoldable pub show_ports : Option ℕ → Option ℕ → Text
show_ports none none = txt "all ports"
show_ports none (some n) = txt "None-" ++ show_number n
show_ports (some m) none = show_number m ++ txt "-None"
show_ports (some m) (some n) =
    if m == n then show_number m else show_number m ++ txt "-" ++ show_number n

-- `_rule_label`
unfoldable pub rule_label : Json → Text
rule_label rule =
    let protocol = show_json (word_at (txt "protocol") (txt "any") rule) in
    let ports =
      show_ports (port_of (get (txt "port_range_min") rule))
        (port_of (get (txt "port_range_max") rule)) in
    let source =
      if truthy (get (txt "remote_ip_prefix") rule)
      then show_json (get (txt "remote_ip_prefix") rule)
      else if truthy (get (txt "remote_group_id") rule)
      then txt "another group"
      else txt "anywhere" in
    protocol ++ txt " " ++ ports ++ txt " · " ++ source

pub record Rule : Type 0 where
  pub id : Text
  pub group_id : Text
  pub direction : Json
  pub ethertype : Json
  pub protocol : Json
  pub port_from : Json
  pub port_to : Json
  pub cidr : Json
  pub remote_group_id : Json
  pub description : Json
  pub label : Text

-- `normalize_security_group_rule`
unfoldable pub normalize_security_group_rule : Json → Rule
normalize_security_group_rule raw = record {
  id = text_of (get (txt "id") raw);
  group_id = text_of (get (txt "security_group_id") raw);
  direction = word_at (txt "direction") (txt "ingress") raw;
  ethertype = word_at (txt "ethertype") (txt "IPv4") raw;
  protocol = get (txt "protocol") raw;
  port_from = get (txt "port_range_min") raw;
  port_to = get (txt "port_range_max") raw;
  cidr = get (txt "remote_ip_prefix") raw;
  remote_group_id = get (txt "remote_group_id") raw;
  description = word_at (txt "description") [] raw;
  label = rule_label raw;
}

-- `list_security_group_rules`
unfoldable pub list_security_group_rules : Result (Option Json) → Result (List Rule)
list_security_group_rules (failed code) = failed code
list_security_group_rules (ok body) =
    ok (map normalize_security_group_rule (dicts (items body (txt "security_group_rules"))))

-- The arguments of `create_security_group_rule`; a text that was not given is empty.
pub record RuleRequest : Type 0 where
  pub group_id : Text
  pub direction : Text
  pub protocol : Text
  pub port_from : Option ℕ
  pub port_to : Option ℕ
  pub cidr : Text
  pub remote_group_id : Text
  pub description : Text
  pub ethertype : Text

unfoldable pub put_word : Text → Text → Fields → Fields
put_word key word fields = if nonempty word then put key (str word) fields else fields

unfoldable pub put_ports : Option ℕ → Option ℕ → Fields → Fields
put_ports none last fields = fields
put_ports (some first) last fields =
    put (txt "port_range_max") (num (or_default last first))
      (put (txt "port_range_min") (num first) fields)

unfoldable pub put_source : Text → Text → Fields → Fields
put_source cidr remote fields =
    if nonempty cidr
    then put (txt "remote_ip_prefix") (str cidr) fields
    else put_word (txt "remote_group_id") remote fields

-- The payload: keys that do not apply are absent.
unfoldable pub rule_fields : RuleRequest → Fields
rule_fields r = put_source r.cidr r.remote_group_id (
    put_ports r.port_from r.port_to (
      put_word (txt "protocol") r.protocol (
        fields_of (
          (txt "security_group_id", str r.group_id)
          ∷ (txt "direction", str r.direction)
          ∷ (txt "ethertype", str r.ethertype)
          ∷ (txt "description", str r.description)
          ∷ []))))

-- `_neutron_message`
unfoldable pub neutron_message : Response → Text
neutron_message r =
    let error = body_get (txt "NeutronError") r in
    if is_dict error then text_of (get (txt "message") error) else []

unfoldable pub rule_error : Response → ErrorCode
rule_error r =
    if r.status == 401 || r.status == 403
    then forbidden
    else if r.status == 409
    then conflict
    else if r.status == 400
    then invalid_request
    else if r.status == 404
    then (if nonempty (neutron_message r) then not_found else write_not_allowed)
    else upstream_error

-- `(resp.json() or {}).get('security_group_rule') or {}`
abbrev pub created_rule : Response → Json
created_rule r =
    let created = body_get (txt "security_group_rule") r in
    if truthy created then created else obj end

module _ (digest : Text → Text) where
  unfoldable pub create_security_group_rule :
      (Json → Sent) → Text → RuleRequest → Cache → Result Rule × Cache
  create_security_group_rule ask token rule c =
      elim (ask (dict ((txt "security_group_rule", obj (rule_fields rule)) ∷ []))) [
        | error code ↦ (failed code, c)
        | response r ↦
            if is_ok r
            then (ok (normalize_security_group_rule (created_rule r)), invalidate digest token c)
            else (failed (rule_error r), c)
      ]

  unfoldable pub delete_security_group_rule :
      (Text → Sent) → Text → Text → Cache → Result Unit × Cache
  delete_security_group_rule ask token rule_id c = elim (ask rule_id) [
    | error code ↦ (failed code, c)
    | response r ↦
        if r.status == 401 || r.status == 403
        then (failed forbidden, c)
        else if r.status == 404
        then (failed not_found, c)
        else if not (is_ok r)
        then (failed upstream_error, c)
        else (ok tt, invalidate digest token c)
  ]
