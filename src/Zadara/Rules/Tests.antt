-- ===== src/Zadara/Rules/Tests.antt =====
-- The theorem on the firewall rules at a concrete rule.
use opencloud_backend.Base.{◌≡◌, refl, none, some, txt, []}
use opencloud_backend.Base.Json.{str, num, null, obj, field}
use opencloud_backend.Zadara.Rules.{RuleRequest, rule_fields, normalize_security_group_rule}
use opencloud_backend.Zadara.Rules.Requests.{normalize-rule_fields}

-- SSH from one network.
abbrev ssh : RuleRequest
ssh = record {
  group_id = txt "g1";
  direction = txt "ingress";
  protocol = txt "tcp";
  port_from = some 22;
  port_to = none;
  cidr = txt "10.0.0.0/8";
  remote_group_id = txt "g2";
  description = [];
  ethertype = txt "IPv4";
}

normalize-rule_fields_example :
    let shown =
      normalize_security_group_rule (obj (field (txt "id") (str (txt "r1")) (rule_fields ssh))) in
    (shown.id ≡ txt "r1")
    × (shown.group_id ≡ txt "g1")
    × (shown.direction ≡ str (txt "ingress"))
    × (shown.ethertype ≡ str (txt "IPv4"))
    × (shown.protocol ≡ str (txt "tcp"))
    × (shown.port_from ≡ num 22)
    × (shown.port_to ≡ num 22)
    × (shown.cidr ≡ str (txt "10.0.0.0/8"))
    × (shown.remote_group_id ≡ null)
    × (shown.description ≡ str [])
normalize-rule_fields_example = normalize-rule_fields ssh (txt "r1") refl refl
