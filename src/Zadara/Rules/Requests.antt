-- ===== src/Zadara/Rules/Requests.antt =====
-- A rule that is asked for against the rule that the cloud then reports, and the cache against the
-- answer.
use opencloud_backend.Base.{
  ℕ, ◌≡◌, refl, Bool, true, false, ◌&&◌, not, Option, none, some, is_some, [], ◌∷◌, Text, txt,
  nonempty, or_default, if◌then◌else◌, text_eq, arith,
}
use opencloud_backend.Base.Json.{
  Json, null, num, str, obj, Fields, field, get, get_field, put, get_field-put, truthy, text_of,
  dict, fields_of,
}
use opencloud_backend.Zadara.Http.{Sent, response, error}
use opencloud_backend.Zadara.Auth.{is_ok}
use opencloud_backend.Zadara.Cache.{Result, ok, failed, Cache, invalidate}
use opencloud_backend.Zadara.Rules.{
  RuleRequest, normalize_security_group_rule, rule_fields, put_word, put_ports, put_source,
  create_security_group_rule,
}

-- The cloud answers without an error.
abbrev pub takes : Sent → Bool
takes (error code) = false
takes (response r) = is_ok r

abbrev pub is_done : {A : Type 0} → Result A → Bool
is_done (ok value) = true
is_done (failed code) = false

-- None for a text that was not given.
abbrev pub word_or_null : Text → Json
word_or_null word = if nonempty word then str word else null

abbrev pub port_or_null : Option ℕ → Json
port_or_null none = null
port_or_null (some n) = num n

-- The last port: the first one where none was given, and nothing without a first one.
abbrev pub last_port : Option ℕ → Option ℕ → Option ℕ
last_port none last = none
last_port (some first) last = some (or_default last first)

get_field-put_word :
    (key k word : Text) (fields : Fields)
    → get_field k (put_word key word fields)
      ≡ (if nonempty word && text_eq key k then str word else get_field k fields)
unfolding put_word
get_field-put_word key k [] fields = refl
get_field-put_word key k (c ∷ word) fields = get_field-put key k (str (c ∷ word)) fields

get_field-put_ports :
    (k : Text) (first last : Option ℕ) (fields : Fields)
    → get_field k (put_ports first last fields) ≡ (
        if text_eq (txt "port_range_max") k
        then elim (last_port first last) [ none ↦ get_field k fields | some n ↦ num n ]
        else if text_eq (txt "port_range_min") k
        then elim first [ none ↦ get_field k fields | some n ↦ num n ]
        else get_field k fields)
unfolding put_ports
get_field-put_ports k none last fields = ground arith
get_field-put_ports k (some n) last fields =
    rw
      (
        get_field-put (txt "port_range_max") k (num (or_default last n))
            (put (txt "port_range_min") (num n) fields),
        get_field-put (txt "port_range_min") k (num n) fields,
      )
      refl

get_field-put_source :
    (k cidr remote : Text) (fields : Fields)
    → get_field k (put_source cidr remote fields) ≡ (
        if nonempty cidr
        then if text_eq (txt "remote_ip_prefix") k then str cidr else get_field k fields
        else get_field k (put_word (txt "remote_group_id") remote fields))
unfolding put_source
get_field-put_source k [] remote fields = refl
get_field-put_source k (c ∷ cidr) remote fields =
    get_field-put (txt "remote_ip_prefix") k (str (c ∷ cidr)) fields

-- The payload without the ports, the protocol and the source.
abbrev base_fields : RuleRequest → Fields
base_fields r = fields_of (
    (txt "security_group_id", str r.group_id)
    ∷ (txt "direction", str r.direction)
    ∷ (txt "ethertype", str r.ethertype)
    ∷ (txt "description", str r.description)
    ∷ [])

-- What the payload says under a key.
rule_fields_lem :
    (r : RuleRequest) (k : Text)
    → get_field k (rule_fields r) ≡ (
        if text_eq (txt "remote_ip_prefix") k && nonempty r.cidr
        then str r.cidr
        else if text_eq (txt "remote_group_id") k
            && (not (nonempty r.cidr) && nonempty r.remote_group_id)
        then str r.remote_group_id
        else if text_eq (txt "port_range_max") k && is_some (last_port r.port_from r.port_to)
        then port_or_null (last_port r.port_from r.port_to)
        else if text_eq (txt "port_range_min") k && is_some r.port_from
        then port_or_null r.port_from
        else if text_eq (txt "protocol") k && nonempty r.protocol
        then str r.protocol
        else get_field k (base_fields r))
unfolding rule_fields
rule_fields_lem r k =
    let worded = put_word (txt "protocol") r.protocol (base_fields r) in
    let ported = put_ports r.port_from r.port_to worded in
    let source = get_field-put_source k r.cidr r.remote_group_id ported in
    let group = get_field-put_word (txt "remote_group_id") k r.remote_group_id ported in
    let ports = get_field-put_ports k r.port_from r.port_to worded in
    let protocol = get_field-put_word (txt "protocol") k r.protocol (base_fields r) in
    ground (arith, source, group, ports, protocol)

absent_port :
    (port : Option ℕ) → (if is_some port then port_or_null port else null) ≡ port_or_null port
absent_port none = refl
absent_port (some n) = refl

absent_word : (word : Text) → (if nonempty word then str word else str []) ≡ str word
absent_word [] = refl
absent_word (c ∷ word) = refl

-- The cloud reports a rule as it was asked for, under an id: what is then shown is what was asked for.
-- The last port is the first one where none was given, a range of addresses goes before a group, and what
-- was not given is None.
pub normalize-rule_fields :
    (r : RuleRequest) (id : Text)
    → nonempty r.direction ≡ true
    → nonempty r.ethertype ≡ true
    → let shown = normalize_security_group_rule (obj (field (txt "id") (str id) (rule_fields r))) in
      (shown.id ≡ id)
      × (shown.group_id ≡ r.group_id)
      × (shown.direction ≡ str r.direction)
      × (shown.ethertype ≡ str r.ethertype)
      × (shown.protocol ≡ word_or_null r.protocol)
      × (shown.port_from ≡ port_or_null r.port_from)
      × (shown.port_to ≡ port_or_null (last_port r.port_from r.port_to))
      × (shown.cidr ≡ word_or_null r.cidr)
      × (shown.remote_group_id ≡ (if nonempty r.cidr then null else word_or_null r.remote_group_id))
      × (shown.description ≡ str r.description)
unfolding normalize_security_group_rule get get_field text_eq text_of truthy
normalize-rule_fields r id way kind = (
  refl,
  rw (rule_fields_lem r (txt "security_group_id")) refl,
  rw (rule_fields_lem r (txt "direction"), way) refl,
  rw (rule_fields_lem r (txt "ethertype"), kind) refl,
  rw (rule_fields_lem r (txt "protocol")) refl,
  rw (rule_fields_lem r (txt "port_range_min")) (absent_port r.port_from),
  rw (rule_fields_lem r (txt "port_range_max")) (absent_port (last_port r.port_from r.port_to)),
  rw (rule_fields_lem r (txt "remote_ip_prefix")) refl,
  rw (rule_fields_lem r (txt "remote_group_id")) (ground arith),
  rw (rule_fields_lem r (txt "description")) (absent_word r.description),
)

-- A creation is accepted exactly when the cloud answers the payload without an error, and then, and only
-- then, are the caller's cached lists dropped.
pub create_security_group_rule-invalidate :
    (digest : Text → Text) (ask : Json → Sent) (token : Text) (rule : RuleRequest) (c : Cache)
    → let done = create_security_group_rule digest ask token rule c in
      let taken = takes (ask (dict ((txt "security_group_rule", obj (rule_fields rule)) ∷ []))) in
      (is_done done.0 ≡ taken) × (done.1 ≡ (if taken then invalidate digest token c else c))
unfolding create_security_group_rule
create_security_group_rule-invalidate digest ask token rule c = ground arith
