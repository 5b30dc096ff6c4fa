-- ===== src/Cabinet/Networks/Firewall.antt =====
-- apps/networking/views.py (SecurityGroupRuleView, SecurityGroupRuleDeleteView): a rule is added to a
-- group, or taken away, with the caller's own token. Each returns its answer, what the cloud was asked to
-- do, the row of the audit, and the cache.
use opencloud_backend.Base.{
  ℕ, ◌+◌, ◌*◌, ◌-◌, ◌⊎◌, Bool, false, ◌&&◌, Option, none, some, List, [], ◌∷◌, map, Text, txt,
  text_eq, nonempty, strip, lower, member_text, first_by, leb, inl, inr, if◌then◌else◌,
}
use opencloud_backend.Base.Json.{Json, null, num, str, get, text_of, or_word}
use opencloud_backend.Zadara.Http.{
  Sent, ErrorCode, session_expired, invalid_request, not_found, forbidden, conflict,
  write_not_allowed,
}
use opencloud_backend.Zadara.Cache.{Result, ok, failed, Cache}
use opencloud_backend.Zadara.Rules.{
  Rule, RuleRequest, create_security_group_rule, delete_security_group_rule,
}

-- `_WRITE_STATUS.get(code, 502)`
unfoldable pub write_status : ErrorCode → ℕ
write_status forbidden = 403
write_status not_found = 404
write_status conflict = 409
write_status invalid_request = 400
write_status write_not_allowed = 403
write_status _ = 502

-- `_opens_the_internet`
unfoldable pub opens_the_internet : Text → Bool
opens_the_internet cidr = member_text (strip cidr) (txt "0.0.0.0/0" ∷ txt "::/0" ∷ [])

-- `int(text)` of the decimal digits of a text; none where it has another character.
unfoldable pub read_digits : Text → ℕ → Option ℕ
read_digits [] n = some n
read_digits (c ∷ s) n =
    let rest = read_digits s (n * 10 + (c - b'0')) in
    if leb b'0' c && leb c b'9' then rest else none

abbrev pub whole : Option ℕ → Option (Option ℕ)
whole none = none
whole (some n) = some (some n)

-- A port that is given: none where it is not a number, some none where there is none. A text has digits
-- only.
unfoldable pub read_port : Json → Option (Option ℕ)
read_port null = some none
read_port (num n) = some (some n)
read_port (str []) = some none
read_port (str (c ∷ s)) = whole (read_digits (c ∷ s) 0)
read_port _ = none

pub record AddRule : Type 0 where
  pub direction : Text
  pub cidr : Text
  pub remote_group_id : Text
  pub protocol : Text
  pub port_from : Json
  pub port_to : Json
  pub description : Text

abbrev pub direction_of : AddRule → Text
direction_of q = lower (strip (or_word q.direction (txt "ingress")))

unfoldable pub rule_request : Text → AddRule → Option ℕ → Option ℕ → RuleRequest
rule_request group_id q port_from port_to = record {
  group_id = group_id;
  direction = direction_of q;
  protocol = lower (strip q.protocol);
  port_from = port_from;
  port_to = port_to;
  cidr = strip q.cidr;
  remote_group_id = strip q.remote_group_id;
  description = strip q.description;
  ethertype = txt "IPv4";
}

-- What the cloud is asked to do.
pub data FirewallCall : Type 0 where
  adds : RuleRequest → FirewallCall
  removes : (rule_id : Text) → FirewallCall

-- A row of the audit; `open_to_internet` is false where the row does not say it.
pub record FirewallAudit : Type 0 where
  pub group_id : Text
  pub label : Text
  pub error_code : Option ErrorCode
  pub open_to_internet : Bool

pub record FirewallOutcome (A : Type 0) : Type 0 where
  pub answer : A ⊎ (ErrorCode × ℕ)
  pub calls : List FirewallCall
  pub audit : List FirewallAudit
  pub cache : Cache

abbrev pub turns_down : {A : Type 0} → ErrorCode → ℕ → Cache → FirewallOutcome A
turns_down code status c = record { answer = inr (code, status); calls = []; audit = []; cache = c }

unfoldable pub settle_add : Result Rule × Cache → RuleRequest → FirewallOutcome Rule
settle_add (failed code, c) r = record {
  answer = inr (code, write_status code);
  calls = adds r ∷ [];
  audit =
      record { group_id = r.group_id; label = []; error_code = some code; open_to_internet = false }
      ∷ [];
  cache = c;
}
settle_add (ok rule, c) r = record {
  answer = inl rule;
  calls = adds r ∷ [];
  audit =
      record {
        group_id = r.group_id;
        label = rule.label;
        error_code = none;
        open_to_internet = opens_the_internet r.cidr;
      }
      ∷ [];
  cache = c;
}

abbrev pub group_ids : List Json → List Text
group_ids groups = map (λ (g : Json). text_of (get (txt "id") g)) groups

unfoldable pub settle_remove : Result Unit × Cache → Rule → FirewallOutcome Unit
settle_remove (failed code, c) rule = record {
  answer = inr (code, write_status code);
  calls = removes rule.id ∷ [];
  audit =
      record {
        group_id = rule.group_id;
        label = rule.label;
        error_code = some code;
        open_to_internet = false;
      }
      ∷ [];
  cache = c;
}
settle_remove (ok _, c) rule = record {
  answer = inl tt;
  calls = removes rule.id ∷ [];
  audit =
      record {
        group_id = rule.group_id;
        label = rule.label;
        error_code = none;
        open_to_internet = false;
      }
      ∷ [];
  cache = c;
}

module _ (digest : Text → Text) (ask : Json → Sent) (ask_delete : Text → Sent) (token : Text) where
  -- The group must be one that the session can see.
  unfoldable pub add_visible : Result (List Json) → RuleRequest → Cache → FirewallOutcome Rule
  add_visible (failed code) r c = turns_down code 502 c
  add_visible (ok groups) r c =
      if member_text r.group_id (group_ids groups)
      then settle_add (create_security_group_rule digest ask token r c) r
      else turns_down not_found 404 c

  unfoldable pub add_with_ports :
      Option (Option ℕ)
      → Option (Option ℕ)
      → Result (List Json)
      → Text
      → AddRule
      → Cache
      → FirewallOutcome Rule
  add_with_ports none last groups group_id q c = turns_down invalid_request 400 c
  add_with_ports (some first) none groups group_id q c = turns_down invalid_request 400 c
  add_with_ports (some first) (some last) groups group_id q c =
      add_visible groups (rule_request group_id q first last) c

  -- `SecurityGroupRuleView.post`; `groups` is the list of the groups that the token can see.
  unfoldable pub add_rule : Result (List Json) → Text → AddRule → Cache → FirewallOutcome Rule
  add_rule groups group_id q c =
      if member_text (direction_of q) (txt "ingress" ∷ txt "egress" ∷ [])
      then add_with_ports (read_port q.port_from) (read_port q.port_to) groups group_id q c
      else turns_down invalid_request 400 c

  unfoldable pub remove_found : Option Rule → Cache → FirewallOutcome Unit
  remove_found none c = turns_down not_found 404 c
  remove_found (some rule) c =
      settle_remove (delete_security_group_rule digest ask_delete token rule.id c) rule

  -- `SecurityGroupRuleDeleteView.delete`; `rules` is the list of the rules that the token can see.
  unfoldable pub remove_rule : Result (List Rule) → Text → Cache → FirewallOutcome Unit
  remove_rule (failed code) rule_id c = turns_down code 502 c
  remove_rule (ok rules) rule_id c =
      remove_found (first_by (λ (r : Rule). text_eq r.id rule_id) rules) c

-- `_token`, before each
unfoldable pub with_token :
    {A : Type 0} → Option Text → (Text → FirewallOutcome A) → Cache → FirewallOutcome A
with_token none view c = turns_down session_expired 401 c
with_token (some token) view c =
    if nonempty token then view token else turns_down session_expired 401 c
