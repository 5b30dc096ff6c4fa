-- ===== src/Cabinet/Networks/Visible.antt =====
-- Which groups a rule is added to.
use opencloud_backend.Base.{
  ℕ, true, ◌≡◌, refl, Option, none, some, List, [], ◌∷◌, All, Text, txt, member_text, Bool-cases,
  inl, inr,
}
use opencloud_backend.Base.Json.{Json}
use opencloud_backend.Zadara.Http.{Sent}
use opencloud_backend.Zadara.Cache.{Result, ok, failed, Cache}
use opencloud_backend.Zadara.Rules.{Rule, RuleRequest, create_security_group_rule}
use opencloud_backend.Cabinet.Networks.Firewall.{
  FirewallCall, adds, removes, AddRule, direction_of, read_port, rule_request, group_ids,
  settle_add, add_visible, add_with_ports, add_rule,
}

-- A call changes what the session can see, and what it was asked to change.
abbrev pub IsVisible : Result (List Json) → Text → FirewallCall → Type 0
IsVisible groups group_id (adds r) =
    (seen : List Json) × (groups ≡ ok seen)
    × (member_text r.group_id (group_ids seen) ≡ true)
    × (r.group_id ≡ group_id)
IsVisible groups group_id (removes rule_id) = ⊥

settle_add-IsVisible :
    (groups : Result (List Json)) (group_id : Text) (made : Result Rule) (c : Cache)
    (r : RuleRequest)
    → IsVisible groups group_id (adds r)
    → All (IsVisible groups group_id) (settle_add (made, c) r).calls
unfolding settle_add
settle_add-IsVisible groups group_id (failed code) c r seen = (seen, tt)
settle_add-IsVisible groups group_id (ok rule) c r seen = (seen, tt)

module _ (digest : Text → Text) (ask : Json → Sent) (ask_delete : Text → Sent) (token : Text) where
  add_visible-IsVisible :
      (groups : Result (List Json)) (r : RuleRequest) (c : Cache)
      → All (IsVisible groups r.group_id) (add_visible digest ask ask_delete token groups r c).calls
  unfolding add_visible
  add_visible-IsVisible (failed code) r c = tt
  add_visible-IsVisible (ok groups) r c =
      elim (Bool-cases (member_text r.group_id (group_ids groups))) [
        | inl e ↦
            let made = create_security_group_rule digest ask token r c in
            rw e
              (settle_add-IsVisible (ok groups) r.group_id made.0 made.1 r (groups, refl, e, refl))
        | inr e ↦ rw e tt
      ]

  add_with_ports-IsVisible :
      (first last : Option (Option ℕ)) (groups : Result (List Json)) (group_id : Text) (q : AddRule)
      (c : Cache)
      → All
          (IsVisible groups group_id)
          (add_with_ports digest ask ask_delete token first last groups group_id q c).calls
  unfolding add_with_ports rule_request
  add_with_ports-IsVisible none last groups group_id q c = tt
  add_with_ports-IsVisible (some first) none groups group_id q c = tt
  add_with_ports-IsVisible (some first) (some last) groups group_id q c =
      add_visible-IsVisible groups (rule_request group_id q first last) c

  -- The cloud is asked to add a rule only to the group that was named, and only where the session sees it.
  pub add_rule-IsVisible :
      (groups : Result (List Json)) (group_id : Text) (q : AddRule) (c : Cache)
      → All
          (IsVisible groups group_id)
          (add_rule digest ask ask_delete token groups group_id q c).calls
  unfolding add_rule
  add_rule-IsVisible groups group_id q c =
      elim (Bool-cases (member_text (direction_of q) (txt "ingress" ∷ txt "egress" ∷ []))) [
        | inl e ↦ rw e (
            add_with_ports-IsVisible (read_port q.port_from) (read_port q.port_to) groups group_id q
              c)
        | inr e ↦ rw e tt
      ]
