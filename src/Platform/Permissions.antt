-- ===== src/Platform/Permissions.antt =====
-- apps/platform_admin/permissions.py and the session authentication of authentication.py.
use opencloud_backend.Base.{
  ◌≡◌, Bool, true, false, ◌&&◌, ◌||◌, Option, none, some, arith, Text, text_eq, first_by, filter_by,
  refl, sym, ap, some_injective, first_by-holds, and-true_left, and-true_right, ==_iff,
  Option-cases, inl, inr, none≢some, not, ltb, ◌==◌,
}
use opencloud_backend.Platform.Model.{owner, PlatformAdmin, can_write, can_bill}
use opencloud_backend.Platform.Login.{World, Session, find_active}

-- `request.user` in this panel: an operator, or anybody else.
pub data Requester : Type 0 where
  operator : PlatformAdmin → Requester
  someone_else : Requester

abbrev pub is_platform_admin : Requester → Bool
is_platform_admin (operator a) = a.is_active
is_platform_admin someone_else = false

abbrev pub operator_with : (PlatformAdmin → Bool) → Requester → Bool
operator_with test (operator a) = is_platform_admin (operator a) && test a
operator_with test someone_else = false

unfoldable pub can_write_platform : Requester → Bool
can_write_platform = operator_with can_write

unfoldable pub can_write_billing : Requester → Bool
can_write_billing = operator_with can_bill

unfoldable pub can_write_or_bill : Requester → Bool
can_write_or_bill = operator_with (λ a. can_write a || can_bill a)

unfoldable pub is_platform_owner : Requester → Bool
is_platform_owner = operator_with (λ a. elim a.role [ owner ↦ true | _ ↦ false ])

-- `PlatformSessionAuthentication.authenticate`, for the cookie's session key: the operator, or nobody
-- and the session flushed if its operator is no longer active.
unfoldable pub authenticate : Text → World → Requester × World
authenticate key w =
    elim (first_by (λ (s : Session). text_eq s.key key && ltb w.now s.expires) w.sessions) [
      | none ↦ (someone_else, w)
      | some s ↦ elim (find_active s.admin_id w) [
        | none ↦ (
          someone_else,
          record w { sessions = filter_by (λ (t : Session). not (text_eq t.key key)) w.sessions },
        )
        | some a ↦ (operator a, w)
      ]
    ]

-- The owner's permission is the two others together, the shared one is either of them, and none is
-- given to a blocked operator or to anybody who is not an operator of the panel.
permissions_agree :
    (r : Requester)
    → (is_platform_owner r ≡ (can_write_platform r && can_write_billing r))
      × (can_write_or_bill r ≡ (can_write_platform r || can_write_billing r))
      × (can_write_or_bill r ≡ (is_platform_admin r && can_write_or_bill r))
unfolding can_write_platform can_write_billing can_write_or_bill is_platform_owner
permissions_agree (operator a) = ground arith
permissions_agree someone_else = (refl, refl, refl)

who : Requester → Option PlatformAdmin
who (operator a) = some a
who someone_else = none

-- The operator of a request has a session under the cookie's key that is not over, is active now,
-- and is the one the session was opened for; every other request has no operator.
pub authenticate_operator :
    (key : Text) (w : World) (a : PlatformAdmin)
    → (authenticate key w).0 ≡ operator a
    → (a.is_active ≡ true)
      × ((s : Session) × (text_eq s.key key ≡ true)
          × (ltb w.now s.expires ≡ true)
          × (s.admin_id ≡ a.pk))
unfolding authenticate who
authenticate_operator key w a h =
    let alive : Session → Bool = (λ s. text_eq s.key key && ltb w.now s.expires) in
    elim (Option-cases (first_by alive w.sessions)) [
      | inl e ↦ absurd (none≢some (ap who (rw (e, authenticate) at h)))
      | inr (s, e) ↦ elim (Option-cases (find_active s.admin_id w)) [
        | inl f ↦ absurd (none≢some (ap who (rw (f, authenticate) at (rw (e, authenticate) at h))))
        | inr (b, f) ↦
            let same : b ≡ a =
              some_injective (ap who (rw (f, authenticate) at (rw (e, authenticate) at h))) in
            let found = first_by-holds alive w.sessions e in
            let active =
              first_by-holds (λ (c : PlatformAdmin). c.pk == s.admin_id && c.is_active) w.admins
                f in
            rw (← same) (
              and-true_right (b.pk == s.admin_id) b.is_active active,
              (
                s,
                and-true_left (text_eq s.key key) (ltb w.now s.expires) found,
                and-true_right (text_eq s.key key) (ltb w.now s.expires) found,
                sym (
                    (==_iff b.pk s.admin_id).0
                      (and-true_left (b.pk == s.admin_id) b.is_active active)),
              ),
            )
      ]
    ]
