-- ===== src/Platform/Login/Tickets.antt =====
-- A ticket signs in once.
use opencloud_backend.Base.{
  ◌≡◌, refl, ◌∙◌, ◌&&◌, not, none, Text, text_eq, strip, first_by-filter_by, ltb, Bool-cases,
  Option-cases, inl, inr, nonempty, and-true_left,
}
use opencloud_backend.Platform.Model.{PlatformAdmin, is_locked, uses_access_code, check_access_code}
use opencloud_backend.Platform.Login.{
  External, Fresh, Ticket, World, find_active, load, revoke, login_verify, check_ticket,
  check_factor, check_totp, finish, enroll, record_action, verify, refused, mfa_expired,
}
use opencloud_backend.Platform.Login.Factors.{secret_of, IsSignedIn}
use opencloud_backend.Platform.Login.Keeps.{verify_keeps}

-- The tickets left are those that the revocation left.
abbrev IsRevoked : Text → World → World → Type 0
IsRevoked ticket w after = after.tickets ≡ (revoke ticket w).tickets

module _ (x : External) (fresh : Fresh) (ticket code : Text) where
  finish-IsRevoked :
      (a : PlatformAdmin) (w w' : World)
      → w'.tickets ≡ w.tickets
      → IsRevoked ticket w (finish x fresh ticket a w').1
  unfolding finish revoke record_action
  finish-IsRevoked a w w' same = rw same refl

  enroll-tickets :
      (s : Text) (a : PlatformAdmin) (w : World) → (enroll x s a w).1.tickets ≡ w.tickets
  unfolding enroll record_action
  enroll-tickets s a w = refl

  check_totp-IsRevoked :
      (payload : Ticket) (a : PlatformAdmin) (w : World)
      → IsSignedIn (check_totp x fresh ticket code payload a w).0
      → IsRevoked ticket w (check_totp x fresh ticket code payload a w).1
  unfolding check_totp
  check_totp-IsRevoked payload a w h = elim (Option-cases (secret_of x payload a)) [
    | inl e ↦ absurd (rw (e, check_totp) at h)
    | inr (s, e) ↦ elim (Bool-cases (verify x s code a.pk w).0) [
      | inr v ↦ absurd (rw v at (rw (e, check_totp) at h))
      | inl v ↦
          let w' = (verify x s code a.pk w).1 in
          let same = (verify_keeps (λ _. Unit) x fresh s code a.pk w).0 in
          elim (Bool-cases payload.enrolling) [
            | inl g ↦
                rw (e, check_totp, v, g)
                  (finish-IsRevoked (enroll x s a w').0 w (enroll x s a w').1
                    (enroll-tickets s a w' ∙ same))
            | inr g ↦ rw (e, check_totp, v, g) (finish-IsRevoked a w w' same)
          ]
    ]
  ]

  check_factor-IsRevoked :
      (payload : Ticket) (a : PlatformAdmin) (w : World)
      → IsSignedIn (check_factor x fresh ticket code payload a w).0
      → IsRevoked ticket w (check_factor x fresh ticket code payload a w).1
  unfolding check_factor
  check_factor-IsRevoked payload a w h = elim (Bool-cases (uses_access_code x.hashers a)) [
    | inl e ↦ elim (Bool-cases (check_access_code x.hashers a code)) [
      | inl c ↦ rw (check_factor, e, c) (finish-IsRevoked a w w refl)
      | inr c ↦ absurd (simp (e, c) at h)
    ]
    | inr e ↦ rw (check_factor, e) (check_totp-IsRevoked payload a w (simp e at h))
  ]

  check_ticket-IsRevoked :
      (payload : Ticket) (w : World)
      → IsSignedIn (check_ticket x fresh ticket code payload w).0
      → IsRevoked ticket w (check_ticket x fresh ticket code payload w).1
  unfolding check_ticket
  check_ticket-IsRevoked payload w h = elim (Option-cases (find_active payload.admin_id w)) [
    | inl e ↦ absurd (rw (e, check_ticket) at h)
    | inr (a, e) ↦ elim (Bool-cases (is_locked w.now a)) [
      | inl l ↦ absurd (simp l at (rw (e, check_ticket) at h))
      | inr l ↦
          rw (check_ticket, e, l)
            (check_factor-IsRevoked payload a w (simp l at (rw (e, check_ticket) at h)))
    ]
  ]

load-revoked : (ticket : Text) (w w' : World) → IsRevoked ticket w w' → load ticket w' ≡ none
unfolding load revoke
load-revoked ticket w w' same = elim (Bool-cases (nonempty ticket)) [
  | inr n ↦ rw (load, n) refl
  | inl n ↦
      rw (load, n, same)
        (first_by-filter_by (λ (t : Ticket). text_eq t.ticket ticket && ltb w'.now t.expires)
          (λ t. not (text_eq t.ticket ticket)) w.tickets
          (λ t f. rw (and-true_left (text_eq t.ticket ticket) (ltb w'.now t.expires) f) refl))
]

login_verify-IsRevoked :
    (x : External) (fresh : Fresh) (ticket code : Text) (w : World)
    → IsSignedIn (login_verify x fresh ticket code w).0
    → IsRevoked (strip ticket) w (login_verify x fresh ticket code w).1
unfolding login_verify
login_verify-IsRevoked x fresh ticket code w h = elim (Option-cases (load (strip ticket) w)) [
  | inl e ↦ absurd (rw (e, login_verify) at h)
  | inr (payload, e) ↦
      rw (login_verify, e)
        (check_ticket-IsRevoked x fresh (strip ticket) (strip code) payload w
          (rw (e, login_verify) at h))
]

-- A ticket that has signed an operator in is spent: from then on, while no ticket is added, a request
-- with it is refused as expired and changes nothing, with any code and at any time.
pub login_verify_once :
    (x : External) (fresh : Fresh) (ticket code : Text) (w : World)
    → IsSignedIn (login_verify x fresh ticket code w).0
    → (fresh' : Fresh) (code' : Text) (w' : World)
    → w'.tickets ≡ (login_verify x fresh ticket code w).1.tickets
    → login_verify x fresh' ticket code' w' ≡ (refused mfa_expired, w')
unfolding login_verify
login_verify_once x fresh ticket code w h fresh' code' w' same =
    let spent : load (strip ticket) w' ≡ none =
      load-revoked (strip ticket) w w' (same ∙ login_verify-IsRevoked x fresh ticket code w h) in
    rw (login_verify, spent) refl
