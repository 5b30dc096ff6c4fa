-- ===== src/Platform/Login/Factors.antt =====
-- The second step is the only place where a session begins, and only with the second factor.
use opencloud_backend.Base.{
  ◌≡◌, true, false, Option, none, some, Text, strip, Bool-cases, Option-cases, inl, inr, ◌⊎◌,
  if◌then◌else◌,
}
use opencloud_backend.Platform.Model.{PlatformAdmin, is_locked, uses_access_code, check_access_code}
use opencloud_backend.Platform.Login.{
  External, Fresh, Ticket, World, Answer, signed_in, find_active, load, login_verify, check_ticket,
  check_factor, check_totp, check_totp, verify, decrypt_stored,
}

-- The secret that a code is checked against: the ticket's while it enrols, else the operator's.
abbrev pub secret_of : External → Ticket → PlatformAdmin → Option Text
secret_of x payload a =
    if payload.enrolling
    then elim payload.pending_secret [ none ↦ none | some s ↦ decrypt_stored x s ]
    else decrypt_stored x a.totp_secret

-- The access code where the operator has one, else a code of the secret that the ticket asks for.
abbrev pub PassesFactor : External → Text → Ticket → PlatformAdmin → World → Type 0
PassesFactor x code payload a w =
    ((uses_access_code x.hashers a ≡ true) × (check_access_code x.hashers a code ≡ true))
    ⊎ ((uses_access_code x.hashers a ≡ false)
        × ((s : Text) × (secret_of x payload a ≡ some s) × ((verify x s code a.pk w).0 ≡ true)))

abbrev pub IsSignedIn : Answer → Type 0
IsSignedIn (signed_in pk) = Unit
IsSignedIn _ = ⊥

check_totp-factor :
    (x : External) (fresh : Fresh) (ticket code : Text) (payload : Ticket) (a : PlatformAdmin)
    (w : World)
    → IsSignedIn (check_totp x fresh ticket code payload a w).0
    → (s : Text) × (secret_of x payload a ≡ some s) × ((verify x s code a.pk w).0 ≡ true)
unfolding check_totp
check_totp-factor x fresh ticket code payload a w h = elim (Option-cases (secret_of x payload a)) [
  | inl e ↦ absurd (rw (e, check_totp) at h)
  | inr (s, e) ↦ elim (Bool-cases (verify x s code a.pk w).0) [
    | inl v ↦ (s, e, v)
    | inr v ↦ absurd (rw v at (rw (e, check_totp) at h))
  ]
]

check_factor-factor :
    (x : External) (fresh : Fresh) (ticket code : Text) (payload : Ticket) (a : PlatformAdmin)
    (w : World)
    → IsSignedIn (check_factor x fresh ticket code payload a w).0
    → PassesFactor x code payload a w
unfolding check_factor
check_factor-factor x fresh ticket code payload a w h =
    elim (Bool-cases (uses_access_code x.hashers a)) [
      | inl e ↦ elim (Bool-cases (check_access_code x.hashers a code)) [
        | inl c ↦ inl (e, c)
        | inr c ↦ absurd (simp (e, c) at h)
      ]
      | inr e ↦ inr (e, check_totp-factor x fresh ticket code payload a w (simp e at h))
    ]

-- Who signs in at the second step holds a ticket that is alive, of an operator who is active and not
-- locked. Where the operator has an access code now, it was given; else a code of a secret was: for a
-- ticket that enrols, of the secret that the ticket was issued with, also where the operator has
-- confirmed another since, and for any other ticket of the secret that the operator has now.
pub login_verify-factor :
    (x : External) (fresh : Fresh) (raw_ticket raw_code : Text) (w : World)
    → IsSignedIn (login_verify x fresh raw_ticket raw_code w).0
    → (payload : Ticket) × (a : PlatformAdmin) × (load (strip raw_ticket) w ≡ some payload)
      × (find_active payload.admin_id w ≡ some a)
      × (is_locked w.now a ≡ false)
      × PassesFactor x (strip raw_code) payload a w
unfolding login_verify check_ticket
login_verify-factor x fresh raw_ticket raw_code w h =
    elim (Option-cases (load (strip raw_ticket) w)) [
      | inl e ↦ absurd (rw (e, login_verify) at h)
      | inr (payload, e) ↦
          let h' : IsSignedIn
              (check_ticket x fresh (strip raw_ticket) (strip raw_code) payload w).0 =
            rw (e, login_verify) at h in
          elim (Option-cases (find_active payload.admin_id w)) [
            | inl f ↦ absurd (rw (f, check_ticket) at h')
            | inr (a, f) ↦ elim (Bool-cases (is_locked w.now a)) [
              | inl l ↦ absurd (simp l at (rw (f, check_ticket) at h'))
              | inr l ↦ (
                payload,
                a,
                e,
                f,
                l,
                check_factor-factor x fresh (strip raw_ticket) (strip raw_code) payload a w
                    (simp l at (rw (f, check_ticket) at h')),
              )
            ]
          ]
    ]
