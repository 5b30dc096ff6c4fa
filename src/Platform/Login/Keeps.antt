-- ===== src/Platform/Login/Keeps.antt =====
-- What each step of the login keeps: a property of the operators behind every ticket and session.
use opencloud_backend.Base.{
  ℕ, ◌≡◌, refl, true, false, ◌&&◌, not, some, All, arith, Text, text_eq, lower, strip,
  filter_by-All, first_by-All, first_by-holds, ltb, ◌==◌, ==_iff, Bool-cases, Option-cases, inl,
  inr, is_some, nonempty, none≢some, and-true_left,
}
use opencloud_backend.Platform.Model.{
  PlatformAdmin, is_locked, check_password, uses_access_code, check_access_code,
}
use opencloud_backend.Platform.Login.{
  External, Fresh, Ticket, World, Session, find_email, find_active, load, revoke, login,
  login_verify, check_operator, check_ticket, check_factor, check_totp, finish, enroll,
  open_second_step, fail_attempt, issue, record_action, verify, ErrorCode, bad_totp,
  bad_access_code, bad_password,
}
use opencloud_backend.Platform.Login.Factors.{secret_of}

-- A property of the operators that the tickets and the sessions of the world stand for.
abbrev pub Holds : (ℕ → Type 0) → World → Type 0
Holds P w =
    All (λ (t : Ticket). P t.admin_id) w.tickets × All (λ (s : Session). P s.admin_id) w.sessions

module _ (P : ℕ → Type 0) (x : External) (fresh : Fresh) where
  revoke-Holds : (ticket : Text) (w : World) → Holds P w → Holds P (revoke ticket w)
  unfolding revoke
  revoke-Holds ticket w h = (
    filter_by-All (λ (t : Ticket). P t.admin_id) (λ t. not (text_eq t.ticket ticket)) w.tickets h.0,
    h.1,
  )

  fail_attempt-Holds :
      (a : PlatformAdmin) (e : ErrorCode) (w : World) → Holds P w → Holds P (fail_attempt a e w)
  unfolding fail_attempt record_action
  fail_attempt-Holds a e w h = h

  finish-Holds :
      (ticket : Text) (a : PlatformAdmin) (w : World)
      → P a.pk
      → Holds P w
      → Holds P (finish x fresh ticket a w).1
  unfolding finish record_action
  finish-Holds ticket a w p h = let r = revoke-Holds ticket w h in (r.0, (p, r.1))

  pub verify_keeps :
      (secret code : Text) (pk : ℕ) (w : World)
      → ((verify x secret code pk w).1.tickets ≡ w.tickets)
        × ((verify x secret code pk w).1.sessions ≡ w.sessions)
  unfolding verify
  verify_keeps secret code pk w = ground arith

  verify-Holds :
      (secret code : Text) (pk : ℕ) (w : World) → Holds P w → Holds P (verify x secret code pk w).1
  verify-Holds secret code pk w h = let k = verify_keeps secret code pk w in rw (k.0, k.1) h

  enroll-Holds : (s : Text) (a : PlatformAdmin) (w : World) → Holds P w → Holds P (enroll x s a w).1
  unfolding enroll record_action
  enroll-Holds s a w h = h

  enroll-pk : (s : Text) (a : PlatformAdmin) (w : World) → (enroll x s a w).0.pk ≡ a.pk
  unfolding enroll
  enroll-pk s a w = refl

  check_totp-Holds :
      (ticket code : Text) (payload : Ticket) (a : PlatformAdmin) (w : World)
      → P a.pk
      → Holds P w
      → Holds P (check_totp x fresh ticket code payload a w).1
  unfolding check_totp
  check_totp-Holds ticket code payload a w p h = elim (Option-cases (secret_of x payload a)) [
    | inl e ↦ rw (e, check_totp) (fail_attempt-Holds a bad_totp w h)
    | inr (s, e) ↦
        let w' = (verify x s code a.pk w).1 in
        let h' : Holds P w' = verify-Holds s code a.pk w h in
        elim (Bool-cases (verify x s code a.pk w).0) [
          | inl v ↦ elim (Bool-cases payload.enrolling) [
            | inl g ↦
                rw (e, check_totp, v, g)
                  (finish-Holds ticket (enroll x s a w').0 (enroll x s a w').1
                    (rw (enroll-pk s a w') p) (enroll-Holds s a w' h'))
            | inr g ↦ rw (e, check_totp, v, g) (finish-Holds ticket a w' p h')
          ]
          | inr v ↦ rw (e, check_totp, v) (fail_attempt-Holds a bad_totp w' h')
        ]
  ]

  check_factor-Holds :
      (ticket code : Text) (payload : Ticket) (a : PlatformAdmin) (w : World)
      → P a.pk
      → Holds P w
      → Holds P (check_factor x fresh ticket code payload a w).1
  unfolding check_factor
  check_factor-Holds ticket code payload a w p h =
      elim (Bool-cases (uses_access_code x.hashers a)) [
        | inl e ↦ elim (Bool-cases (check_access_code x.hashers a code)) [
          | inl c ↦ rw (check_factor, e, c) (finish-Holds ticket a w p h)
          | inr c ↦ rw (check_factor, e, c) (fail_attempt-Holds a bad_access_code w h)
        ]
        | inr e ↦ rw (check_factor, e) (check_totp-Holds ticket code payload a w p h)
      ]

  pub find_active-pk :
      (pk : ℕ) (w : World) {a : PlatformAdmin} → find_active pk w ≡ some a → a.pk ≡ pk
  find_active-pk pk w {a = a} f = (==_iff a.pk pk).0 (
      and-true_left (a.pk == pk) a.is_active
        (first_by-holds (λ (a : PlatformAdmin). a.pk == pk && a.is_active) w.admins f))

  check_ticket-Holds :
      (ticket code : Text) (payload : Ticket) (w : World)
      → P payload.admin_id
      → Holds P w
      → Holds P (check_ticket x fresh ticket code payload w).1
  unfolding check_ticket record_action
  check_ticket-Holds ticket code payload w p h =
      elim (Option-cases (find_active payload.admin_id w)) [
        | inl e ↦ rw (check_ticket, e) (revoke-Holds ticket w h)
        | inr (a, e) ↦ elim (Bool-cases (is_locked w.now a)) [
          | inl l ↦ rw (check_ticket, e, l) (revoke-Holds ticket w h)
          | inr l ↦
              rw (check_ticket, e, l)
                (check_factor-Holds ticket code payload a w
                  (rw (find_active-pk payload.admin_id w e) p) h)
        ]
      ]

  load-Holds :
      (ticket : Text) (w : World) {t : Ticket} → Holds P w → load ticket w ≡ some t → P t.admin_id
  unfolding load
  load-Holds ticket w h e = elim (Bool-cases (nonempty ticket)) [
    | inl n ↦
        first_by-All (λ (t : Ticket). P t.admin_id)
          (λ t. text_eq t.ticket ticket && ltb w.now t.expires) w.tickets h.0 (rw (load, n) at e)
    | inr n ↦ absurd (none≢some (rw (load, n) at e))
  ]

  pub login_verify-Holds :
      (raw_ticket raw_code : Text) (w : World)
      → Holds P w
      → Holds P (login_verify x fresh raw_ticket raw_code w).1
  unfolding login_verify
  login_verify-Holds raw_ticket raw_code w h = elim (Option-cases (load (strip raw_ticket) w)) [
    | inl e ↦ rw (login_verify, e) h
    | inr (payload, e) ↦
        rw (login_verify, e)
          (check_ticket-Holds (strip raw_ticket) (strip raw_code) payload w
            (load-Holds (strip raw_ticket) w h e) h)
  ]

  open_second_step-Holds :
      (a : PlatformAdmin) (w : World)
      → P a.pk
      → Holds P w
      → Holds P (open_second_step x fresh a w).1
  unfolding open_second_step issue
  open_second_step-Holds a w p h = elim (Bool-cases (uses_access_code x.hashers a)) [
    | inl e ↦ rw (open_second_step, e) ((p, h.0), h.1)
    | inr e ↦ elim (Bool-cases (is_some a.totp_confirmed_at && nonempty a.totp_secret)) [
      | inl c ↦ rw (open_second_step, e, c) ((p, h.0), h.1)
      | inr c ↦ rw (open_second_step, e, c) ((p, h.0), h.1)
    ]
  ]

  check_operator-Holds :
      (password : Text) (a : PlatformAdmin) (w : World)
      → (a.is_active ≡ true
          → is_locked w.now a ≡ false
          → check_password x.hashers a password ≡ true
          → P a.pk)
      → Holds P w
      → Holds P (check_operator x fresh password a w).1
  unfolding check_operator record_action
  check_operator-Holds password a w given h = elim (Bool-cases a.is_active) [
    | inr e ↦ simp (check_operator, e) h
    | inl e ↦ elim (Bool-cases (is_locked w.now a)) [
      | inl l ↦ simp (check_operator, e, l) h
      | inr l ↦ elim (Bool-cases (check_password x.hashers a password)) [
        | inr c ↦ simp (check_operator, e, l, c) (fail_attempt-Holds a bad_password w h)
        | inl c ↦ simp (check_operator, e, l, c) (open_second_step-Holds a w (given e l c) h)
      ]
    ]
  ]

  pub login-Holds :
      (raw_email password : Text) (w : World)
      → ((a : PlatformAdmin)
          → find_email (lower (strip raw_email)) w ≡ some a
          → a.is_active ≡ true
          → is_locked w.now a ≡ false
          → check_password x.hashers a password ≡ true
          → P a.pk)
      → Holds P w
      → Holds P (login x fresh raw_email password w).1
  unfolding login record_action
  login-Holds raw_email password w given h =
      elim (Option-cases (find_email (lower (strip raw_email)) w)) [
        | inl e ↦ rw (login, e) h
        | inr (a, e) ↦ rw (login, e) (check_operator-Holds password a w (given a e) h)
      ]
