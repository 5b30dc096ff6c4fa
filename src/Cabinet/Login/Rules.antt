-- ===== src/Cabinet/Login/Rules.antt =====
-- When a login of the cabinet begins a session, and what a login that does not leaves alone.
use opencloud_backend.Base.{
  ◌≡◌, ◌⊎◌, refl, sym, ◌∙◌, ap, Bool, true, false, ◌&&◌, Option, none, some, Text, nonempty, strip,
  Bool-cases, inl, inr, false≢true,
}
use opencloud_backend.Base.Dict.{lookup}
use opencloud_backend.Zadara.Http.{ErrorCode, mfa_required}
use opencloud_backend.Cabinet.Vault.{Fernet, Ticket, load}
use opencloud_backend.Cabinet.Login.{
  Grant, Refusal, SignIn, granted, denied, Cloud, User, World, Me, Answer, shown, user_of,
  upsert_user, LoginRequest, Fresh, Step, answered, goes_on, refuse, settle_password, settle_totp,
  same_name, complete_mfa, first_step, final_grant, admit, begin, finish, login,
}

-- The answer begins a session.
abbrev pub begins : Answer → Bool
begins (shown me) = true
begins _ = false

-- The cloud has accepted this request: its password, or, with a ticket that is alive and was issued for
-- the same account and name, its code.
abbrev pub IsAccepted : Fernet → Cloud → LoginRequest → World → Grant → Type 0
IsAccepted f cloud q w g =
    ((nonempty (strip q.mfa_token) ≡ false)
      × (cloud.authenticate (strip q.account) (strip q.username) q.password (strip q.project)
            (strip q.mfa_code)
          ≡ granted g))
    ⊎ ((t : Ticket) × (load f w.now (strip q.mfa_token) w.tickets ≡ some t)
        × ((same_name (strip q.account) t.account && same_name (strip q.username) t.username)
            ≡ true)
        × (cloud.authenticate_totp t.account t.username (strip q.mfa_code) t.receipt t.project
            ≡ granted g))

-- What a first half comes to: an answer that begins nothing, or an accepted grant; neither touches the
-- sessions and their tokens.
abbrev pub IsStep : Fernet → Cloud → LoginRequest → World → Step → Type 0
IsStep f cloud q w (answered a v) =
    (begins a ≡ false) × (v.sessions ≡ w.sessions) × (v.tokens ≡ w.tokens)
IsStep f cloud q w (goes_on g v) =
    IsAccepted f cloud q w g × (v.now ≡ w.now) × (v.sessions ≡ w.sessions) × (v.tokens ≡ w.tokens)

module _ (f : Fernet) (cloud : Cloud) (fresh : Fresh) (q : LoginRequest) where
  refuse-IsStep :
      (code : ErrorCode) (e : Refusal) (t : Ticket) (w : World)
      → IsStep f cloud q w (refuse f cloud fresh code e t w)
  unfolding refuse
  refuse-IsStep mfa_required e t w = elim (Bool-cases (nonempty e.receipt)) [
    | inl h ↦ rw h (refl, refl, refl)
    | inr h ↦ rw h (refl, refl, refl)
  ]
  refuse-IsStep code e t w = (refl, refl, refl)

  settle_password-IsStep :
      (w : World)
      → nonempty (strip q.mfa_token) ≡ false
      → (signed : SignIn) (t : Ticket)
      → cloud.authenticate
          (strip q.account)
          (strip q.username)
          q.password
          (strip q.project)
          (strip q.mfa_code)
        ≡ signed
      → IsStep f cloud q w (settle_password f cloud fresh signed t w)
  unfolding settle_password
  settle_password-IsStep w h (granted g) t e = (inl (h, e), refl, refl, refl)
  settle_password-IsStep w h (denied r) t e = refuse-IsStep r.code r t w

  settle_totp-IsStep :
      (w : World) (t : Ticket) (ticket : Text)
      → load f w.now (strip q.mfa_token) w.tickets ≡ some t
      → (same_name (strip q.account) t.account && same_name (strip q.username) t.username) ≡ true
      → (signed : SignIn)
      → cloud.authenticate_totp t.account t.username (strip q.mfa_code) t.receipt t.project ≡ signed
      → IsStep f cloud q w (settle_totp f cloud fresh signed ticket w)
  unfolding settle_totp
  settle_totp-IsStep w t ticket loaded same (granted g) e =
      (inr (t, loaded, same, e), refl, refl, refl)
  settle_totp-IsStep w t ticket loaded same (denied r) e = (refl, refl, refl)

  complete_mfa-IsStep :
      (w : World) (found : Option Ticket)
      → load f w.now (strip q.mfa_token) w.tickets ≡ found
      → IsStep f cloud q w (
          complete_mfa f cloud fresh found
            (strip q.mfa_token)
            (strip q.mfa_code)
            (strip q.account)
            (strip q.username)
            w)
  unfolding complete_mfa
  complete_mfa-IsStep w none e = (refl, refl, refl)
  complete_mfa-IsStep w (some t) e =
      elim (Bool-cases
        (same_name (strip q.account) t.account && same_name (strip q.username) t.username)) [
          | inl same ↦ rw same (settle_totp-IsStep w t (strip q.mfa_token) e same _ refl)
          | inr other ↦ rw other (refl, refl, refl)
        ]

  pub first_step-IsStep : (w : World) → IsStep f cloud q w (first_step f cloud fresh q w)
  unfolding first_step
  first_step-IsStep w = elim (Bool-cases (nonempty (strip q.mfa_token))) [
    | inl h ↦ rw h (complete_mfa-IsStep w _ refl)
    | inr h ↦ rw h (settle_password-IsStep w h _ _ refl)
  ]

  finish-begins :
      (w : World) (step : Step) (me : Me)
      → IsStep f cloud q w step
      → (finish f cloud fresh q step).0 ≡ shown me
      → (g : Grant) × IsAccepted f cloud q w g
  unfolding finish
  finish-begins w (answered a v) me h e = absurd (false≢true (sym h.0 ∙ ap begins e))
  finish-begins w (goes_on g v) me h e = (g, h.0)

  admit_quiet :
      (stop : Bool) (u : User) (g : Grant) (w : World)
      → begins (admit f cloud fresh stop u g w).0 ≡ false
      → ((admit f cloud fresh stop u g w).1.sessions ≡ w.sessions)
        × ((admit f cloud fresh stop u g w).1.tokens ≡ w.tokens)
  unfolding admit
  admit_quiet true u g w h = (refl, refl)
  admit_quiet false u g w h = absurd (false≢true (sym h))

  begin_quiet :
      (g : Grant) (w : World)
      → begins (begin f cloud fresh g w).0 ≡ false
      → ((begin f cloud fresh g w).1.sessions ≡ w.sessions)
        × ((begin f cloud fresh g w).1.tokens ≡ w.tokens)
  unfolding begin upsert_user
  begin_quiet g w h = admit_quiet _ (user_of g (lookup g.identity.user_id w.users)) g _ h

  finish_quiet :
      (w : World) (step : Step)
      → IsStep f cloud q w step
      → begins (finish f cloud fresh q step).0 ≡ false
      → ((finish f cloud fresh q step).1.sessions ≡ w.sessions)
        × ((finish f cloud fresh q step).1.tokens ≡ w.tokens)
  unfolding finish
  finish_quiet w (answered a v) h e = (h.1, h.2)
  finish_quiet w (goes_on g v) h e =
      let (kept, held) = begin_quiet (final_grant f cloud fresh q g.scope g) v e in
      (kept ∙ h.2, held ∙ h.3)

-- A login begins a session only for a request that the cloud has accepted: by the password, or by the code
-- and a ticket that is alive and was issued for the same account and name.
pub login-IsAccepted :
    (f : Fernet) (cloud : Cloud) (fresh : Fresh) (q : LoginRequest) (w : World) (me : Me)
    → (login f cloud fresh q w).0 ≡ shown me
    → (g : Grant) × IsAccepted f cloud q w g
unfolding login
login-IsAccepted f cloud fresh q w me h =
    finish-begins f cloud fresh q w (first_step f cloud fresh q w) me
      (first_step-IsStep f cloud fresh q w) h

-- A login with any other answer, a challenge, a refusal or that the user is blocked, leaves the sessions
-- and the tokens as they were.
pub login_quiet :
    (f : Fernet) (cloud : Cloud) (fresh : Fresh) (q : LoginRequest) (w : World)
    → begins (login f cloud fresh q w).0 ≡ false
    → let after = (login f cloud fresh q w).1 in
      (after.sessions ≡ w.sessions) × (after.tokens ≡ w.tokens)
unfolding login
login_quiet f cloud fresh q w h =
    finish_quiet f cloud fresh q w (first_step f cloud fresh q w)
      (first_step-IsStep f cloud fresh q w) h
