-- ===== src/Cabinet/Login/Sessions.antt =====
-- The session that a login of the cabinet begins, and its token.
use opencloud_backend.Base.{
  ℕ, ◌+◌, ◌<◌, ◌≡◌, refl, sym, ◌∙◌, ap, arith, ◌≢◌, ◌⊎◌, Option, none, Text, txt, text_eq,
  text_eq_iff, Bool-cases, inl, inr, Bool, true, false, some, text_eq_refl, false≢true,
}
use opencloud_backend.Base.Dict.{Dict, lookup, insert, lookup-insert}
use opencloud_backend.Cabinet.Vault.{Fernet, IsFernet, drop, get_token, token_ttl, get_token-store}
use opencloud_backend.Cabinet.Login.{
  Grant, Cloud, User, World, Me, shown, user_of, upsert_user, session_of, me_payload, LoginRequest,
  Fresh, Step, answered, goes_on, first_step, final_grant, admit, begin, finish, login, Session,
  browser_session, keep_session, start_session,
}
use opencloud_backend.Cabinet.Login.Rules.{begins, IsStep, first_step-IsStep}

-- The session of that name has the scope of the grant, and the vault has its token under the other.
abbrev pub Holds : Fernet → ℕ → Grant → World → Text → Text → Type 0
Holds f later g w name vault_name =
    (lookup name w.sessions ≡ some (session_of g))
    × (get_token f later vault_name w.tokens ≡ some g.token)

-- What the browser has then, by the session it came with.
abbrev pub HasSession : Fernet → Fresh → ℕ → Grant → World → Option (Text × Session) → Type 0
HasSession f fresh later g w none = Holds f later g w fresh.session_key fresh.session_key
HasSession f fresh later g w (some (key, old)) =
    ((old.user_id ≡ g.identity.user_id) × Holds f later g w key key)
    ⊎ ((old.user_id ≢ g.identity.user_id) × Holds f later g w fresh.session_key (txt "None"))

abbrev pub IsBegun : Fernet → Fresh → World → ℕ → Me → World → Type 0
IsBegun f fresh before later me w =
    (g : Grant) × (u : User) × (lookup g.identity.user_id w.users ≡ some u)
    × (u.is_blocked ≡ false)
    × (me ≡ me_payload u (session_of g))
    × HasSession f fresh later g w (browser_session fresh.old_session before.sessions)

shown_injective : {a b : Me} → shown a ≡ shown b → a ≡ b
shown_injective h = cc

module _ (f : Fernet) (cloud : Cloud) (fresh : Fresh) (fernet : IsFernet f) where
  keep_session-Holds :
      (name vault_name : Text) (g : Grant) (sessions : Dict Session) (w : World) (later : ℕ)
      → later < w.now + token_ttl
      → Holds f later g (keep_session f cloud fresh name vault_name g sessions w) name vault_name
  unfolding keep_session
  keep_session-Holds name vault_name g sessions w later h = (
    rw (lookup-insert name name (session_of g) sessions, text_eq_refl name) refl,
    get_token-store f w.now later vault_name g.token w.tokens fernet h,
  )

  start_session-HasSession :
      (browser : Option (Text × Session)) (g : Grant) (w : World) (later : ℕ)
      → later < w.now + token_ttl
      → HasSession f fresh later g (start_session f cloud fresh browser g w) browser
  unfolding start_session
  start_session-HasSession none g w later h =
      keep_session-Holds fresh.session_key fresh.session_key g w.sessions w later h
  start_session-HasSession (some (key, old)) g w later h =
      elim (Bool-cases (text_eq old.user_id g.identity.user_id)) [
        | inl e ↦ inl (
          (text_eq_iff old.user_id g.identity.user_id).0 e,
          rw e (keep_session-Holds key key g w.sessions w later h),
        )
        | inr e ↦ inr (
          (λ same. false≢true (sym e ∙ (text_eq_iff old.user_id g.identity.user_id).1 same)),
          rw e
              (keep_session-Holds fresh.session_key (txt "None") g (drop key w.sessions) w later h),
        )
      ]

  start_session-users :
      (browser : Option (Text × Session)) (g : Grant) (w : World)
      → (start_session f cloud fresh browser g w).users ≡ w.users
  unfolding start_session keep_session
  start_session-users none g w = refl
  start_session-users (some (key, old)) g w = ground arith

  admit-IsBegun :
      (stop : Bool) (u : User) (g : Grant) (before w : World) (later : ℕ) (me : Me)
      → w.sessions ≡ before.sessions
      → stop ≡ u.is_blocked
      → lookup g.identity.user_id w.users ≡ some u
      → later < w.now + token_ttl
      → (admit f cloud fresh stop u g w).0 ≡ shown me
      → IsBegun f fresh before later me (admit f cloud fresh stop u g w).1
  unfolding admit
  admit-IsBegun true u g before w later me kept b row h e = absurd (false≢true (ap begins e))
  admit-IsBegun false u g before w later me kept b row h e =
      let browser = browser_session fresh.old_session w.sessions in
      (
        g,
        u,
        rw (start_session-users browser g w) row,
        sym b,
        sym (shown_injective e),
        rw (← kept) (start_session-HasSession browser g w later h),
      )

  begin-IsBegun :
      (g : Grant) (before w : World) (later : ℕ) (me : Me)
      → w.sessions ≡ before.sessions
      → later < w.now + token_ttl
      → (begin f cloud fresh g w).0 ≡ shown me
      → IsBegun f fresh before later me (begin f cloud fresh g w).1
  unfolding begin upsert_user user_of
  begin-IsBegun g before w later me kept h e =
      let u = user_of g (lookup g.identity.user_id w.users) in
      admit-IsBegun u.is_blocked u g before (record w { users = insert u.zadara_user_id u w.users })
        later me kept refl
        (rw
          (
            lookup-insert g.identity.user_id g.identity.user_id u w.users,
            text_eq_refl g.identity.user_id,
          )
          refl)
        h e

  finish-IsBegun :
      (q : LoginRequest) (w : World) (step : Step) (later : ℕ) (me : Me)
      → IsStep f cloud q w step
      → later < w.now + token_ttl
      → (finish f cloud fresh q step).0 ≡ shown me
      → IsBegun f fresh w later me (finish f cloud fresh q step).1
  unfolding finish
  finish-IsBegun q w (answered a v) later me s h e = absurd (false≢true (sym s.0 ∙ ap begins e))
  finish-IsBegun q w (goes_on g v) later me s h e =
      begin-IsBegun (final_grant f cloud fresh q g.scope g) w v later me s.2 (rw s.1 h) e

-- After a login that shows a user: that user's row is not blocked, and a session has the scope of a
-- grant for that user. A browser that was not signed in has it under the new name, one that was signed
-- in as that user under its own, and for three hours the vault has the grant's token under the
-- session's name. A browser that was signed in as another user has it under the new name, but the vault
-- has the token under the name None.
pub login-IsBegun :
    (f : Fernet) (cloud : Cloud) (fresh : Fresh) (q : LoginRequest) (w : World) (later : ℕ)
    (me : Me)
    → IsFernet f
    → later < w.now + token_ttl
    → (login f cloud fresh q w).0 ≡ shown me
    → IsBegun f fresh w later me (login f cloud fresh q w).1
unfolding login
login-IsBegun f cloud fresh q w later me fernet h e =
    finish-IsBegun f cloud fresh fernet q w (first_step f cloud fresh q w) later me
      (first_step-IsStep f cloud fresh q w) h e
