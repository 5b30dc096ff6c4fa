-- ===== src/Platform/Login/Lockout.antt =====
-- Five failures lock an operator out, and the lockout holds at both steps.
use opencloud_backend.Base.{
  ℕ, ◌+◌, ◌<◌, ◌≡◌, refl, ◌∙◌, true, Option, some, arith, Text, lower, strip, ltb,
}
use opencloud_backend.Platform.Model.{
  PlatformAdmin, is_locked, note_failure, lockout_seconds, max_failed_attempts,
}
use opencloud_backend.Platform.Login.{
  External, Fresh, Ticket, World, refused, account_locked, find_email, find_active, load, revoke,
  login, login_verify, check_operator, check_ticket, record_action, ActionName, admin_login,
  Outcome, failure, ErrorCode, locked,
}

-- The counter of failures stays below the limit: the failure that reaches it resets it.
pub note_failure-counted :
    (t : ℕ) (a : PlatformAdmin)
    → a.failed_attempts < max_failed_attempts
    → (note_failure t a).failed_attempts < max_failed_attempts
unfolding note_failure
note_failure-counted t a h = ground arith

-- For an operator with no failure counted, four failures in a row leave the lock as it was; with
-- the fifth the operator is locked for fifteen minutes from then, and the count starts anew.
note_failure_five :
    (t1 t2 t3 t4 t5 now : ℕ) (a : PlatformAdmin)
    → a.failed_attempts ≡ 0
    → let four = note_failure t4 (note_failure t3 (note_failure t2 (note_failure t1 a))) in
      let five = note_failure t5 four in
      (is_locked now four ≡ is_locked now a)
      × (is_locked now five ≡ ltb now (t5 + lockout_seconds))
      × (five.failed_attempts ≡ 0)
unfolding note_failure is_locked
note_failure_five t1 t2 t3 t4 t5 now a h = rw h (refl, refl, refl)

check_operator-locked :
    (x : External) (fresh : Fresh) (password : Text) (a : PlatformAdmin) (w : World)
    → a.is_active ≡ true
    → is_locked w.now a ≡ true
    → check_operator x fresh password a w
      ≡ (refused account_locked, record_action admin_login (some a.pk) failure locked w)
unfolding check_operator
check_operator-locked x fresh password a w active lock = simp (active, lock)

check_ticket-locked :
    (x : External) (fresh : Fresh) (ticket code : Text) (payload : Ticket) (a : PlatformAdmin)
    (w : World)
    → find_active payload.admin_id w ≡ some a
    → is_locked w.now a ≡ true
    → check_ticket x fresh ticket code payload w ≡ (
      refused account_locked,
      record_action admin_login (some a.pk) failure locked (revoke ticket w),
    )
unfolding check_ticket
check_ticket-locked x fresh ticket code payload a w found lock = rw (found, check_ticket) (rw lock)

record_action-rest :
    (name : ActionName) (actor : Option ℕ) (outcome : Outcome) (error : ErrorCode) (w : World)
    → ((record_action name actor outcome error w).tickets ≡ w.tickets)
      × ((record_action name actor outcome error w).sessions ≡ w.sessions)
unfolding record_action
record_action-rest name actor outcome error w = (refl, refl)

revoke-sessions : (ticket : Text) (w : World) → (revoke ticket w).sessions ≡ w.sessions
unfolding revoke
revoke-sessions ticket w = refl

-- While an active operator is locked, the first step with the e-mail that finds the operator
-- answers so whatever the password: it opens no ticket and no session.
locked_out_login :
    (x : External) (fresh : Fresh) (w : World) (a : PlatformAdmin) (email password : Text)
    → a.is_active ≡ true
    → is_locked w.now a ≡ true
    → find_email (lower (strip email)) w ≡ some a
    → let (answer, after) = login x fresh email password w in
      (answer ≡ refused account_locked)
      × (after.tickets ≡ w.tickets)
      × (after.sessions ≡ w.sessions)
unfolding login
locked_out_login x fresh w a email password active lock found =
    rw (found, login)
      (rw (check_operator-locked x fresh password a w active lock)
        (refl, (record_action-rest _ _ _ _ w).0, (record_action-rest _ _ _ _ w).1))

-- While an operator is locked, the second step with a live ticket of that operator, who is active,
-- answers so whatever the code: it withdraws the ticket and opens no session.
locked_out_verify :
    (x : External) (fresh : Fresh) (w : World) (a : PlatformAdmin) (ticket code : Text)
    (payload : Ticket)
    → is_locked w.now a ≡ true
    → load (strip ticket) w ≡ some payload
    → find_active payload.admin_id w ≡ some a
    → let (answer, after) = login_verify x fresh ticket code w in
      (answer ≡ refused account_locked)
      × (after.tickets ≡ (revoke (strip ticket) w).tickets)
      × (after.sessions ≡ w.sessions)
unfolding login_verify
locked_out_verify x fresh w a ticket code payload lock live found =
    rw (live, login_verify)
      (rw (check_ticket-locked x fresh (strip ticket) (strip code) payload a w found lock) (
        refl,
        (record_action-rest _ _ _ _ _).0,
        (record_action-rest _ _ _ _ _).1 ∙ revoke-sessions (strip ticket) w,
      ))
