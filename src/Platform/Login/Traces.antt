-- ===== src/Platform/Login/Traces.antt =====
-- Over any sequence of requests: what tickets and sessions stand for.
use opencloud_backend.Base.{
  ℕ, ◌+◌, ◌≡◌, refl, true, false, some, List, [], ◌∷◌, All, All-map, Text, lower, strip, ◌⊎◌, inl,
  inr,
}
use opencloud_backend.Platform.Model.{PlatformAdmin, is_locked, check_password}
use opencloud_backend.Platform.Login.{
  External, Fresh, Ticket, World, Session, find_email, login, login_verify,
}
use opencloud_backend.Platform.Login.Keeps.{Holds, login-Holds, login_verify-Holds}

-- What reaches the two views, with the random values drawn for it, and the clock.
pub data Event : Type 0 where
  signs : Fresh → Text → Text → Event
  verifies : Fresh → Text → Text → Event
  waits : ℕ → Event

unfoldable pub step : External → Event → World → World
step x (signs fresh email password) w = (login x fresh email password w).1
step x (verifies fresh ticket code) w = (login_verify x fresh ticket code w).1
step x (waits seconds) w = record w { now = w.now + seconds }

unfoldable pub run : External → List Event → World → World
run x [] w = w
run x (e ∷ es) w = run x es (step x e w)

-- The event gives the password of the operator `pk`, who is active and not locked.
unfoldable pub ProvesPassword : External → Event → World → ℕ → Type 0
ProvesPassword x (signs fresh email password) w pk =
    (a : PlatformAdmin) × (find_email (lower (strip email)) w ≡ some a)
    × (a.pk ≡ pk)
    × (a.is_active ≡ true)
    × (is_locked w.now a ≡ false)
    × (check_password x.hashers a password ≡ true)
ProvesPassword x (verifies fresh ticket code) w pk = ⊥
ProvesPassword x (waits seconds) w pk = ⊥

-- One of the events does.
unfoldable pub HasProved : External → List Event → World → ℕ → Type 0
HasProved x [] w pk = ⊥
HasProved x (e ∷ es) w pk = ProvesPassword x e w pk ⊎ HasProved x es (step x e w) pk

step-Holds :
    (x : External) (e : Event) (w : World) (P : ℕ → Type 0)
    → Holds P w
    → Holds (λ pk. P pk ⊎ ProvesPassword x e w pk) (step x e w)
unfolding step ProvesPassword
step-Holds x (signs fresh email password) w P h =
    login-Holds _ x fresh email password w
      (λ a e active lock good. inr (a, e, refl, active, lock, good))
      (All-map _ _ w.tickets (λ t p. inl p) h.0, All-map _ _ w.sessions (λ s p. inl p) h.1)
step-Holds x (verifies fresh ticket code) w P h =
    login_verify-Holds _ x fresh ticket code w
      (All-map _ _ w.tickets (λ t p. inl p) h.0, All-map _ _ w.sessions (λ s p. inl p) h.1)
step-Holds x (waits seconds) w P h =
    (All-map _ _ w.tickets (λ t p. inl p) h.0, All-map _ _ w.sessions (λ s p. inl p) h.1)

run-Holds :
    (x : External) (es : List Event) (w : World) (P : ℕ → Type 0)
    → Holds P w
    → Holds (λ pk. P pk ⊎ HasProved x es w pk) (run x es w)
unfolding run HasProved
run-Holds x [] w P h =
    (All-map _ _ w.tickets (λ t p. inl p) h.0, All-map _ _ w.sessions (λ s p. inl p) h.1)
run-Holds x (e ∷ es) w P h =
    let r = run-Holds x es (step x e w) _ (step-Holds x e w P h) in
    let f : (pk : ℕ)
        → (P pk ⊎ ProvesPassword x e w pk) ⊎ HasProved x es (step x e w) pk
        → P pk ⊎ (ProvesPassword x e w pk ⊎ HasProved x es (step x e w) pk) =
      (λ pk u. elim u [
        | inl v ↦ elim v [ inl p ↦ inl p | inr q ↦ inr (inl q) ]
        | inr q ↦ inr (inr q)
      ]) in
    (
      All-map _ _ (run x (e ∷ es) w).tickets (λ t. f t.admin_id) r.0,
      All-map _ _ (run x (e ∷ es) w).sessions (λ s. f s.admin_id) r.1,
    )

-- From a world with no tickets and no sessions, whatever requests arrive and however long they wait:
-- every ticket and every session is of an operator whose right password was given by one of them,
-- when the operator was active and not locked.
pub run_needs_password :
    (x : External) (es : List Event) (w : World)
    → w.tickets ≡ []
    → w.sessions ≡ []
    → All (λ (t : Ticket). HasProved x es w t.admin_id) (run x es w).tickets
      × All (λ (s : Session). HasProved x es w s.admin_id) (run x es w).sessions
run_needs_password x es w no_tickets no_sessions =
    let r = run-Holds x es w (λ _. ⊥) (rw no_tickets tt, rw no_sessions tt) in
    let f : (pk : ℕ) → ⊥ ⊎ HasProved x es w pk → HasProved x es w pk =
      (λ pk u. elim u [ inl p ↦ absurd p | inr q ↦ q ]) in
    (
      All-map _ _ (run x es w).tickets (λ t. f t.admin_id) r.0,
      All-map _ _ (run x es w).sessions (λ s. f s.admin_id) r.1,
    )
