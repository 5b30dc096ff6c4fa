-- ===== src/Cabinet/Vault.antt =====
-- apps/authentication/vault.py and mfa.py: the token of a session and the receipt of a half-done
-- login, both encrypted in the cache. Fernet is a parameter.
use opencloud_backend.Base.{
  ℕ, ◌+◌, ◌*◌, ◌<◌, ◌≡◌, refl, true, Option, none, some, Text, nonempty, text_eq, text_eq_refl,
  filter_by, not, ltb, arith, if◌then◌else◌,
}
use opencloud_backend.Base.Dict.{Dict, lookup, insert, lookup-insert}

-- The encryption with the vault's key; `decrypt` is none for what the key did not encrypt.
pub record Fernet : Type 0 where
  pub encrypt : Text → Text
  pub decrypt : Text → Option Text

-- Fernet documents that what was encrypted with a key is decrypted with it, and a token of it is never
-- empty.
abbrev pub IsFernet : Fernet → Type 0
IsFernet f = (t : Text) → (f.decrypt (f.encrypt t) ≡ some t) × (nonempty (f.encrypt t) ≡ true)

-- Entries of the cache, with the time of expiry.
abbrev pub Timed : Type 0 → Type 0
Timed V = Dict (V × ℕ)

unfoldable pub live : {V : Type 0} → ℕ → Option (V × ℕ) → Option V
live now none = none
live now (some (v, expires)) = if ltb now expires then some v else none

-- `cache.get(key)`
unfoldable pub cached : {V : Type 0} → ℕ → Text → Timed V → Option V
cached now key entries = live now (lookup key entries)

-- `cache.delete(key)`
unfoldable pub drop : {V : Type 0} → Text → Dict V → Dict V
drop key entries = filter_by (λ (e : Text × _). not (text_eq e.0 key)) entries

-- What was written is found until its time is up.
cached-insert :
    {V : Type 0} (later until : ℕ) (key : Text) (v : V) (entries : Timed V)
    → later < until
    → cached later key (insert key (v, until) entries) ≡ some v
unfolding cached live
cached-insert later until key v entries h =
    rw (lookup-insert key key (v, until) entries, text_eq_refl key) (ground (arith, h))

abbrev pub token_ttl : ℕ
token_ttl = 3 * 60 * 60

abbrev pub ticket_ttl : ℕ
ticket_ttl = 4 * 60

-- The entry of a login that waits for its code, under its ticket.
pub record Ticket : Type 0 where
  pub account : Text
  pub username : Text
  pub project : Text
  -- encrypted in the cache, decrypted once it is loaded
  pub receipt : Text

module _ (f : Fernet) where
  -- `vault.store`
  unfoldable pub store : ℕ → Text → Text → Timed Text → Timed Text
  store now session_key token entries =
      insert session_key (f.encrypt token, now + token_ttl) entries

  unfoldable pub open_token : Option Text → Option Text
  open_token none = none
  open_token (some encrypted) = if nonempty encrypted then f.decrypt encrypted else none

  -- `vault.get`
  unfoldable pub get_token : ℕ → Text → Timed Text → Option Text
  get_token now session_key entries = open_token (cached now session_key entries)

  -- `mfa.issue`, with the fresh ticket
  unfoldable pub issue : ℕ → Text → Ticket → Timed Ticket → Timed Ticket
  issue now ticket login entries =
      insert ticket (record login { receipt = f.encrypt login.receipt }, now + ticket_ttl) entries

  unfoldable pub open_receipt : Ticket → Option Text → Option Ticket
  open_receipt entry none = none
  open_receipt entry (some receipt) = some (record entry { receipt = receipt })

  unfoldable pub open_ticket : Option Ticket → Option Ticket
  open_ticket none = none
  open_ticket (some entry) = open_receipt entry (f.decrypt entry.receipt)

  -- `mfa.load`
  unfoldable pub load : ℕ → Text → Timed Ticket → Option Ticket
  load now ticket entries = open_ticket (cached now ticket entries)

  -- A token that was stored for a session is got back until its time is up.
  pub get_token-store :
      (now later : ℕ) (session_key token : Text) (entries : Timed Text)
      → IsFernet f
      → later < now + token_ttl
      → get_token later session_key (store now session_key token entries) ≡ some token
  unfolding get_token store open_token
  get_token-store now later session_key token entries fernet h =
      rw
        (
          cached-insert later (now + token_ttl) session_key (f.encrypt token) entries h,
          (fernet token).1,
          (fernet token).0,
        )
        refl

  -- A ticket gives back the login that it was issued for until its time is up.
  pub load-issue :
      (now later : ℕ) (ticket : Text) (login : Ticket) (entries : Timed Ticket)
      → IsFernet f
      → later < now + ticket_ttl
      → load later ticket (issue now ticket login entries) ≡ some login
  unfolding load issue open_ticket open_receipt
  load-issue now later ticket login entries fernet h =
      rw
        (
          cached-insert later (now + ticket_ttl) ticket
              (record login { receipt = f.encrypt login.receipt }) entries h,
          (fernet login.receipt).0,
        )
        refl
