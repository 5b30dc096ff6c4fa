-- ===== src/Platform/Login/Totp.antt =====
-- A one-time code passes once.
use opencloud_backend.Base.{
  ℕ, ◌+◌, ◌<◌, ◌≡◌, Bool, true, false, ◌&&◌, List, [], ◌∷◌, ◌++◌, length, arith, Text, text_eq,
  text_eq_refl, nonempty, any_by, ltb, ◌==◌,
}
use opencloud_backend.Platform.Login.{
  External, World, UsedCode, replay_ttl, all_digits, clean_code, add_used, verify,
}

any_by-append_right {ℓ} :
    {A : Type ℓ} (test : A → Bool) (xs ys : List A)
    → any_by test ys ≡ true
    → any_by test (xs ++ ys) ≡ true
any_by-append_right test [] ys h = h
any_by-append_right test (x ∷ xs) ys h = ground (arith, any_by-append_right test xs ys h)

-- The entry that `cache.add` looks for.
abbrev marks : ℕ → ℕ → Text → UsedCode → Bool
marks now pk code u = u.admin_id == pk && text_eq u.code code && ltb now u.expires

pub add_used-marks :
    (now later pk : ℕ) (code : Text) (used : List UsedCode)
    → (add_used now pk code used).0 ≡ true
    → later < now + replay_ttl
    → any_by (marks later pk code) (add_used now pk code used).1 ≡ true
unfolding add_used
add_used-marks now later pk code used h soon = ground (arith, text_eq_refl code)

verify-add_used :
    (x : External) (secret raw : Text) (pk : ℕ) (w : World)
    → (verify x secret raw pk w).0 ≡ true
    → (nonempty secret ≡ true)
      × (all_digits x.characters (clean_code raw) ≡ true)
      × (length (clean_code raw) ≡ 6)
      × (x.totp_valid secret (clean_code raw) w.now ≡ true)
      × ((add_used w.now pk (clean_code raw) w.used_codes).0 ≡ true)
      × ((verify x secret raw pk w).1.used_codes
          ≡ (add_used w.now pk (clean_code raw) w.used_codes).1)
unfolding verify
verify-add_used x secret raw pk w h = ground arith

verify-marked :
    (x : External) (secret raw : Text) (pk : ℕ) (w : World)
    → any_by (marks w.now pk (clean_code raw)) w.used_codes ≡ true
    → (verify x secret raw pk w).0 ≡ false
unfolding verify add_used
verify-marked x secret raw pk w h = ground arith

-- A code that passed has six digits and is one of the secret's at the time; and while the codes
-- that were recorded stay recorded, whatever others are added, the same code of the same operator,
-- with any secret, is refused for ninety seconds.
pub verify_once :
    (x : External) (secret raw : Text) (pk : ℕ) (w : World)
    → (verify x secret raw pk w).0 ≡ true
    → (secret' raw' : Text) (others : List UsedCode) (w' : World) → clean_code raw' ≡ clean_code raw
    → w'.used_codes ≡ others ++ (verify x secret raw pk w).1.used_codes
    → w'.now < w.now + replay_ttl
    → (length (clean_code raw) ≡ 6)
      × (all_digits x.characters (clean_code raw) ≡ true)
      × (x.totp_valid secret (clean_code raw) w.now ≡ true)
      × ((verify x secret' raw' pk w').0 ≡ false)
verify_once x secret raw pk w h secret' raw' others w' same used soon =
    let facts = verify-add_used x secret raw pk w h in
    (
      facts.2,
      facts.1,
      facts.3,
      verify-marked x secret' raw' pk w' (
          rw (same, used, facts.5)
            (any_by-append_right (marks w'.now pk (clean_code raw)) others _
              (add_used-marks w.now w'.now pk (clean_code raw) w.used_codes facts.4 soon))),
    )
