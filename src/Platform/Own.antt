-- ===== src/Platform/Own.antt =====
-- apps/platform_admin/auth_views.py: what operators do with their own account, signing out and changing
-- the password, and the rules for passwords and access codes.
mod Tests
use opencloud_backend.Base.{
  ℕ, ◌≡◌, refl, ◌∙◌, Bool, true, false, ◌&&◌, ◌||◌, not, Option, none, some, List, [], ◌∷◌, length,
  arith, Text, txt, text_eq, first_by, map, nonempty, filter_by, first_by-filter_by, and-true_left,
  is_some, ltb, leb, ◌==◌, Bool-cases, Option-cases, inl, inr, none≢some, if◌then◌else◌,
}
use opencloud_backend.Platform.Model.{Hashers, Characters, PlatformAdmin, check_password}
use opencloud_backend.Platform.Login.{
  World, Session, all_digits, every, record_action, admin_logout, admin_password_change, success,
  failure, no_error, bad_password,
}
use opencloud_backend.Platform.Permissions.{Requester, operator, someone_else, authenticate}

-- `end_session` flushes the session of the request; `LogoutView.post`
unfoldable pub logout : Text → PlatformAdmin → World → World
logout key a w =
    let noted = record_action admin_logout (some a.pk) success no_error w in
    record noted { sessions = filter_by (λ (s : Session). not (text_eq s.key key)) noted.sessions }

-- `password.isalpha()`
abbrev pub all_letters : Characters → Text → Bool
all_letters characters s = nonempty s && every characters.is_letter s

pub data Problem : Type 0 where
  too_short one_kind same_as_password : Problem

unfoldable pub password_problem : Characters → Text → Option Problem
password_problem characters password =
    if ltb (length password) 12
    then some too_short
    else (if all_digits characters password || all_letters characters password
        then some one_kind
        else none)

unfoldable pub access_code_problem : Hashers → PlatformAdmin → Text → Option Problem
access_code_problem h a code =
    if ltb (length code) 6
    then some too_short
    else (if check_password h a code then some same_as_password else none)

pub data ChangeAnswer : Type 0 where
  changed wrong_password : ChangeAnswer
  weak_password : Problem → ChangeAnswer

-- `admin.set_password(new)`
abbrev pub set_password : Hashers → Text → PlatformAdmin → PlatformAdmin
set_password h new a = record a { password_hash = h.make new }

-- The password of the saved operator, and every other row and column as it was.
abbrev pub with_password_of : PlatformAdmin → PlatformAdmin → PlatformAdmin
with_password_of a row =
    if row.pk == a.pk then record row { password_hash = a.password_hash } else row

-- `admin.save(update_fields=['password_hash'])`
unfoldable pub save_password_hash : PlatformAdmin → List PlatformAdmin → List PlatformAdmin
save_password_hash a admins = map (with_password_of a) admins

-- `PasswordChangeView.post`
unfoldable pub change_password :
    Hashers → Characters → Text → Text → PlatformAdmin → World → ChangeAnswer × World
change_password h characters current new a w =
    if not (check_password h a current)
    then (wrong_password, record_action admin_password_change (some a.pk) failure bad_password w)
    else elim (password_problem characters new) [
      | some problem ↦ (weak_password problem, w)
      | none ↦ (
        changed,
        record_action admin_password_change (some a.pk) success no_error
            (record w { admins = save_password_hash (set_password h new a) w.admins }),
      )
    ]

-- After a sign-out, the session it was made in has no operator.
logout-authenticate :
    (key : Text) (a : PlatformAdmin) (w : World)
    → (authenticate key (logout key a w)).0 ≡ someone_else
unfolding logout authenticate record_action
logout-authenticate key a w =
    let gone =
      first_by-filter_by (λ (s : Session). text_eq s.key key && ltb w.now s.expires)
        (λ s. not (text_eq s.key key)) w.sessions
        (λ s f. rw (and-true_left (text_eq s.key key) (ltb w.now s.expires) f) refl) in
    rw (gone, authenticate) refl

-- The row of an operator.
abbrev pub row_of : ℕ → List PlatformAdmin → Option PlatformAdmin
row_of pk admins = first_by (λ (row : PlatformAdmin). row.pk == pk) admins

abbrev pub with_hash : Text → Option PlatformAdmin → Option PlatformAdmin
with_hash hash none = none
with_hash hash (some row) = some (record row { password_hash = hash })

-- The current password is right, and the new one is long enough and of more than one kind.
abbrev pub may_change : Hashers → Characters → Text → Text → PlatformAdmin → Bool
may_change h characters current new a =
    check_password h a current
    && leb 12 (length new)
    && not (all_digits characters new)
    && not (all_letters characters new)

row_of-save_password_hash :
    (a : PlatformAdmin) (pk : ℕ) (admins : List PlatformAdmin)
    → row_of pk (save_password_hash a admins)
      ≡ (if pk == a.pk then with_hash a.password_hash (row_of pk admins) else row_of pk admins)
unfolding save_password_hash
row_of-save_password_hash a pk [] = ground arith
row_of-save_password_hash a pk (row ∷ admins) = elim (Bool-cases (row.pk == a.pk)) [
  | inl e ↦ rw e (ground (arith, row_of-save_password_hash a pk admins))
  | inr e ↦ rw e (ground (arith, row_of-save_password_hash a pk admins))
]

-- A password is changed exactly when the current one is right and the new one has twelve characters
-- that are neither all digits nor all letters. Then the operator's row has the hash of the new one,
-- and is else as it was; the rows of all others, and without a change every row, are as they were.
-- Whatever the answer, every session, of this browser or another, is as it was.
pub change_password_lem :
    (h : Hashers) (characters : Characters) (current new : Text) (a : PlatformAdmin) (w : World)
    → let (answer, after) = change_password h characters current new a w in
      (elim answer [ changed ↦ true | _ ↦ false ] ≡ may_change h characters current new a)
      × ((pk : ℕ)
          → row_of pk after.admins ≡ (
              if may_change h characters current new a && pk == a.pk
              then with_hash (h.make new) (row_of pk w.admins)
              else row_of pk w.admins))
      × (after.sessions ≡ w.sessions)
unfolding change_password password_problem record_action
change_password_lem h characters current new a w = (
  ground arith,
  λ pk. ground (arith, row_of-save_password_hash (set_password h new a) pk w.admins),
  ground arith,
)
