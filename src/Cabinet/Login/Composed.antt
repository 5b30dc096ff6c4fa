-- ===== src/Cabinet/Login/Composed.antt =====
-- The cabinet's login over the sign-in of apps/integrations/zadara/auth.py: the interface Cloud, filled
-- with authenticate, authenticate_totp and exchange_project.
use opencloud_backend.Base.{
  ◌≡◌, ◌⊎◌, refl, sym, ◌∙◌, Bool, true, ◌&&◌, ◌||◌, not, some, List, Text, nonempty, strip, inl,
  inr,
}
use opencloud_backend.Zadara.Http.{ErrorCode, Sent}
use opencloud_backend.Zadara.Auth.{
  AuthResult, signed_in, refused, Credentials, project_name, authenticate, authenticate_totp,
  exchange_project, is_signed_in, accepts, leaves_domain, authenticate-accepts,
  authenticate_totp-accepts,
}
use opencloud_backend.Zadara.Cache.{Result}
use opencloud_backend.Zadara.Grants.{Identity}
use opencloud_backend.Zadara.Service.Directory.{Named}
use opencloud_backend.Cabinet.Vault.{Fernet, Ticket, load}
use opencloud_backend.Cabinet.Login.{
  Grant, Refusal, SignIn, granted, denied, Cloud, World, Me, shown, LoginRequest, Fresh, login,
  same_name,
}
use opencloud_backend.Cabinet.Login.Rules.{login-IsAccepted}

-- What the cloud answers to each request, who a token is of, and the details of a refusal.
pub record Answers : Type 0 where
  pub by_project : Credentials → Text → Bool → Sent
  pub by_domain : Credentials → Bool → Sent
  pub by_totp : (account username code receipt : Text) → Sent
  pub by_token : (token name account : Text) → Sent
  pub projects : (account username : Text) → Result (List Named)
  pub identity : Text → Identity
  pub details : ErrorCode → Refusal

-- A ZadaraError of the sign-in, or its result.
unfoldable pub sign_in_of : Answers → AuthResult → SignIn
sign_in_of answers (signed_in scope token) =
    granted (record { token = token; scope = scope; identity = answers.identity token })
sign_in_of answers (refused code) = denied (record (answers.details code) { code = code })

abbrev pub credentials : Text → Text → Text → Text → Text → Credentials
credentials account username password project code = record {
  account = account;
  username = username;
  password = password;
  project = project;
  totp = code;
}

-- `zadara_auth`, as the login calls it
unfoldable pub cloud_of : Answers → Cloud
cloud_of answers = record {
  authenticate = λ (account username password project code : Text).
      let c = credentials account username password project code in
      sign_in_of answers (authenticate (answers.by_project c) (answers.by_domain c) c);
  authenticate_totp = λ (account username code receipt project : Text). sign_in_of answers (
      authenticate_totp (answers.by_totp account username)
        (λ (token name : Text). answers.by_token token name account) account code receipt project);
  get_user_projects = answers.projects;
  exchange_project = λ (token name account : Text).
      sign_in_of answers
        (exchange_project (λ (token name : Text). answers.by_token token name account) token name);
}

sign_in_of-is_signed_in :
    (answers : Answers) (result : AuthResult) (g : Grant)
    → sign_in_of answers result ≡ granted g
    → is_signed_in result ≡ true
unfolding sign_in_of
sign_in_of-is_signed_in answers (signed_in scope token) g h = refl
sign_in_of-is_signed_in answers (refused code) g h = cc

-- The cloud took the password of the request, for the project or for the domain.
abbrev pub IsPasswordTaken : Answers → LoginRequest → Type 0
IsPasswordTaken answers q =
    let c =
      credentials (strip q.account) (strip q.username) q.password (strip q.project)
        (strip q.mfa_code) in
    let enroll = not (nonempty c.totp) in
    let first = answers.by_project c (project_name c.project c.account) enroll in
    (nonempty c.account
      && nonempty c.username
      && nonempty c.password
      && (accepts first
          || leaves_domain (nonempty c.totp) first && accepts (answers.by_domain c enroll)))
    ≡ true

-- The cloud took the code of the request, with the receipt of a ticket that is alive and of the same
-- account and name.
abbrev pub IsCodeTaken : Fernet → Answers → LoginRequest → World → Type 0
IsCodeTaken f answers q w =
    (t : Ticket) × (load f w.now (strip q.mfa_token) w.tickets ≡ some t)
    × ((same_name (strip q.account) t.account && same_name (strip q.username) t.username) ≡ true)
    × ((nonempty (strip q.mfa_code)
          && nonempty t.receipt
          && accepts (answers.by_totp t.account t.username (strip q.mfa_code) t.receipt))
        ≡ true)

-- Over the sign-in of the integration, a login of the cabinet begins a session only where the cloud itself
-- answered without an error and with a token: to the account, name and password of the request, which are
-- not empty, or to its code and the receipt of a ticket that is alive and of the same account and name.
pub login-accepts :
    (f : Fernet) (answers : Answers) (fresh : Fresh) (q : LoginRequest) (w : World) (me : Me)
    → (login f (cloud_of answers) fresh q w).0 ≡ shown me
    → IsPasswordTaken answers q ⊎ IsCodeTaken f answers q w
unfolding cloud_of
login-accepts f answers fresh q w me h =
    elim (login-IsAccepted f (cloud_of answers) fresh q w me h).1 [
      | inl (password, taken) ↦
          let c =
            credentials (strip q.account) (strip q.username) q.password (strip q.project)
              (strip q.mfa_code) in
          inl (
            sym (authenticate-accepts (answers.by_project c) (answers.by_domain c) c)
            ∙ sign_in_of-is_signed_in answers _ _ taken)
      | inr (t, loaded, same, taken) ↦ inr (
        t,
        loaded,
        same,
        sym (
              authenticate_totp-accepts (answers.by_totp t.account t.username)
                (λ (token name : Text). answers.by_token token name t.account) t.account
                (strip q.mfa_code) t.receipt t.project)
            ∙ sign_in_of-is_signed_in answers _ _ taken,
      )
    ]
