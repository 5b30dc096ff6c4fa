-- ===== src/Zadara/Service/Token.antt =====
-- What the service account's token is worth, and what is read with it.
use opencloud_backend.Base.{
  ℕ, ◌+◌, ◌<◌, ◌≡◌, refl, ◌∙◌, ap, Bool, true, false, ◌&&◌, not, Option, Text, nonempty, ltb, arith,
  Bool-cases, inl, inr, ◌==◌,
}
use opencloud_backend.Base.Json.{Json}
use opencloud_backend.Zadara.Http.{ErrorCode, Response, Sent, response, error}
use opencloud_backend.Zadara.Auth.{AuthResult, signed_in, refused, is_ok}
use opencloud_backend.Zadara.Cache.{Result, ok, failed}
use opencloud_backend.Zadara.Service.{
  Client, Service, keep_token, get_service_token, received, ask_with, read_body, retry, svc_get,
}

ok_injective : {A : Type 0} {a b : A} → ok a ≡ ok b → a ≡ b
ok_injective h = cc

failed≢ok :
    {A : Type 0} {a : A} {code : ErrorCode} (h : ◌≡◌ {A = Result A} (failed code) (ok a)) → ⊥
failed≢ok h = cc

keep_token_fresh :
    (signed : AuthResult) (s : Client) (token : Text)
    → (keep_token signed s).0 ≡ ok token
    → ((keep_token signed s).1.kept.token ≡ token)
      × (s.now + 120 < (keep_token signed s).1.kept.exp)
unfolding keep_token
keep_token_fresh (refused code) s token h = absurd (failed≢ok h)
keep_token_fresh (signed_in scope given) s token h = (ok_injective h, omega arith)

-- A token that is handed out is the one that is kept, and it is held good for more than two minutes yet,
-- be it the kept one or one that was just signed in for.
pub get_service_token_fresh :
    (service : Service) (force : Bool) (turn : ℕ) (s : Client) (token : Text)
    → (get_service_token service force turn s).0 ≡ ok token
    → let after = (get_service_token service force turn s).1 in
      (after.kept.token ≡ token) × (s.now + 120 < after.kept.exp)
unfolding get_service_token
get_service_token_fresh service force turn s token h =
    elim (Bool-cases (not force && nonempty s.kept.token && ltb (s.now + 120) s.kept.exp)) [
      | inl e ↦ rw e (ok_injective (rw e at h), ground (arith, e))
      | inr e ↦ elim (Bool-cases service.configured) [
        | inl c ↦ rw (e, c) (keep_token_fresh (service.sign_in turn) s token (rw (e, c) at h))
        | inr c ↦ absurd (failed≢ok (rw (e, c) at h))
      ]
    ]

received-response : (sent : Sent) (r : Response) → received sent ≡ ok r → sent ≡ response r
received-response (error code) r h = absurd (failed≢ok h)
received-response (response q) r h = ap response (ok_injective h)

ask_with-response :
    (service : Service) (path : Text) (token : Result Text) (r : Response)
    → ask_with service path token ≡ ok r
    → (t : Text) × (token ≡ ok t) × (service.ask path t ≡ response r)
unfolding ask_with
ask_with-response service path (failed code) r h = absurd (failed≢ok h)
ask_with-response service path (ok t) r h = (t, refl, received-response (service.ask path t) r h)

-- The request with the token that was got by one more sign-in, or without one.
ask_with-get_service_token :
    (service : Service) (path : Text) (force : Bool) (turn : ℕ) (s : Client) (r : Response)
    → let got = get_service_token service force turn s in
      ask_with service path got.0 ≡ ok r → service.ask path got.1.kept.token ≡ response r
ask_with-get_service_token service path force turn s r h =
    let got = get_service_token service force turn s in
    let (t, given, answer) = ask_with-response service path got.0 r h in
    ap (service.ask path) (get_service_token_fresh service force turn s t given).0 ∙ answer

retry-response :
    (service : Service) (path : Text) (first : Result Response) (s : Client) (r : Response)
    → ((q : Response) → first ≡ ok q → service.ask path s.kept.token ≡ response q)
    → (retry service path first s).0 ≡ ok r
    → service.ask path (retry service path first s).1.kept.token ≡ response r
unfolding retry
retry-response service path (failed code) s r asked h = absurd (failed≢ok h)
retry-response service path (ok q) s r asked h = elim (Bool-cases (q.status == 401)) [
  | inl e ↦ rw e (ask_with-get_service_token service path true 1 s r (rw e at h))
  | inr e ↦ rw e (asked r (rw e at h))
]

read_body_ok :
    (answer : Result Response) (body : Option Json)
    → read_body answer ≡ ok body
    → (r : Response) × (answer ≡ ok r) × (is_ok r ≡ true) × (r.body ≡ body)
unfolding read_body
read_body_ok (failed code) body h = absurd (failed≢ok h)
read_body_ok (ok r) body h = elim (Bool-cases (is_ok r)) [
  | inl e ↦ (r, refl, e, ok_injective (rw e at h))
  | inr e ↦ absurd (failed≢ok (rw e at h))
]

-- What is read for the service is the body of a response that is no error, and that the cloud gave to
-- the path under the token that is kept afterwards: an answer to a token that the cloud refused is never
-- taken.
pub svc_get-response :
    (service : Service) (path : Text) (s : Client) (body : Option Json)
    → (svc_get service path s).0 ≡ ok body
    → (r : Response) × (service.ask path (svc_get service path s).1.kept.token ≡ response r)
      × (is_ok r ≡ true)
      × (r.body ≡ body)
unfolding svc_get
svc_get-response service path s body h =
    let first = get_service_token service false 0 s in
    let asked = ask_with service path first.0 in
    let (r, answer, fine, same) = read_body_ok (retry service path asked first.1).0 body h in
    (
      r,
      retry-response service path asked first.1 r
          (λ q e. ask_with-get_service_token service path false 0 s q e) answer,
      fine,
      same,
    )
