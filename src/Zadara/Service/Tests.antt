-- ===== src/Zadara/Service/Tests.antt =====
-- The theorem on the service account at a concrete client, whose token the cloud no longer takes.
use opencloud_backend.Base.{ℕ, ◌≡◌, refl, true, none, some, [], Text, txt, text_eq, if◌then◌else◌}
use opencloud_backend.Base.Json.{num}
use opencloud_backend.Zadara.Http.{Response, response}
use opencloud_backend.Zadara.Auth.{signed_in, project, is_ok}
use opencloud_backend.Zadara.Service.{
  Client, Service, svc_get, retry, ask_with, read_body, get_service_token, keep_token,
}
use opencloud_backend.Zadara.Service.Token.{svc_get-response}

abbrev answer : ℕ → Response
answer status = record {
  status = status;
  retry_after = none;
  subject_token = [];
  receipt = [];
  body = some (num 3);
}

abbrev service : Service
service = record {
  configured = true;
  sign_in = λ (turn : ℕ). signed_in project (txt "new");
  ask = λ (path token : Text).
      response (if text_eq token (txt "new") then answer 200 else answer 401);
}

abbrev client : Client
client = record { now = 100; kept = record { token = txt "old"; exp = 9000 }; directory = [] }

svc_get-response_example :
    (r : Response) × (service.ask (txt "/x") (svc_get service (txt "/x") client).1.kept.token
      ≡ response r)
    × (is_ok r ≡ true)
    × (r.body ≡ some (num 3))
unfolding svc_get retry ask_with read_body get_service_token keep_token text_eq
svc_get-response_example = svc_get-response service (txt "/x") client (some (num 3)) refl
