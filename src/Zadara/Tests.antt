-- ===== src/Zadara/Tests.antt =====
-- The theorems on the client of the cloud at concrete inputs.
use opencloud_backend.Base.{
  ℕ, ◌+◌, ◌≤◌, ◌≡◌, refl, Bool, true, false, none, ◌&&◌, ◌||◌, not, some, [], Text, txt, nonempty,
  ◌==◌, if◌then◌else◌,
}
use opencloud_backend.Zadara.Http.{
  Response, Transport, responds, Sent, response, request, outcome_of, request_settles, all_ask,
  asks_again, request_once,
}
use opencloud_backend.Zadara.Auth.{
  Credentials, project_name, authenticate, is_signed_in, accepts, leaves_domain,
  authenticate-accepts,
}

abbrev answer : ℕ → Text → Response
answer status token = record {
  status = status;
  retry_after = some 9000;
  subject_token = token;
  receipt = [];
  body = none;
}

-- A bad gateway, a rate limit, and then the answer.
abbrev flaky : ℕ → Transport
flaky k =
    if k == 0
    then responds (answer 502 [])
    else (if k == 1 then responds (answer 429 []) else responds (answer 200 []))

request_settles_example :
    let run = request true flaky in
    (k : ℕ) × (run.requests ≡ k + 1)
    × (k ≤ 2)
    × (run.outcome ≡ outcome_of (flaky k))
    × (all_ask true flaky k ≡ true)
    × ((k == 2 || not (asks_again true (flaky k))) ≡ true)
request_settles_example = request_settles true flaky

request_once_example :
    request false flaky ≡ record { outcome = outcome_of (flaky 0); requests = 1; slept = 0 }
request_once_example = request_once flaky refl

abbrev credentials : Credentials
credentials = record {
  account = txt "acme";
  username = txt "anna";
  password = txt "secret";
  project = [];
  totp = [];
}

-- There is no project of the account's name.
abbrev project_answer : Text → Bool → Sent
project_answer name enroll = response (answer 401 [])

abbrev domain_answer : Bool → Sent
domain_answer enroll = response (answer 201 (txt "token"))

authenticate-accepts_example :
    let enroll = not (nonempty credentials.totp) in
    let first = project_answer (project_name credentials.project credentials.account) enroll in
    is_signed_in (authenticate project_answer domain_answer credentials) ≡ (
      nonempty credentials.account
      && nonempty credentials.username
      && nonempty credentials.password
      && (accepts first
          || leaves_domain (nonempty credentials.totp) first && accepts (domain_answer enroll)))
authenticate-accepts_example = authenticate-accepts project_answer domain_answer credentials
