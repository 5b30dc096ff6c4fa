-- ===== src/Zadara/Http.antt =====
-- apps/integrations/zadara/http.py, `request`: the loop that sends a request again.
-- Times are milliseconds. What the cloud answers is an argument, by the number of the attempt.
use opencloud_backend.Base.{
  ℕ, zero, suc, ◌+◌, ◌*◌, ◌≤◌, ◌≡◌, refl, sym, ap, ◌∙◌, Bool, true, false, ◌&&◌, ◌||◌, not, Option,
  none, some, arith, Text, or_default, leb, ◌==◌, if◌then◌else◌, Option-cases, is_some, inl, inr,
}
use opencloud_backend.Base.Json.{Json}

-- What is read of a response; a missing header or key is the empty text.
pub record Response : Type 0 where
  pub status : ℕ
  -- Retry-After, once `_retry_after` has read it; none where it is missing or cannot be read
  pub retry_after : Option ℕ
  pub subject_token : Text
  pub receipt : Text
  -- the body; none where it is null or not JSON
  pub body : Option Json

-- The codes of a ZadaraError.
pub data ErrorCode : Type 0 where
  timeout network_error invalid_credentials account_not_found forbidden rate_limited upstream_error
        unexpected mfa_required mfa_enrollment_required password_expired account_locked
        invalid_mfa_code session_expired not_found conflict invalid_request write_not_allowed
        console_forbidden console_unavailable weak_password password_reused invalid_reset_link
        mfa_expired reset_refused :
      ErrorCode

pub data Transport : Type 0 where
  responds : Response → Transport
  times_out : Transport
  unreachable : Transport

pub data Sent : Type 0 where
  response : Response → Sent
  error : ErrorCode → Sent

-- A request: its outcome, how often it was sent, and how long it slept in between.
pub record Run : Type 0 where
  pub outcome : Sent
  pub requests : ℕ
  pub slept : ℕ

abbrev pub max_retries : ℕ
max_retries = 2

abbrev pub retryable : ℕ → Bool
retryable status = status == 502 || status == 503 || status == 504

-- `_BACKOFF_BASE * (2**attempt)`
unfoldable pub backoff : ℕ → ℕ
backoff zero = 500
backoff (suc attempt) = let shorter = backoff attempt in 2 * shorter

abbrev pub smaller : ℕ → ℕ → ℕ
smaller a b = if leb a b then a else b

-- Why the loop goes round again after this response, and for how long it sleeps.
unfoldable pub pause : Bool → ℕ → Transport → Option ℕ
unfolding backoff
pause is_get attempt times_out = none
pause is_get attempt unreachable = none
pause is_get attempt (responds r) =
    if is_get && retryable r.status
    then some (backoff attempt)
    else (if r.status == 429
        then some (smaller (or_default r.retry_after (backoff attempt)) 5000)
        else none)

abbrev pub outcome_of : Transport → Sent
outcome_of times_out = error timeout
outcome_of unreachable = error network_error
outcome_of (responds r) = response r

abbrev pub stop : Transport → Run
stop answer = record { outcome = outcome_of answer; requests = 1; slept = 0 }

-- The loop, on the retries that are left: `attempt` and they make up `max_retries`.
unfoldable pub send : Bool → (ℕ → Transport) → ℕ → ℕ → Run
send is_get answers zero attempt = stop (answers attempt)
send is_get answers (suc left) attempt =
    let rest = send is_get answers left (attempt + 1) in
    elim (pause is_get attempt (answers attempt)) [
      | none ↦ stop (answers attempt)
      | some wait ↦ record rest { requests = rest.requests + 1; slept = rest.slept + wait }
    ]

unfoldable pub request : Bool → (ℕ → Transport) → Run
request is_get answers = send is_get answers max_retries 0

-- The answer asks for another try: a rate limit, or, for a GET, a transient error of the cloud.
abbrev pub asks_again : Bool → Transport → Bool
asks_again is_get times_out = false
asks_again is_get unreachable = false
asks_again is_get (responds r) =
    r.status == 429 || is_get && (r.status == 502 || r.status == 503 || r.status == 504)

-- So do the first answers, of a number.
abbrev pub all_ask : Bool → (ℕ → Transport) → ℕ → Bool
all_ask is_get answers zero = true
all_ask is_get answers (suc n) = asks_again is_get (answers n) && all_ask is_get answers n

pause-asks_again :
    (is_get : Bool) (attempt : ℕ) (answer : Transport)
    → is_some (pause is_get attempt answer) ≡ asks_again is_get answer
unfolding pause
pause-asks_again is_get attempt times_out = refl
pause-asks_again is_get attempt unreachable = refl
pause-asks_again is_get attempt (responds r) = ground arith

asks_again_of :
    (is_get : Bool) (attempt : ℕ) (answer : Transport) {wait : Option ℕ}
    → pause is_get attempt answer ≡ wait
    → asks_again is_get answer ≡ is_some wait
asks_again_of is_get attempt answer e = sym (pause-asks_again is_get attempt answer) ∙ ap is_some e

-- A request is sent at most three times. It ends with the answer to the last one sent, and where
-- that was not the third, the answer asks for no other: it is an error of the transport, or a response
-- that is neither a rate limit nor, for a GET, one of the three transient errors. Every answer before
-- it is a rate limit or, for a GET, a transient error.
pub request_settles :
    (is_get : Bool) (answers : ℕ → Transport)
    → let run = request is_get answers in
      (k : ℕ) × (run.requests ≡ k + 1)
      × (k ≤ 2)
      × (run.outcome ≡ outcome_of (answers k))
      × (all_ask is_get answers k ≡ true)
      × ((k == 2 || not (asks_again is_get (answers k))) ≡ true)
unfolding request send
request_settles is_get answers = elim (Option-cases (pause is_get 0 (answers 0))) [
  | inl e ↦
      rw (e, request, send)
        (0, refl, omega arith, refl, refl, rw (asks_again_of is_get 0 (answers 0) e) refl)
  | inr (a, e) ↦ elim (Option-cases (pause is_get 1 (answers 1))) [
    | inl f ↦
        rw (e, f, request, send)
          (
            1,
            refl,
            omega arith,
            refl,
            rw (asks_again_of is_get 0 (answers 0) e) refl,
            rw (asks_again_of is_get 1 (answers 1) f) refl,
          )
    | inr (b, f) ↦
        rw (e, f, request, send)
          (
            2,
            refl,
            omega arith,
            refl,
            rw (asks_again_of is_get 0 (answers 0) e, asks_again_of is_get 1 (answers 1) f) refl,
            refl,
          )
  ]
]

pause-bound :
    (is_get : Bool) (attempt : ℕ) (answer : Transport) {wait : ℕ}
    → attempt ≤ 1
    → pause is_get attempt answer ≡ some wait
    → wait ≤ 5000
unfolding pause backoff
pause-bound is_get attempt times_out h e = ground arith
pause-bound is_get attempt unreachable h e = ground arith
pause-bound is_get zero (responds r) h e = ground arith
pause-bound is_get (suc zero) (responds r) h e = ground arith
pause-bound is_get (suc (suc n)) (responds r) h e = ground arith

-- Between the first request and the last one no more than ten seconds are slept, whatever the headers
-- of the responses ask for.
request_slept : (is_get : Bool) (answers : ℕ → Transport) → (request is_get answers).slept ≤ 10000
unfolding request send
request_slept is_get answers = elim (Option-cases (pause is_get 0 (answers 0))) [
  | inl e ↦ rw (e, request, send) (omega arith)
  | inr (a, e) ↦
      let first = pause-bound is_get 0 (answers 0) (omega arith) e in
      elim (Option-cases (pause is_get 1 (answers 1))) [
        | inl f ↦ rw (e, f, request, send) (omega (arith, first))
        | inr (b, f) ↦
            rw (e, f, request, send)
              (omega (arith, first, pause-bound is_get 1 (answers 1) (omega arith) f))
      ]
]

abbrev pub is_limited : Transport → Bool
is_limited times_out = false
is_limited unreachable = false
is_limited (responds r) = r.status == 429

pause-write : (answer : Transport) → is_limited answer ≡ false → pause false 0 answer ≡ none
unfolding pause
pause-write times_out h = refl
pause-write unreachable h = refl
pause-write (responds r) h = ground arith

-- A request that is not a GET, once it is answered by anything but a rate limit, is over: it was sent
-- once, and the answer is its outcome.
pub request_once :
    (answers : ℕ → Transport)
    → is_limited (answers 0) ≡ false
    → request false answers ≡ record { outcome = outcome_of (answers 0); requests = 1; slept = 0 }
unfolding request send
request_once answers h = rw (pause-write (answers 0) h, request, send) refl
