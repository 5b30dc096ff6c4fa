-- ===== src/Zadara/Cache/Tests.antt =====
-- The theorem on the cache at a concrete history.
use opencloud_backend.Base.{◌<◌, ◌≡◌, ◌⊎◌, refl, ℕ, none, some, List, [], ◌∷◌, Text, txt, text_eq}
use opencloud_backend.Base.Dict.{lookup, insert}
use opencloud_backend.Base.Json.{Json, num}
use opencloud_backend.Zadara.Http.{Sent, response, error, timeout}
use opencloud_backend.Zadara.Cache.{
  ok, authed_get, cached_get, settle, cache_get, cache_set, scope_version, invalidate,
}
use opencloud_backend.Zadara.Cache.Fresh.{
  Event, reads, writes, waits, State, start, step, run, IsServed, cached_get-IsServed,
}

abbrev answer : Json → Sent
answer value = response (record {
  status = 200;
  retry_after = none;
  subject_token = [];
  receipt = [];
  body = some value;
})

abbrev digest : Text → Text
digest t = t

-- A read, a write in another scope, and half a minute.
abbrev history : List Event
history = reads (txt "a") (txt "/vms") (answer (num 7)) ∷ writes (txt "b") ∷ waits 30 ∷ []

abbrev then_state : State
then_state = run digest history start

cached_get-IsServed_example :
    (authed_get (error timeout) ≡ ok (some (num 7)))
    ⊎ ((until : ℕ) × (then_state.now < until)
        × IsServed (txt "a") (txt "/vms") (num 7) until then_state.log)
unfolding run step cached_get settle cache_get cache_set scope_version invalidate authed_get text_eq
    lookup insert
cached_get-IsServed_example =
    cached_get-IsServed digest history (txt "a") (txt "/vms") (error timeout) (num 7) refl
