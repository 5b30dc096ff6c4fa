-- ===== src/Zadara/Lists/Tests.antt =====
-- The theorem on the events at a concrete window.
use opencloud_backend.Base.{
  ℕ, ◌+◌, ◌*◌, ◌≡◌, refl, leb, none, some, [], ◌∷◌, map, txt, text_eq, member_text, upper,
  upper_char, length, filter_by, arith,
}
use opencloud_backend.Base.Json.{Json, num, arr, cons, nil, dict, Fields, list_of, dicts, truthy}
use opencloud_backend.Zadara.Http.{Sent, response}
use opencloud_backend.Zadara.Cache.{ok, authed_get}
use opencloud_backend.Zadara.Lists.Sorted.{IsSorted}
use opencloud_backend.Zadara.Lists.Events.{
  EventQuery, EventWindow, event_span, is_newer, list_events, normalize_event,
}
use opencloud_backend.Zadara.Lists.Order.{list_events_lem}

abbrev event : ℕ → Json
event time = dict ((txt "timestamp", num time) ∷ [])

abbrev body : Json
body = arr (cons (event 5) (cons (event 9) nil))

abbrev ask : Fields → Sent
ask params = response (record {
  status = 200;
  retry_after = none;
  subject_token = [];
  receipt = [];
  body = some body;
})

abbrev query : EventQuery
query = record {
  project_id = txt "p1";
  period = txt "1h";
  severity = txt "error";
  entity_type = [];
  entity_id = [];
  event_type = [];
  limit = 2;
}

list_events_lem_example :
    let given = map normalize_event (dicts (list_of body)) in
    (w : EventWindow) × (list_events 4000000 ask query ≡ ok w)
    × (w.to_time ≡ 4000000)
    × (w.from_time + 3600 * 1000 ≡ 4000000)
    × IsSorted is_newer w.events
    × (length (filter_by truthy w.events) ≡ length (filter_by truthy given))
    × (w.truncated ≡ leb 2 (length w.events))
unfolding event_span text_eq authed_get member_text upper upper_char
list_events_lem_example =
    list_events_lem 4000000 ask query 3600 body truthy refl (omega arith) refl refl
