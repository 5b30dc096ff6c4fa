-- ===== src/Zadara/Lists/Events.antt =====
-- apps/integrations/zadara/resources.py: the events of a project, in a window of time. Times are
-- milliseconds. The clock is taken to be past the length of the window.
use opencloud_backend.Base.{
  ℕ, ◌-◌, ◌*◌, Bool, ◌||◌, not, Option, none, some, List, [], ◌∷◌, map, length, Text, txt, text_eq,
  nonempty, member_text, upper, ltb, leb, if◌then◌else◌,
}
use opencloud_backend.Base.Json.{
  Json, str, num, Fields, get, text_of, int_of, list_of, dicts, or_json, dict, fields_of, id_at,
  optional_id_at, word_at,
}
use opencloud_backend.Zadara.Http.{Sent, invalid_request}
use opencloud_backend.Zadara.Cache.{Result, ok, failed, authed_get}
use opencloud_backend.Zadara.Rules.{put_word}
use opencloud_backend.Platform.Snapshot.{sort}

-- `EVENT_PERIODS`, in seconds
unfoldable pub event_span : Text → Option ℕ
event_span period =
    if text_eq period (txt "1h")
    then some 3600
    else if text_eq period (txt "24h")
    then some (24 * 3600)
    else if text_eq period (txt "7d")
    then some (7 * 86400)
    else if text_eq period (txt "30d")
    then some (30 * 86400)
    else none

abbrev pub event_severities : List Text
event_severities = txt "INFO" ∷ txt "WARNING" ∷ txt "ERROR" ∷ []

abbrev pub event_fetch_cap : ℕ
event_fetch_cap = 1000

-- `normalize_event`
unfoldable pub normalize_event : Json → Json
normalize_event raw = dict (
    (txt "id", id_at (txt "id") raw)
    ∷ (txt "timestamp", get (txt "timestamp") raw)
    ∷ (txt "severity", str (upper (text_of (word_at (txt "severity") (txt "INFO") raw))))
    ∷ (txt "typeId", word_at (txt "type_id") [] raw)
    ∷ (txt "typeName", word_at (txt "type_name") [] raw)
    ∷ (txt "description", word_at (txt "description") [] raw)
    ∷ (txt "entityType", word_at (txt "entity_type") [] raw)
    ∷ (txt "entityName", word_at (txt "entity_name") [] raw)
    ∷ (txt "entityId", id_at (txt "entity_id") raw)
    ∷ (txt "projectId", optional_id_at (txt "project_id") raw)
    ∷ (txt "userId", optional_id_at (txt "user_id") raw)
    ∷ (txt "originIp", word_at (txt "origin_ip") [] raw)
    ∷ (txt "hostname", word_at (txt "hostname") [] raw)
    ∷ (txt "requestId", id_at (txt "request_id") raw)
    ∷ (txt "account", or_json (get (txt "domain") raw) (word_at (txt "account_name") [] raw))
    ∷ [])

-- What `list_events` is called with; a filter that was not given is empty.
pub record EventQuery : Type 0 where
  pub project_id : Text
  pub period : Text
  pub severity : Text
  pub entity_type : Text
  pub entity_id : Text
  pub event_type : Text
  pub limit : ℕ

-- `params`
unfoldable pub event_params : ℕ → ℕ → EventQuery → Fields
event_params start end q = put_word (txt "event_type") q.event_type (
    put_word (txt "entity_id") q.entity_id (
      put_word (txt "entity_type") q.entity_type (
        put_word (txt "severity") (upper q.severity) (
          fields_of (
            (txt "start_timestamp", num start)
            ∷ (txt "end_timestamp", num end)
            ∷ (txt "limit", num q.limit)
            ∷ (txt "project_id", str q.project_id)
            ∷ [])))))

-- `e['timestamp'] or 0`
abbrev pub event_time : Json → ℕ
event_time e = int_of (get (txt "timestamp") e)

abbrev pub is_newer : Json → Json → Bool
is_newer e f = ltb (event_time f) (event_time e)

-- The events of a body, the newest first.
unfoldable pub read_events : Option Json → List Json
read_events none = []
read_events (some body) = sort is_newer (map normalize_event (dicts (list_of body)))

pub record EventWindow : Type 0 where
  pub events : List Json
  pub from_time : ℕ
  pub to_time : ℕ
  pub period : Text
  pub truncated : Bool

abbrev pub has_severity : EventQuery → Bool
has_severity q = not (nonempty q.severity) || member_text (upper q.severity) event_severities

unfoldable pub event_window : ℕ → ℕ → EventQuery → Result (Option Json) → Result EventWindow
event_window start end q (failed code) = failed code
event_window start end q (ok body) = ok (record {
  events = read_events body;
  from_time = start;
  to_time = end;
  period = q.period;
  truncated = leb q.limit (length (read_events body));
})

-- The window, once the period is looked up; an unknown period or severity asks for nothing.
unfoldable pub list_over : Option ℕ → ℕ → (Fields → Sent) → EventQuery → Result EventWindow
list_over none now ask q = failed invalid_request
list_over (some span) now ask q =
    let start = now - span * 1000 in
    if has_severity q
    then event_window start now q (authed_get (ask (event_params start now q)))
    else failed invalid_request

-- `list_events`
unfoldable pub list_events : ℕ → (Fields → Sent) → EventQuery → Result EventWindow
list_events now ask q = list_over (event_span q.period) now ask q
