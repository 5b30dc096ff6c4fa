-- ===== src/Zadara/Metrics.antt =====
-- apps/integrations/zadara/resources.py: the histories of a machine's or a project's metrics. A value
-- is a number or None, and `rounded` is the rounding of it to three digits.
use opencloud_backend.Base.{
  ℕ, ◌-◌, ◌*◌, Bool, true, false, Option, none, some, List, [], ◌∷◌, Text, txt, text_eq,
  if◌then◌else◌, or_default,
}
use opencloud_backend.Base.Dict.{Dict}
use opencloud_backend.Base.Json.{
  Json, null, num, str, arr, obj, cons, nil, end, get, int_of, list_of, is_dict, dict,
}
use opencloud_backend.Zadara.Http.{Sent, invalid_request}
use opencloud_backend.Zadara.Cache.{Result, ok, failed, authed_get}

-- `METRIC_PERIODS`: the seconds back, and the length and the unit of an interval.
pub record Period : Type 0 where
  pub span : ℕ
  pub interval : ℕ
  pub in_hours : Bool

unfoldable pub metric_period : Text → Option Period
metric_period period =
    if text_eq period (txt "1h")
    then some (record { span = 3600; interval = 3; in_hours = false })
    else if text_eq period (txt "6h")
    then some (record { span = 6 * 3600; interval = 10; in_hours = false })
    else if text_eq period (txt "24h")
    then some (record { span = 24 * 3600; interval = 30; in_hours = false })
    else if text_eq period (txt "7d")
    then some (record { span = 7 * 86400; interval = 3; in_hours = true })
    else if text_eq period (txt "30d")
    then some (record { span = 30 * 86400; interval = 12; in_hours = true })
    else none

-- The names of the metrics by the keys of the answer.
abbrev pub vm_metrics : Dict Text
vm_metrics =
    (txt "cpuPercent", txt "cpu__used__of__vm__in__percent")
    ∷ (txt "memoryUsedMiB", txt "memory__used_by_guest_os__of__vm__in__MiB")
    ∷ (txt "memorySizeMiB", txt "memory__size__of__vm__in__MiB")
    ∷ (txt "networkRxKbps", txt "network__rx_kbps__of__vm__in__kbps")
    ∷ (txt "networkTxKbps", txt "network__tx_kbps__of__vm__in__kbps")
    ∷ []

abbrev pub project_metrics : Dict Text
project_metrics =
    (txt "cpuMHz", txt "cpu__used__of__tenant__in__MHz")
    ∷ (txt "memoryMiB", txt "memory__used__of__tenant__in__MiB")
    ∷ (txt "networkRxKbps", txt "network__rx_kbps__of__tenant__in__kbps")
    ∷ (txt "networkTxKbps", txt "network__tx_kbps__of__tenant__in__kbps")
    ∷ (txt "networkRxErrors", txt "network__rx_errors__of__tenant__in__packets_per_sec")
    ∷ (txt "networkTxErrors", txt "network__tx_errors__of__tenant__in__packets_per_sec")
    ∷ []

-- One of `queries`.
unfoldable pub metric_query : ℕ → ℕ → Period → Text → Text → Json
metric_query start end_time p entity_id name = arr (
    cons (str (txt "query_history_group_by_time")) (
      cons
        (dict (
          (txt "metric_name", str name)
          ∷ (txt "entity_ids", arr (cons (str entity_id) nil))
          ∷ (txt "start_timestamp", num start)
          ∷ (txt "end_timestamp", num end_time)
          ∷ (txt "statistic", str (txt "max"))
          ∷ (txt "interval", num p.interval)
          ∷ (txt "time_type", str (if p.in_hours then txt "hours" else txt "minutes"))
          ∷ (txt "fill_type", str (txt "null"))
          ∷ []))
        nil))

unfoldable pub metric_queries : ℕ → ℕ → Period → Text → Dict Text → Dict Json
metric_queries start end_time p entity_id [] = []
metric_queries start end_time p entity_id ((key, name) ∷ metrics) =
    (key, metric_query start end_time p entity_id name)
    ∷ metric_queries start end_time p entity_id metrics

-- The points of a metric; one that the cluster does not collect has none.
unfoldable pub metric_points : Json → List Json
metric_points (arr (cons entry entries)) =
    if is_dict entry then list_of (get (txt "points") entry) else []
metric_points _ = []

unfoldable pub read_points : (Json → Json) → List Json → List (ℕ × Json)
read_points rounded [] = []
read_points rounded (arr (cons ts (cons null nil)) ∷ points) = read_points rounded points
read_points rounded (arr (cons ts (cons value nil)) ∷ points) =
    (int_of ts, rounded value) ∷ read_points rounded points
read_points rounded (_ ∷ points) = read_points rounded points

unfoldable pub read_series : (Json → Json) → Json → Dict Text → Dict (List (ℕ × Json))
read_series rounded data_ [] = []
read_series rounded data_ ((key, name) ∷ metrics) =
    (key, read_points rounded (metric_points (get key data_))) ∷ read_series rounded data_ metrics

pub record History : Type 0 where
  pub period : Text
  pub from_time : ℕ
  pub to_time : ℕ
  pub interval_minutes : ℕ
  pub series : Dict (List (ℕ × Json))

module _ (rounded : Json → Json) where
  unfoldable pub history : Text → Period → ℕ → Dict Text → Result (Option Json) → Result History
  history period p now metrics (failed code) = failed code
  history period p now metrics (ok body) = ok (record {
    period = period;
    from_time = (now - p.span) * 1000;
    to_time = now * 1000;
    interval_minutes = p.interval * (if p.in_hours then 60 else 1);
    series = read_series rounded (or_default body (obj end)) metrics;
  })

  -- `_query_history`, of `get_vm_metrics` and `get_project_metrics`
  unfoldable pub query_history : ℕ → (Dict Json → Sent) → Dict Text → Text → Text → Result History
  query_history now ask metrics entity_id period = elim (metric_period period) [
    | none ↦ failed invalid_request
    | some p ↦
        history period p now metrics
          (authed_get (ask (metric_queries (now - p.span) now p entity_id metrics)))
  ]
