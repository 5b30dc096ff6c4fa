-- ===== src/Zadara/Lists/Order.antt =====
-- The order of the events of a window and of the quotas, and that none is lost.
use opencloud_backend.Base.{
  ℕ, ◌+◌, ◌*◌, ◌-◌, ◌≤◌, ◌≡◌, refl, Bool, true, false, some, List, [], ◌∷◌, map, filter_by, length,
  leb, arith, Text, text_eq_iff, lower,
}
use opencloud_backend.Base.Dict.{Dict}
use opencloud_backend.Base.Json.{Json, Fields, list_of, dicts}
use opencloud_backend.Zadara.Http.{Sent}
use opencloud_backend.Zadara.Cache.{Result, ok, authed_get}
use opencloud_backend.Zadara.Volumes.{VolumeType, or_no_types}
use opencloud_backend.Platform.Snapshot.Build.{text_before}
use opencloud_backend.Zadara.Lists.Sorted.{IsSorted, sort-IsSorted, sort-filter_by}
use opencloud_backend.Zadara.Lists.Events.{
  EventQuery, EventWindow, event_window, list_over, event_span, event_params, has_severity,
  is_newer, list_events, normalize_event, read_events,
}
use opencloud_backend.Zadara.Lists.Quotas.{
  Quota, quota_before, then_before, list_quotas, normalize_quota, label_quota,
}

is_newer_asym : (e f : Json) → is_newer e f ≡ true → is_newer f e ≡ false
is_newer_asym e f h = ground arith

-- With a period and a severity that are known, and a cloud that answers a list, a window of events is
-- returned. It ends now and begins the length of the period before; its events are those of the list, each
-- as often, the newest first; and it is said to be truncated exactly when there are as many as were asked
-- for.
pub list_events_lem :
    (now : ℕ) (ask : Fields → Sent) (q : EventQuery) (span : ℕ) (body : Json) (keep : Json → Bool)
    → event_span q.period ≡ some span
    → span * 1000 ≤ now
    → has_severity q ≡ true
    → authed_get (ask (event_params (now - span * 1000) now q)) ≡ ok (some body)
    → let given = map normalize_event (dicts (list_of body)) in
      (w : EventWindow) × (list_events now ask q ≡ ok w)
      × (w.to_time ≡ now)
      × (w.from_time + span * 1000 ≡ now)
      × IsSorted is_newer w.events
      × (length (filter_by keep w.events) ≡ length (filter_by keep given))
      × (w.truncated ≡ leb q.limit (length w.events))
unfolding list_events list_over event_window read_events
list_events_lem now ask q span body keep known past severe answer = (
  record {
    events = read_events (some body);
    from_time = now - span * 1000;
    to_time = now;
    period = q.period;
    truncated = leb q.limit (length (read_events (some body)));
  },
  rw (known, severe, answer) refl,
  refl,
  omega (arith, past),
  sort-IsSorted is_newer is_newer_asym (map normalize_event (dicts (list_of body))),
  sort-filter_by is_newer keep (map normalize_event (dicts (list_of body))),
  refl,
)

text_before_asym : (s t : Text) → text_before s t ≡ true → text_before t s ≡ false
text_before_asym [] [] h = refl
text_before_asym [] (d ∷ t) h = refl
text_before_asym (c ∷ s) [] h = ground arith
text_before_asym (c ∷ s) (d ∷ t) h = ground (arith, text_before_asym s t)

then_before_asym :
    (s t : Text) (next back : Bool)
    → (next ≡ true → back ≡ false)
    → then_before s t next ≡ true
    → then_before t s back ≡ false
then_before_asym s t next back deeper h =
    ground (arith, deeper, text_eq_iff s t, text_eq_iff t s, text_before_asym s t)

quota_before_asym : (q r : Quota) → quota_before q r ≡ true → quota_before r q ≡ false
unfolding quota_before
quota_before_asym q r h =
    then_before_asym q.group r.group _ _
      (then_before_asym q.category r.category _ _ (
        then_before_asym q.media r.media _ _
          (text_before_asym (lower q.display_name) (lower r.display_name))))
      h

-- Where the list of quotas can be read, it is returned, whether or not the types of volumes can be: each
-- row of it as often, with the medium that the types give it, and in the order of group, category, medium
-- and name.
pub list_quotas_lem :
    (body : Json) (types : Result (Dict VolumeType)) (keep : Quota → Bool)
    → let given =
        map
          (λ (q : Json). label_quota (or_no_types types) (normalize_quota q))
          (dicts (list_of body)) in
      (quotas : List Quota) × (list_quotas (ok (some body)) types ≡ ok quotas)
      × IsSorted quota_before quotas
      × (length (filter_by keep quotas) ≡ length (filter_by keep given))
unfolding list_quotas
list_quotas_lem body types keep =
    (_, refl, sort-IsSorted quota_before quota_before_asym _, sort-filter_by quota_before keep _)
