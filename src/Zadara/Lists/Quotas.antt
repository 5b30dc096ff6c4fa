-- ===== src/Zadara/Lists/Quotas.antt =====
-- apps/integrations/zadara/resources.py: the quotas of an account or a project.
use opencloud_backend.Base.{
  ℕ, ◌+◌, ◌*◌, ◌/◌, ◌%◌, Bool, ◌&&◌, not, Option, none, some, List, [], ◌∷◌, map, Text, txt,
  text_eq, lower, is_some, or_default, ltb, ◌==◌, if◌then◌else◌,
}
use opencloud_backend.Base.Dict.{Dict, lookup}
use opencloud_backend.Base.Json.{Json, num, get, truthy, text_of, int_of, list_of, dicts, or_word}
use opencloud_backend.Zadara.Cache.{Result, ok, failed}
use opencloud_backend.Zadara.Volumes.{VolumeType, or_no_types}
use opencloud_backend.Platform.Snapshot.{sort}
use opencloud_backend.Platform.Snapshot.Build.{text_before}

pub record Quota : Type 0 where
  pub name : Text
  pub display_name : Text
  pub group : Text
  pub category : Text
  pub units : Text
  pub kind : Text
  pub allocated : ℕ
  -- none where there is no limit
  pub limit : Option ℕ
  pub unlimited : Bool
  -- in tenths of a percent
  pub used_percent : Option ℕ
  pub volume_type_id : Option Text
  pub volume_type : Text
  pub media : Text

-- `_quota_volume_type`
unfoldable pub quota_volume_type : List Json → Option Text
quota_volume_type [] = none
quota_volume_type (d ∷ dependencies) =
    let rest = quota_volume_type dependencies in
    if text_eq (text_of (get (txt "type") d)) (txt "volume_type") && truthy (get (txt "id") d)
    then some (text_of (get (txt "id") d))
    else rest

-- A quotient, rounded to the next whole number, and to the even one where both are as far.
unfoldable pub round_even : ℕ → ℕ → ℕ
round_even a b =
    let q = a / b in
    let twice = 2 * (a % b) in if ltb twice b then q else if ltb b twice then q + 1 else q + q % 2

-- `round(allocated / total * 100, 1)`, in tenths; the float is taken to be exact.
unfoldable pub used_percent_of : ℕ → Option ℕ → Option ℕ
used_percent_of allocated none = none
used_percent_of allocated (some total) =
    if total == 0 then none else some (round_even (allocated * 1000) total)

-- `total if isinstance(total, (int, float)) and not isinstance(total, bool) else None`
abbrev pub limit_of : Json → Option ℕ
limit_of (num n) = some n
limit_of _ = none

-- `normalize_quota`
unfoldable pub normalize_quota : Json → Quota
normalize_quota raw =
    let name = text_of (get (txt "name") raw) in
    let allocated = int_of (get (txt "allocated") raw) in
    let limit = limit_of (get (txt "total") raw) in
    record {
      name = name;
      display_name = or_word (text_of (get (txt "display_name") raw)) name;
      group = text_of (get (txt "domain") raw);
      category = text_of (get (txt "category") raw);
      units = text_of (get (txt "units") raw);
      kind = or_word (text_of (get (txt "type") raw)) (txt "count");
      allocated = allocated;
      limit = limit;
      unlimited = not (is_some limit);
      used_percent = used_percent_of allocated limit;
      volume_type_id = quota_volume_type (dicts (list_of (get (txt "dependencies") raw)));
      volume_type = [];
      media = [];
    }

-- `label_quota_media`
unfoldable pub label_quota : Dict VolumeType → Quota → Quota
label_quota types q = elim (lookup (or_default q.volume_type_id []) types) [
  | none ↦ record q { volume_type = []; media = [] }
  | some t ↦ record q { volume_type = t.name; media = t.media }
]

-- The order of texts first, and then the next one.
abbrev pub then_before : Text → Text → Bool → Bool
then_before s t next = if text_eq s t then next else text_before s t

-- The key `(group, category, media, displayName.lower())`
unfoldable pub quota_before : Quota → Quota → Bool
quota_before q r = then_before q.group r.group (
    then_before q.category r.category
      (then_before q.media r.media (text_before (lower q.display_name) (lower r.display_name))))

-- `_list_quotas`, of `list_domain_quotas` and `list_project_quotas`
unfoldable pub list_quotas : Result (Option Json) → Result (Dict VolumeType) → Result (List Quota)
list_quotas (failed code) types = failed code
list_quotas (ok body) types =
    let raw : List Json = elim body [ none ↦ [] | some rows ↦ dicts (list_of rows) ] in
    ok (
      sort quota_before
        (map (λ (q : Json). label_quota (or_no_types types) (normalize_quota q)) raw))
