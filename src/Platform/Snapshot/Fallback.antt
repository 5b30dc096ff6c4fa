-- ===== src/Platform/Snapshot/Fallback.antt =====
-- How long a picture is served, and what is served when the cloud is down.
use opencloud_backend.Base.{
  ℕ, ◌+◌, ◌<◌, ◌⊎◌, leb, Bool-cases, ◌≡◌, refl, Bool, true, false, Option, none, some, arith, inl,
  inr,
}
use opencloud_backend.Platform.Snapshot.Build.{
  Cloud, Cluster, SnapshotCache, build, live, rebuild, get, snapshot_ttl, fallback_ttl,
}

rebuild-some :
    (now : ℕ) (cloud : Cloud) (cache : SnapshotCache) {c : Cluster}
    → build now cloud ≡ some c
    → rebuild now cloud cache ≡ (
      some c,
      record { fresh = some (c, now + snapshot_ttl); fallback = some (c, now + fallback_ttl) },
    )
unfolding rebuild
rebuild-some now cloud cache h = rw (h, rebuild)

-- An entry of the cache is there until its time is up.
live-before : (now t : ℕ) (c : Cluster) → now < t → live now (some (c, t)) ≡ some c
unfolding live
live-before now t c h = ground arith

live-after : (now t : ℕ) (c : Cluster) → leb t now ≡ true → live now (some (c, t)) ≡ none
unfolding live
live-after now t c h = ground arith

-- What a request that builds a picture leaves in the cache.
get-stored :
    (refresh : Bool) (now : ℕ) (cloud : Cloud) (cache : SnapshotCache) {c : Cluster}
    → (refresh ≡ true) ⊎ (live now cache.fresh ≡ none)
    → build now cloud ≡ some c
    → get refresh now cloud cache ≡ (
      some c,
      record { fresh = some (c, now + snapshot_ttl); fallback = some (c, now + fallback_ttl) },
    )
unfolding get
get-stored refresh now cloud cache (inl e) built = rw e (rebuild-some now cloud cache built)
get-stored refresh now cloud cache (inr e) built = elim (Bool-cases refresh) [
  | inl r ↦ rw r (rebuild-some now cloud cache built)
  | inr r ↦ rw (r, e) (rebuild-some now cloud cache built)
]

served :
    (later : ℕ) (cloud' : Cloud) (fresh : Option (Cluster × ℕ)) (fallback : ℕ) {c : Cluster}
    → live later fresh ≡ some c
    → let cache : SnapshotCache = record { fresh = fresh; fallback = some (c, fallback) } in
      get false later cloud' cache ≡ (some c, cache)
unfolding get
served later cloud' fresh fallback h = rw (h, get)

served_stale :
    (again : Bool) (later : ℕ) (cloud' : Cloud) (fresh fallback : Option (Cluster × ℕ))
    {c : Cluster}
    → (again ≡ true) ⊎ (live later fresh ≡ none)
    → build later cloud' ≡ none
    → live later fallback ≡ some c
    → let cache : SnapshotCache = record { fresh = fresh; fallback = fallback } in
      get again later cloud' cache ≡ (some (record c { stale = true }), cache)
unfolding get rebuild
served_stale again later cloud' fresh fallback (inl e) down h = rw (e, get, rebuild, down, h)
served_stale again later cloud' fresh fallback (inr e) down h = elim (Bool-cases again) [
  | inl r ↦ rw (r, get, rebuild, down, h)
  | inr r ↦ rw (r, get, e, rebuild, down, h)
]

-- For two minutes after a picture is built the same picture is served, whatever the cloud answers
-- meanwhile, and nothing is stored again.
get_cached :
    (refresh : Bool) (now later : ℕ) (cloud cloud' : Cloud) (cache : SnapshotCache) (c : Cluster)
    → (refresh ≡ true) ⊎ (live now cache.fresh ≡ none)
    → build now cloud ≡ some c
    → later < now + snapshot_ttl
    → let after = (get refresh now cloud cache).1 in get false later cloud' after ≡ (some c, after)
get_cached refresh now later cloud cloud' cache c builds built soon =
    rw (get-stored refresh now cloud cache builds built)
      (served later cloud' _ (now + fallback_ttl) (live-before later (now + snapshot_ttl) c soon))

-- When the cloud fails within a day after the last picture was built, past its two minutes or on a
-- request to refresh, that picture is served and marked as stale, and nothing is stored.
pub get_falls_back :
    (refresh again : Bool) (now later : ℕ) (cloud cloud' : Cloud) (cache : SnapshotCache)
    (c : Cluster)
    → (refresh ≡ true) ⊎ (live now cache.fresh ≡ none)
    → build now cloud ≡ some c
    → build later cloud' ≡ none
    → (again ≡ true) ⊎ (leb (now + snapshot_ttl) later ≡ true)
    → later < now + fallback_ttl
    → let after = (get refresh now cloud cache).1 in
      get again later cloud' after ≡ (some (record c { stale = true }), after)
get_falls_back refresh again now later cloud cloud' cache c builds built down due soon =
    rw (get-stored refresh now cloud cache builds built) (elim due [
      | inl e ↦ rw e (
          served_stale true later cloud' _ _ (inl refl) down
            (live-before later (now + fallback_ttl) c soon))
      | inr e ↦
          served_stale again later cloud' _ _ (inr (live-after later (now + snapshot_ttl) c e)) down
            (live-before later (now + fallback_ttl) c soon)
    ])
