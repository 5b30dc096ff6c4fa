-- ===== src/Zadara/Cache/Fresh.antt =====
-- The cache against what the cloud answered: which answers a read may give.
use opencloud_backend.Base.{
  ℕ, ◌+◌, ◌<◌, ◌≡◌, ◌⊎◌, refl, sym, ◌∙◌, ap, false, ◌&&◌, not, Option, none, some, List, [], ◌∷◌,
  All, All-map, filter_by-All, first_by-All, first_by-holds, arith, Text, text_eq, text_eq_iff, ltb,
  and-true_left, and-true_right, if◌then◌else◌, Bool-cases, inl, inr,
}
use opencloud_backend.Base.Dict.{insert, lookup-insert}
use opencloud_backend.Base.Json.{Json}
use opencloud_backend.Zadara.Http.{Sent}
use opencloud_backend.Zadara.Cache.{
  Result, ok, failed, authed_get, response_ttl, CacheEntry, Cache, scope_version, is_entry,
  cache_get, cache_set, invalidate, find, settle, cached_get,
}

-- What happened, the latest first: an answer of the cloud that was read, with the time until which it
-- may be served, and a write in a scope.
pub data Happened : Type 0 where
  answered : (scope path : Text) (value : Json) (until : ℕ) → Happened
  written : (scope : Text) → Happened

-- The specification, without versions or entries: the cloud gave this answer in this scope to this
-- path, it may be served until then, and nothing was written in the scope since.
unfoldable pub IsServed : Text → Text → Json → ℕ → List Happened → Type 0
IsServed scope path value until [] = ⊥
IsServed scope path value until (answered s p v u ∷ log) =
    ((s ≡ scope) × (p ≡ path) × (v ≡ value) × (u ≡ until)) ⊎ IsServed scope path value until log
IsServed scope path value until (written s ∷ log) =
    (text_eq s scope ≡ false) × IsServed scope path value until log

-- An entry is of an earlier version of its scope, or it is of the current one and may be served.
abbrev IsBacked : Cache → List Happened → CacheEntry → Type 0
IsBacked c log e =
    (e.version < scope_version e.scope c)
    ⊎ ((e.version ≡ scope_version e.scope c) × IsServed e.scope e.path e.value e.expires log)

abbrev pub IsBackedCache : Cache → List Happened → Type 0
IsBackedCache c log = All (IsBacked c log) c.entries

-- What reaches the cache, and the clock.
pub data Event : Type 0 where
  reads : (token path : Text) (asked : Sent) → Event
  writes : (token : Text) → Event
  waits : ℕ → Event

pub record State : Type 0 where
  pub now : ℕ
  pub cache : Cache
  pub log : List Happened

abbrev pub start : State
start = record { now = 0; cache = record { entries = []; versions = [] }; log = [] }

-- The log of a read: the answer, where nothing was found and the cloud was asked.
unfoldable pub note :
    Text → Text → ℕ → Option CacheEntry → Result (Option Json) → List Happened → List Happened
note scope path until (some hit) answer log = log
note scope path until none (failed code) log = log
note scope path until none (ok none) log = log
note scope path until none (ok (some value)) log = answered scope path value until ∷ log

module _ (digest : Text → Text) where
  unfoldable pub step : Event → State → State
  step (reads token path asked) s = record s {
    cache = (cached_get digest s.now path token asked s.cache).1;
    log =
        note (digest token) (digest path) (s.now + response_ttl)
          (find digest s.now token path s.cache) (authed_get asked) s.log;
  }
  step (writes token) s = record s {
    cache = invalidate digest token s.cache;
    log = written (digest token) ∷ s.log;
  }
  step (waits seconds) s = record s { now = s.now + seconds }

  unfoldable pub run : List Event → State → State
  run [] s = s
  run (e ∷ es) s = run es (step e s)

IsBacked-answered :
    (c : Cache) (log : List Happened) (scope path : Text) (value : Json) (until : ℕ)
    (e : CacheEntry)
    → IsBacked c log e
    → IsBacked c (answered scope path value until ∷ log) e
unfolding IsServed
IsBacked-answered c log scope path value until e (inl old) = inl old
IsBacked-answered c log scope path value until e (inr (same, served)) = inr (same, inr served)

cache_set-IsBackedCache :
    (now : ℕ) (scope path : Text) (value : Json) (c : Cache) (log : List Happened)
    → IsBackedCache c log
    → IsBackedCache
        (cache_set now scope (scope_version scope c) path value c)
        (answered scope path value (now + response_ttl) ∷ log)
unfolding cache_set scope_version IsServed
cache_set-IsBackedCache now scope path value c log h = (
  inr (refl, inl (refl, refl, refl, refl)),
  filter_by-All _ (λ (e : CacheEntry). not (is_entry scope (scope_version scope c) path e))
      c.entries
      (All-map _ _ c.entries (λ e. IsBacked-answered c log scope path value (now + response_ttl) e)
        h),
)

scope_version-insert :
    (scope s : Text) (n : ℕ) (c : Cache)
    → scope_version s (record c { versions = insert scope n c.versions })
      ≡ (if text_eq scope s then n else scope_version s c)
unfolding scope_version
scope_version-insert scope s n c = rw (lookup-insert scope s n c.versions) (ground arith)

IsBacked-written :
    (scope : Text) (c : Cache) (log : List Happened) (e : CacheEntry)
    → IsBacked c log e
    → IsBacked
        (record c { versions = insert scope (scope_version scope c + 1) c.versions })
        (written scope ∷ log)
        e
unfolding IsServed
IsBacked-written scope c log e h =
    rw (scope_version-insert scope e.scope (scope_version scope c + 1) c)
      (elim (Bool-cases (text_eq scope e.scope)) [
        | inl q ↦
            let same : scope ≡ e.scope = (text_eq_iff scope e.scope).0 q in
            rw (q, same)
              (elim h [
                | inl old ↦ inl (omega (arith, old))
                | inr (now, served) ↦ inl (omega (arith, now))
              ])
        | inr q ↦
            rw q (elim h [ inl old ↦ inl old | inr (now, served) ↦ inr (now, (refl, served)) ])
      ])

settle-IsBackedCache :
    (now : ℕ) (scope path : Text) (hit : Option CacheEntry) (answer : Result (Option Json))
    (c : Cache) (log : List Happened)
    → IsBackedCache c log
    → IsBackedCache
        (settle now scope (scope_version scope c) path hit answer c).1
        (note scope path (now + response_ttl) hit answer log)
unfolding settle note
settle-IsBackedCache now scope path (some hit) answer c log h = h
settle-IsBackedCache now scope path none (failed code) c log h = h
settle-IsBackedCache now scope path none (ok none) c log h = h
settle-IsBackedCache now scope path none (ok (some value)) c log h =
    cache_set-IsBackedCache now scope path value c log h

module _ (digest : Text → Text) where
  step-IsBackedCache :
      (e : Event) (s : State)
      → IsBackedCache s.cache s.log
      → IsBackedCache (step digest e s).cache (step digest e s).log
  unfolding step invalidate cached_get
  step-IsBackedCache (reads token path asked) s h =
      settle-IsBackedCache s.now (digest token) (digest path) _ _ s.cache s.log h
  step-IsBackedCache (writes token) s h =
      All-map _ _ s.cache.entries (IsBacked-written (digest token) s.cache s.log) h
  step-IsBackedCache (waits seconds) s h = h

  run-IsBackedCache :
      (es : List Event) (s : State)
      → IsBackedCache s.cache s.log
      → IsBackedCache (run digest es s).cache (run digest es s).log
  unfolding run
  run-IsBackedCache [] s h = h
  run-IsBackedCache (e ∷ es) s h = run-IsBackedCache es (step digest e s) (step-IsBackedCache e s h)

-- What a lookup finds is the entry of the key, and its time is not up.
cache_get-is_entry :
    (now : ℕ) (scope : Text) (version : ℕ) (path : Text) (c : Cache) (P : CacheEntry → Type 0)
    {e : CacheEntry}
    → All P c.entries
    → cache_get now scope version path c ≡ some e
    → P e × (e.scope ≡ scope) × (e.version ≡ version) × (e.path ≡ path) × (now < e.expires)
unfolding cache_get
cache_get-is_entry now scope version path c P {e = e} all h =
    let test = (λ (e : CacheEntry). is_entry scope version path e && ltb now e.expires) in
    let holds = first_by-holds test c.entries h in
    let kept = first_by-All P test c.entries all h in
    let key = and-true_left (is_entry scope version path e) (ltb now e.expires) holds in
    (
      kept,
      ground (arith, key, text_eq_iff e.scope scope),
      ground (arith, key),
      ground (arith, key, text_eq_iff e.path path),
      ground (arith, and-true_right (is_entry scope version path e) (ltb now e.expires) holds),
    )

settle-none :
    (now : ℕ) (scope : Text) (version : ℕ) (path : Text) (answer : Result (Option Json)) (c : Cache)
    → (settle now scope version path none answer c).0 ≡ answer
unfolding settle
settle-none now scope version path (failed code) c = refl
settle-none now scope version path (ok none) c = refl
settle-none now scope version path (ok (some body)) c = refl

-- The value of an answer.
value_of : Json → Result (Option Json) → Json
value_of default (failed code) = default
value_of default (ok none) = default
value_of default (ok (some value)) = value

settle-IsServed :
    (now : ℕ) (scope path : Text) (hit : Option CacheEntry) (asked : Sent) (c : Cache)
    (log : List Happened) (value : Json)
    → cache_get now scope (scope_version scope c) path c ≡ hit
    → IsBackedCache c log
    → (settle now scope (scope_version scope c) path hit (authed_get asked) c).0 ≡ ok (some value)
    → (authed_get asked ≡ ok (some value))
      ⊎ ((until : ℕ) × (now < until) × IsServed scope path value until log)
unfolding settle value_of
settle-IsServed now scope path (some hit) asked c log value found backed h =
    let same : hit.value ≡ value = ap (value_of value) h in
    let key =
      cache_get-is_entry now scope (scope_version scope c) path c (IsBacked c log) backed found in
    elim key.0 [
      | inl old ↦ absurd (not_old old (rw key.1 key.2))
      | inr (current, served) ↦ inr (hit.expires, key.4, rw (sym key.1, sym key.3, sym same) served)
    ]
  where
    not_old : {a b : ℕ} → a < b → a ≡ b → ⊥
    not_old h e = omega (arith, h, e)
settle-IsServed now scope path none asked c log value found backed h =
    inl (sym (settle-none now scope (scope_version scope c) path (authed_get asked) c) ∙ h)

-- Whatever was read, written and waited before: an answer that a read gives is what the cloud answers
-- now, or what it answered in the same scope to the same path, within the last forty-five seconds, and
-- nothing was written in that scope since. The cache serves no other scope's answers.
pub cached_get-IsServed :
    (digest : Text → Text) (es : List Event) (token path : Text) (asked : Sent) (value : Json)
    → let s = run digest es start in
      (cached_get digest s.now path token asked s.cache).0 ≡ ok (some value)
      → (authed_get asked ≡ ok (some value))
        ⊎ ((until : ℕ) × (s.now < until) × IsServed (digest token) (digest path) value until s.log)
unfolding cached_get
cached_get-IsServed digest es token path asked value h =
    let s = run digest es start in
    settle-IsServed s.now (digest token) (digest path) _ asked s.cache s.log value refl
      (run-IsBackedCache digest es start tt) h
