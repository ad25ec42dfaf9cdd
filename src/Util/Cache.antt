-- ===== src/Util/Cache.antt =====
-- packages/util/index.js: the fetch cache, its entries, timers and expiries.
pub mod Process
pub mod Eviction
pub mod Frame
pub mod Storing
pub mod Times
pub mod Expiry
pub mod Timers
mod Tests
pub mod Serving
pub mod RoundTrip
use middy.Prelude.{
  ℕ, zero, suc, ◌+◌, ◌-◌, ◌≡◌, String, Bool, true, false, not, ◌&&◌, ◌||◌, Option, none, some, List,
  [], ◌∷◌, ◌++◌, ltb, leb, ◌==◌, min, if◌then◌else◌, is_some, or_default, str_eq, Assoc, get, set,
  delete, length, Outcome, ok, err, Action, pure, raise, gets, modify, ◌>>=◌, ◌>>◌,
}

-- A point in time: milliseconds of the unix clock, or `Infinity`.
pub data Time : Type 0 where
  at : ℕ → Time
  never : Time

abbrev pub ltb_time : Time → Time → Bool
ltb_time (at a) (at b) = ltb a b
ltb_time (at a) never = true
ltb_time never t = false

-- `Math.min`
abbrev pub min_time : Time → Time → Time
min_time (at a) (at b) = at (min a b)
min_time (at a) never = at a
min_time never t = t

-- The `cacheExpiry` option: `undefined` or `null`, a whole number of milliseconds, -1, or any
-- other number.
pub data CacheExpiry : Type 0 where
  unset : CacheExpiry
  millis : ℕ → CacheExpiry
  infinite : CacheExpiry
  invalid : CacheExpiry

-- Above 24 hours a `cacheExpiry` is a unix timestamp, up to there a duration.
abbrev pub day : ℕ
day = 86400000

abbrev pub max_timeout_duration : ℕ
max_timeout_duration = 2147483647

abbrev pub default_cache_max_size : ℕ
default_cache_max_size = 128

-- What a fetch returns: fetch keys with their promises. `some none` is a key that is present and
-- `undefined`.
abbrev pub Values : Type 0 → Type 0
Values P = String → Option (Option P)

-- `Object.assign(old, new)`
abbrev pub assign : {P : Type 0} → Values P → Values P → Values P
assign old new k = elim (new k) [ none ↦ old k | some v ↦ some v ]

-- The options that the cache reads. `id` is the identity of the options object, and `source` the
-- id of what it fetches (`fetchSourceId`).
pub record Options : Type 0 where
  pub id : ℕ
  pub source : ℕ
  pub cache_key : String
  pub cache_key_expiry : String → Option CacheExpiry
  pub cache_expiry : CacheExpiry
  pub cache_max_size : Option ℕ
  pub assumes_role : Bool
  pub disable_prefetch : Bool

-- An entry. `refresh` is the id of its timer, and `F` names the middleware's fetch.
pub record Entry (P F : Type 0) : Type 0 where
  pub value : Values P
  pub expiry : Time
  pub refresh : Option ℕ
  pub modified : Bool
  pub fetcher : F
  pub source : ℕ

-- A background refresh that is due at a time.
pub record Timer (F : Type 0) : Type 0 where
  pub id : ℕ
  pub due : ℕ
  pub options : Options
  pub fetcher : F

-- The module's state: the clock, the entries, the timers, and `cacheLearnedExpiry` of every
-- options object.
pub record State (P F : Type 0) : Type 0 where
  pub now : ℕ
  pub cache : Assoc (Entry P F)
  pub timers : List (Timer F)
  pub next_timer : ℕ
  pub learned : ℕ → String → Option ℕ

pub data Error (X : Type 0) : Type 0 where
  invalid_expiry key_in_use : Error X
  fetch_failed : X → Error X

-- `cacheKeyExpiry?.[cacheKey] ?? cacheExpiry`
unfoldable pub configured : Options → CacheExpiry
configured o = or_default (o.cache_key_expiry o.cache_key) o.cache_expiry

-- Whether an expiry enables the cache: 0, `undefined` and `null` do not.
abbrev pub is_enabled : CacheExpiry → Bool
is_enabled unset = false
is_enabled (millis n) = ltb 0 n
is_enabled infinite = true
is_enabled invalid = true

abbrev pub due_of : Time → ℕ
due_of never = 0
due_of (at t) = t

abbrev pub without_timer : {F : Type 0} → ℕ → List (Timer F) → List (Timer F)
without_timer i [] = []
without_timer i (t ∷ ts) = let rest = without_timer i ts in if t.id == i then rest else t ∷ rest

-- A key's promise; a key that is absent reads as `undefined`.
abbrev pub promise_of : {P : Type 0} → Values P → String → Option P
promise_of v k = elim (v k) [ none ↦ none | some p ↦ p ]

module _ {P F : Type 0} where
  -- `clearTimeout`
  unfoldable pub clear_timeout : Option ℕ → State P F → State P F
  clear_timeout none s = s
  clear_timeout (some i) s = record s { timers = without_timer i s.timers }

  abbrev pub refresh_of : String → State P F → Option ℕ
  refresh_of k s = elim (get k s.cache) [ none ↦ none | some e ↦ e.refresh ]

  -- The tests of `scheduleRefresh`: a positive delay that `setTimeout` takes, and no assumed role.
  unfoldable pub is_schedulable : Time → Options → State P F → Bool
  is_schedulable never o s = false
  is_schedulable (at t) o s =
      ltb 0 (t - s.now) && leb (t - s.now) max_timeout_duration && not o.assumes_role

  -- `scheduleRefresh(expiry - now, …)`
  unfoldable pub schedule_refresh : Time → Options → F → State P F → Option ℕ × State P F
  schedule_refresh expiry o f s =
      if is_schedulable expiry o s
      then (
        some s.next_timer,
        record s {
          timers =
              record { id = s.next_timer; due = due_of expiry; options = o; fetcher = f }
              ∷ s.timers;
          next_timer = suc s.next_timer;
        },
      )
      else (none, s)

  abbrev pub put_entry : String → Entry P F → State P F → State P F
  put_entry k e s = record s { cache = set k e s.cache }

  abbrev pub write_learned : Options → Option ℕ → State P F → State P F
  write_learned o v s = record s {
    learned = λ i k. if i == o.id && str_eq k o.cache_key then v else s.learned i k;
  }

  -- `learnedExpiry`
  unfoldable pub learned_expiry : Options → State P F → Time
  learned_expiry o s = elim (s.learned o.id o.cache_key) [ none ↦ never | some t ↦ at t ]

  -- `modifyCache`
  unfoldable pub modify_cache : String → Values P → State P F → State P F
  modify_cache k v s = elim (get k s.cache) [
    | none ↦ s
    | some e ↦ put_entry k (record e { value = v; modified = true }) (clear_timeout e.refresh s)
  ]

  -- The handler that `evictCacheOnFailure` makes, up to its rethrow: `same` is `===` on promises,
  -- and `values` what the fetch returned, if it is given.
  unfoldable pub evict_cache_on_failure :
      (Option P → Option P → Bool) → String → String → Option (Values P) → State P F → State P F
  evict_cache_on_failure same k internal_key values s = elim (get k s.cache) [
    | none ↦ s
    | some e ↦
        if elim values [
          | none ↦ true
          | some v ↦ same (promise_of e.value internal_key) (promise_of v internal_key)
        ]
        then modify_cache k (λ j. if str_eq j internal_key then some none else e.value j) s
        else s
  ]

  -- `clearCache` of a list of keys.
  unfoldable pub clear_cache : List String → State P F → State P F
  clear_cache [] s = s
  clear_cache (k ∷ ks) s =
      let cleared = clear_timeout (refresh_of k s) s in
      clear_cache ks (record cleared { cache = delete k cleared.cache })

  abbrev pub keys : Assoc (Entry P F) → List String
  keys [] = []
  keys ((k, e) ∷ m) = k ∷ keys m

  -- `clearCache()`
  unfoldable pub clear_all : State P F → State P F
  clear_all s = clear_cache (keys s.cache) s

  -- A round of the loop of `evictCache`: the inserted key is passed over, and only an entry that
  -- expires before the candidate replaces it.
  unfoldable pub better :
      String → Option (String × Time) → String → Entry P F → Option (String × Time)
  better inserted none k e = if str_eq k inserted then none else some (k, e.expiry)
  better inserted (some (j, t)) k e =
      if not (str_eq k inserted) && ltb_time e.expiry t then some (k, e.expiry) else some (j, t)

  unfoldable pub oldest :
      String → Assoc (Entry P F) → Option (String × Time) → Option (String × Time)
  oldest inserted [] best = best
  oldest inserted ((k, e) ∷ m) best = oldest inserted m (better inserted best k e)

  abbrev pub victim : String → Assoc (Entry P F) → String
  victim inserted m = elim (oldest inserted m none) [ none ↦ inserted | some (k, t) ↦ k ]

  -- `evictCache`
  unfoldable pub evict_cache : ℕ → String → State P F → State P F
  evict_cache max_size inserted s =
      let k = victim inserted s.cache in
      let cleared = clear_timeout (refresh_of k s) s in
      if leb (length s.cache) max_size then s else record cleared { cache = delete k s.cache }
