-- ===== src/Util/Cache/Process.antt =====
-- packages/util/index.js: `setCacheKeyExpiry`, `processCache` and its background refresh.
use middy.Prelude.{
  ℕ, ◌+◌, Bool, true, false, not, ◌&&◌, Option, none, some, List, [], ◌∷◌, ltb, ◌==◌, if◌then◌else◌,
  or_default, get, Outcome, ok, err, pending, Action, raise, gets, modify, ◌>>=◌, ◌>>◌,
}
use middy.Util.Cache.{
  Time, at, never, ltb_time, min_time, CacheExpiry, unset, millis, infinite, invalid, day,
  default_cache_max_size, Values, assign, Options, Entry, Timer, State, Error, invalid_expiry,
  key_in_use, fetch_failed, configured, is_enabled, without_timer, clear_timeout, refresh_of,
  schedule_refresh, put_entry, write_learned, learned_expiry, evict_cache,
}

-- The fetches of the middlewares. A call gets the request, the values that are still good in an
-- entry being mended, and the clock; it throws or returns its values, and the expiries that it
-- hands to `setCacheKeyExpiry` before it returns. A background refresh gets `no_request`.
pub record Fetches (P F Q X : Type 0) : Type 0 where
  pub fetch : F → Q → Option (Values P) → ℕ → Outcome X (Values P) × List (Option ℕ)
  pub no_request : Q

-- `Number.isFinite(expiryMs) && expiryMs > 86400000`, over whole milliseconds.
abbrev pub usable : Option ℕ → Time
usable none = never
usable (some t) = if ltb day t then at t else never

abbrev pub finite : Time → Option ℕ
finite never = none
finite (at t) = some t

-- The expiry of a new entry by its options; `none` is `NaN`.
unfoldable pub new_expiry : CacheExpiry → ℕ → Option Time
new_expiry unset now = none
new_expiry (millis n) now = some (if ltb day n then at n else at (now + n))
new_expiry infinite now = some never
new_expiry invalid now = none

module _ {P F : Type 0} where
  -- The earlier of what is learned and what was learned before and is still to come.
  unfoldable pub clamp_expiry : Options → Option ℕ → State P F → Time
  clamp_expiry o expiry s = min_time (usable expiry) (elim (s.learned o.id o.cache_key) [
    | none ↦ never
    | some t ↦ if ltb s.now t then at t else never
  ])

  -- The entry that a learned expiry shortens, and its refresh, which is moved up.
  unfoldable pub shorten_entry : Options → Time → State P F → State P F
  shorten_entry o clamp s = elim (get o.cache_key s.cache) [
    | none ↦ s
    | some e ↦
        let (refresh, s') = schedule_refresh clamp o e.fetcher (clear_timeout e.refresh s) in
        if ltb_time clamp e.expiry && is_enabled (configured o)
        then put_entry o.cache_key (record e { expiry = clamp; refresh = refresh }) s'
        else s
  ]

  -- `setCacheKeyExpiry`; the expiry is `none` if it is no finite number.
  unfoldable pub set_cache_key_expiry : Options → Option ℕ → State P F → State P F
  set_cache_key_expiry o expiry s =
      let clamp = clamp_expiry o expiry s in
      shorten_entry o clamp (write_learned o (finite clamp) s)

  unfoldable pub learn_all : Options → List (Option ℕ) → State P F → State P F
  learn_all o [] s = s
  learn_all o (t ∷ ts) s = learn_all o ts (set_cache_key_expiry o t s)

  -- A timestamp is re-read on every call; a duration or -1 relies on the entry's expiry. Either
  -- is capped by the learned expiry.
  unfoldable pub effective_expiry : Options → Entry P F → State P F → Time
  effective_expiry o e s =
      min_time
        (elim (configured o) [ millis n ↦ if ltb day n then at n else e.expiry | _ ↦ e.expiry ])
        (learned_expiry o s)

  -- `cached.expiry && effectiveExpiry > now`
  unfoldable pub is_unexpired : Options → Entry P F → State P F → Bool
  is_unexpired o e s = ltb_time (at 0) e.expiry && ltb_time (at s.now) (effective_expiry o e s)

  -- A learned expiry that is still to come caps a new entry's; one that has passed is dropped.
  unfoldable pub fold_learned : Options → Time → State P F → Time × State P F
  fold_learned o expiry s =
      if ltb_time (at s.now) (learned_expiry o s)
      then (min_time expiry (learned_expiry o s), s)
      else (expiry, write_learned o none s)

  -- The new entry takes the key, with a refresh of its own, and the cache is cut to its size.
  unfoldable pub store_entry : Options → F → Values P → Time → State P F → State P F
  store_entry o f v expiry s =
      let k = o.cache_key in
      let (refresh, s') = schedule_refresh expiry o f (clear_timeout (refresh_of k s) s) in
      evict_cache (or_default o.cache_max_size default_cache_max_size) k (
        put_entry k
          (record {
            value = v;
            expiry = expiry;
            refresh = refresh;
            modified = false;
            fetcher = f;
            source = o.source;
          })
          s')

module _ {P F Q X : Type 0} (fetches : Fetches P F Q X) where
  abbrev pub fetched : Outcome X (Values P) → Outcome (Error X) (Values P)
  fetched (ok v) = ok v
  fetched (err x) = err (fetch_failed x)
  fetched pending = pending

  unfoldable pub run_fetch :
      Options → F → Q → Option (Values P) → Action (Error X) (State P F) (Values P)
  run_fetch o f q good s =
      let (r, learns) = fetches.fetch f q good s.now in (fetched r, learn_all o learns s)

  -- A fetch whose result is not served from the cache.
  unfoldable pub refetch : Options → F → Q → Action (Error X) (State P F) (Values P × Option Time)
  refetch o f q = do
    modify (write_learned o none)
    v ← run_fetch o f q none
    λ s. elim (new_expiry (configured o) s.now) [
      | none ↦ (ok (v, none), s)
      | some expiry ↦
          let (capped, s') = fold_learned o expiry s in
          if is_enabled (configured o)
          then (ok (v, some capped), store_entry o f v capped s')
          else (ok (v, some expiry), s)
    ]

  -- An entry with keys to mend: they are fetched and merged into its values.
  unfoldable pub mend :
      Options → F → Q → Entry P F → Action (Error X) (State P F) (Values P × Option Time)
  mend o f q e = do
    effective ← gets (effective_expiry o e)
    v ← run_fetch o f q (some e.value)
    λ s.
        let (refresh, s') = schedule_refresh effective o f s in
        let new = assign e.value v in
        (
          ok (new, some effective),
          put_entry o.cache_key
              (record {
                value = new;
                expiry = effective;
                refresh = refresh;
                modified = false;
                fetcher = f;
                source = o.source;
              })
              s',
        )

  -- An entry found under the key.
  unfoldable pub serve :
      Options → F → Q → Entry P F → Action (Error X) (State P F) (Values P × Option Time)
  serve o f q e s =
      if not (e.source == o.source)
      then (err key_in_use, s)
      else if is_unexpired o e s
      then (if e.modified then mend o f q e s else (ok (e.value, some e.expiry), s))
      else refetch o f q s

  unfoldable pub look_up : Options → F → Q → Action (Error X) (State P F) (Values P × Option Time)
  look_up o f q s = elim (get o.cache_key s.cache) [
    | none ↦ refetch o f q s
    | some e ↦ serve o f q e s
  ]

  -- `processCacheEntry`; `force` skips the read.
  unfoldable pub process_cache_entry :
      Options → F → Q → Bool → Action (Error X) (State P F) (Values P × Option Time)
  process_cache_entry o f q force = elim (configured o) [
    | invalid ↦ raise invalid_expiry
    | _ ↦ if is_enabled (configured o) && not force then look_up o f q else refetch o f q
  ]

  -- `processCache`
  unfoldable pub process_cache :
      Options → F → Q → Action (Error X) (State P F) (Values P × Option Time)
  process_cache o f q = process_cache_entry o f q false

  -- A timer fires: it is spent, and its callback refetches. What the callback throws is lost.
  unfoldable pub fire_timer : Timer F → State P F → State P F
  fire_timer t s =
      (process_cache_entry t.options t.fetcher fetches.no_request true
        (record s { timers = without_timer t.id s.timers })).1
