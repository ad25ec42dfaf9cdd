-- ===== src/Util/Cache/Storing.antt =====
-- packages/util/index.js, `processCache`: what a fetch leaves in the cache.
use middy.Util.Cache.Times.{min_time-le, min_time_self}
use middy.Prelude.{
  ℕ, suc, ◌≤◌, ◌<◌, ◌≡◌, refl, ◌∙◌, true, false, Option, none, some, List, length, or_default,
  eq_iff, get, set, IsMap, get-set, set-IsMap, length-set, arith, ok,
}
use middy.Util.Cache.{
  Time, ltb_time, Entry, State, clear_timeout, refresh_of, put_entry, Options, schedule_refresh,
  default_cache_max_size, Values, write_learned, is_enabled, configured, learned_expiry,
}
use middy.Util.Cache.Process.{
  Fetches, store_entry, refetch, run_fetch, new_expiry, fold_learned, learn_all,
}
use middy.Util.Cache.Eviction.{evict_cache-IsMap, evict_cache-keeps, length-evict_cache}
use middy.Util.Cache.Frame.{
  clear_timeout-cache, schedule_refresh-cache, learn_all-IsMap, length-learn_all,
  fold_learned-cache, learn_all-now,
}

abbrev pub max_size_of : Options → ℕ
max_size_of o = or_default o.cache_max_size default_cache_max_size

module _ {P F : Type 0} (o : Options) (f : F) (v : Values P) (expiry : Time) (s : State P F) where
  -- The state and the entry that `store_entry` writes before it evicts.
  abbrev scheduled : Option ℕ × State P F
  scheduled = schedule_refresh expiry o f (clear_timeout (refresh_of o.cache_key s) s)

  abbrev pub stored : Entry P F
  stored = record {
    value = v;
    expiry = expiry;
    refresh = scheduled.0;
    modified = false;
    fetcher = f;
    source = o.source;
  }

  scheduled-cache : scheduled.1.cache ≡ s.cache
  scheduled-cache =
      schedule_refresh-cache expiry o f (clear_timeout (refresh_of o.cache_key s) s)
      ∙ clear_timeout-cache (refresh_of o.cache_key s) s

  get-stored : get o.cache_key (set o.cache_key stored scheduled.1.cache) ≡ some stored
  get-stored = rw get-set (ground (arith, eq_iff o.cache_key o.cache_key))

  scheduled-IsMap : IsMap s.cache → IsMap (set o.cache_key stored scheduled.1.cache)
  scheduled-IsMap h = set-IsMap o.cache_key stored scheduled.1.cache (rw scheduled-cache h)

  pub get-store_entry :
      IsMap s.cache
      → 0 < max_size_of o
      → get o.cache_key (store_entry o f v expiry s).cache ≡ some stored
  unfolding store_entry
  get-store_entry h big =
      evict_cache-keeps (put_entry o.cache_key stored scheduled.1) o.cache_key (max_size_of o)
        (scheduled-IsMap h) get-stored big

  pub store_entry-IsMap : IsMap s.cache → IsMap (store_entry o f v expiry s).cache
  unfolding store_entry
  store_entry-IsMap h =
      evict_cache-IsMap (put_entry o.cache_key stored scheduled.1) o.cache_key (max_size_of o)
        (scheduled-IsMap h)

  length-scheduled : length (set o.cache_key stored scheduled.1.cache) ≤ suc (length s.cache)
  length-scheduled = rw (length-set, scheduled-cache) (ground arith)

  pub length-store_entry :
      IsMap s.cache
      → length s.cache ≤ max_size_of o
      → length (store_entry o f v expiry s).cache ≤ max_size_of o
  unfolding store_entry
  length-store_entry h small =
      length-evict_cache (put_entry o.cache_key stored scheduled.1) o.cache_key (max_size_of o)
        (scheduled-IsMap h) get-stored (omega (arith, length-scheduled))

fold_learned-le :
    {P F : Type 0} (o : Options) (t : Time) (s : State P F)
    → ltb_time t (fold_learned o t s).0 ≡ false
unfolding fold_learned
fold_learned-le o t s =
    ground (arith, min_time-le t (learned_expiry o s), min_time-le t t, min_time_self t)

module _ {P F Q X : Type 0} (fetches : Fetches P F Q X) (o : Options) (f : F) (q : Q)
    (s : State P F) where
  -- The state after the fetch of `refetch`, with the expiries learned on the way.
  abbrev pub after_fetch : List (Option ℕ) → State P F
  after_fetch learns = learn_all o learns (write_learned o none s)

  after_fetch-now : (learns : List (Option ℕ)) → (after_fetch learns).now ≡ s.now
  after_fetch-now learns = learn_all-now o learns (write_learned o none s)

  pub refetch_eq :
      (v : Values P) (learns : List (Option ℕ)) (expiry : Time)
      → fetches.fetch f q none s.now ≡ (ok v, learns)
      → new_expiry (configured o) s.now ≡ some expiry
      → is_enabled (configured o) ≡ true
      → refetch fetches o f q s ≡ (
        ok (v, some (fold_learned o expiry (after_fetch learns)).0),
        store_entry o f v
            (fold_learned o expiry (after_fetch learns)).0
            (fold_learned o expiry (after_fetch learns)).1,
      )
  unfolding refetch run_fetch
  refetch_eq v learns expiry fetched ne enabled = ground (arith, after_fetch-now learns)

  -- With caching enabled by a valid cacheExpiry, room for an entry, no key twice in the cache and
  -- no more entries than its size allows: the values of a fetch that succeeds are handed out and
  -- stored under the key, unmodified and owned by the options' source, with the options' expiry or
  -- an earlier learned one, and there are still no more entries than the size allows.
  pub refetch_stores :
      (v : Values P) (learns : List (Option ℕ)) (expiry : Time)
      → fetches.fetch f q none s.now ≡ (ok v, learns)
      → new_expiry (configured o) s.now ≡ some expiry
      → is_enabled (configured o) ≡ true
      → IsMap s.cache
      → 0 < max_size_of o
      → length s.cache ≤ max_size_of o
      → let capped = (fold_learned o expiry (after_fetch learns)).0 in
        let (r, s') = refetch fetches o f q s in
        (r ≡ ok (v, some capped))
        × (ltb_time expiry capped ≡ false)
        × ((e : Entry P F) × (get o.cache_key s'.cache ≡ some e)
            × (e.value ≡ v)
            × (e.expiry ≡ capped)
            × (e.modified ≡ false)
            × (e.source ≡ o.source))
        × IsMap s'.cache
        × (length s'.cache ≤ max_size_of o)
  refetch_stores v learns expiry fetched ne enabled h big small =
      let now = after_fetch learns in
      let folded = fold_learned o expiry now in
      let same : folded.1.cache ≡ now.cache = fold_learned-cache o expiry now in
      let is_map : IsMap folded.1.cache =
        rw same (learn_all-IsMap o learns (write_learned o none s) h) in
      let fits : length folded.1.cache ≤ max_size_of o = rw (same, length-learn_all) small in
      rw (refetch_eq v learns expiry fetched ne enabled) (
        refl,
        fold_learned-le o expiry now,
        (
          stored o f v folded.0 folded.1,
          get-store_entry o f v folded.0 folded.1 is_map big,
          refl,
          refl,
          refl,
          refl,
        ),
        store_entry-IsMap o f v folded.0 folded.1 is_map,
        length-store_entry o f v folded.0 folded.1 is_map fits,
      )
