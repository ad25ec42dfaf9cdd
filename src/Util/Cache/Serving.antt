-- ===== src/Util/Cache/Serving.antt =====
-- packages/util/index.js, `processCache`: when an entry is served, and when it is fetched anew.
use middy.Prelude.{◌≡◌, ◌∙◌, true, false, some, get, arith, ok, err, ◌≢◌}
use middy.Util.Cache.{
  at, ltb_time, invalid, Entry, State, Options, is_enabled, configured, key_in_use,
}
use middy.Util.Cache.Process.{
  Fetches, refetch, effective_expiry, is_unexpired, process_cache, process_cache_entry, look_up,
  serve,
}

module _ {P F : Type 0} where
  -- The entry is good at the state's time: the time lies before its expiry, before the timestamp
  -- that the options give, if they do, and before the learned expiry.
  abbrev pub IsGood : Options → Entry P F → State P F → Type 0
  IsGood o e s =
      (ltb_time (at 0) e.expiry ≡ true) × (ltb_time (at s.now) (effective_expiry o e s) ≡ true)

  is_unexpired-IsGood :
      (o : Options) (e : Entry P F) (s : State P F) → IsGood o e s → is_unexpired o e s ≡ true
  unfolding is_unexpired
  is_unexpired-IsGood o e s h = ground arith

module _ {P F Q X : Type 0} (fetches : Fetches P F Q X) (o : Options) (f : F) (q : Q)
    (s : State P F) (e : Entry P F) (enabled : is_enabled (configured o) ≡ true)
    (valid : configured o ≢ invalid) (found : get o.cache_key s.cache ≡ some e) where
  read : process_cache fetches o f q s ≡ serve fetches o f q e s
  unfolding process_cache process_cache_entry look_up
  read = ground arith

  -- With caching enabled by a valid cacheExpiry, an entry of the same data that is not modified and
  -- has not expired is handed out as it is: nothing is fetched and nothing changes.
  pub process_cache_hit :
      e.source ≡ o.source
      → e.modified ≡ false
      → IsGood o e s
      → process_cache fetches o f q s ≡ (ok (e.value, some e.expiry), s)
  unfolding serve
  process_cache_hit same clean good = read ∙ ground (arith, is_unexpired-IsGood o e s good)

  -- With caching enabled by a valid cacheExpiry, an entry of other data is not handed out: the call
  -- throws and changes nothing.
  pub process_cache_foreign :
      e.source ≢ o.source → process_cache fetches o f q s ≡ (err key_in_use, s)
  unfolding serve
  process_cache_foreign other = read ∙ ground arith

  -- With caching enabled by a valid cacheExpiry, an entry of the same data is fetched anew from its
  -- effective expiry on: the configured timestamp or else its own expiry, or an earlier learned one.
  pub process_cache_expired :
      e.source ≡ o.source
      → ltb_time (at s.now) (effective_expiry o e s) ≡ false
      → process_cache fetches o f q s ≡ refetch fetches o f q s
  unfolding serve is_unexpired
  process_cache_expired same late = read ∙ ground arith
