-- ===== src/Util/Cache/RoundTrip.antt =====
-- packages/util/index.js, `processCache`: what one call has fetched, later calls are served.
use middy.Util.Cache.Times.{min_time_assoc, min_time-never}
use middy.Prelude.{
  ℕ, ◌<◌, ◌≡◌, ◌≢◌, refl, ◌∙◌, String, true, Option, none, some, List, eq_iff, IsMap, arith,
  Bool-cases, inl, inr, ok,
}
use middy.Util.Cache.{
  Time, at, never, ltb_time, min_time, CacheExpiry, invalid, State, evict_cache, clear_timeout,
  refresh_of, Options, Values, write_learned, is_enabled, configured, learned_expiry,
}
use middy.Util.Cache.Process.{
  Fetches, store_entry, refetch, new_expiry, fold_learned, effective_expiry, process_cache,
}
use middy.Util.Cache.Storing.{stored, get-store_entry, max_size_of, after_fetch, refetch_eq}
use middy.Util.Cache.Serving.{process_cache_hit}
use middy.Util.Cache.Frame.{
  fold_learned-cache, learn_all-IsMap, schedule_refresh-learned, clear_timeout-learned,
}

abbrev pub at_time : {P F : Type 0} → ℕ → State P F → State P F
at_time t s = record s { now = t }

module _ {P F : Type 0} where
  evict_cache-learned :
      (n : ℕ) (k : String) (s : State P F) → (evict_cache n k s).learned ≡ s.learned
  unfolding evict_cache clear_timeout
  evict_cache-learned n k s = ground arith

  store_entry-learned :
      (o : Options) (f : F) (v : Values P) (t : Time) (s : State P F)
      → (store_entry o f v t s).learned ≡ s.learned
  unfolding store_entry
  store_entry-learned o f v t s =
      evict_cache-learned _ _ _
      ∙ schedule_refresh-learned t o f (clear_timeout (refresh_of o.cache_key s) s)
      ∙ clear_timeout-learned (refresh_of o.cache_key s) s

  learned_expiry_of :
      (o : Options) (s s' : State P F)
      → s'.learned ≡ s.learned
      → learned_expiry o s' ≡ learned_expiry o s
  unfolding learned_expiry
  learned_expiry_of o s s' e = rw e

  write_learned-never :
      (o : Options) (s : State P F) → learned_expiry o (write_learned o none s) ≡ never
  unfolding learned_expiry
  write_learned-never o s = ground (arith, eq_iff o.cache_key o.cache_key)

  -- Folding the learned expiry in once more changes nothing.
  fold_learned_capped :
      (o : Options) (t : Time) (s : State P F)
      → min_time (fold_learned o t s).0 (learned_expiry o (fold_learned o t s).1)
        ≡ (fold_learned o t s).0
  unfolding fold_learned
  fold_learned_capped o t s = elim (Bool-cases (ltb_time (at s.now) (learned_expiry o s))) [
    | inl ahead ↦ rw ahead (min_time_assoc t (learned_expiry o s))
    | inr past ↦ rw past (rw (write_learned-never o s) (min_time-never t))
  ]

  fold_learned_timestamp :
      (o : Options) (t : Time) (s : State P F)
      → min_time t (learned_expiry o (fold_learned o t s).1) ≡ (fold_learned o t s).0
  unfolding fold_learned
  fold_learned_timestamp o t s = elim (Bool-cases (ltb_time (at s.now) (learned_expiry o s))) [
    | inl ahead ↦ rw ahead
    | inr past ↦ rw past (rw (write_learned-never o s) (min_time-never t))
  ]

module _ {P F Q X : Type 0} (fetches : Fetches P F Q X) (o : Options) (f : F) (q : Q)
    (s : State P F) (v : Values P) (learns : List (Option ℕ)) {expiry : Time}
    (fetched : fetches.fetch f q none s.now ≡ (ok v, learns))
    (fresh : new_expiry (configured o) s.now ≡ some expiry)
    (enabled : is_enabled (configured o) ≡ true) where
  abbrev pub capped : Time
  capped = (fold_learned o expiry (after_fetch fetches o f q s learns)).0

  abbrev folded : State P F
  folded = (fold_learned o expiry (after_fetch fetches o f q s learns)).1

  effective_expiry-stored :
      (c : CacheExpiry) (t : ℕ)
      → configured o ≡ c
      → new_expiry c s.now ≡ some expiry
      → effective_expiry o
          (stored o f v capped folded)
          (at_time t (store_entry o f v capped folded))
        ≡ capped
  unfolding effective_expiry new_expiry
  effective_expiry-stored c t e n = ground (
    arith,
    learned_expiry_of o folded (at_time t (store_entry o f v capped folded))
        (store_entry-learned o f v capped folded),
    fold_learned_capped o expiry (after_fetch fetches o f q s learns),
    fold_learned_timestamp o expiry (after_fetch fetches o f q s learns),
  )

  new_expiry_valid : configured o ≢ invalid
  unfolding new_expiry
  new_expiry_valid e = ground arith

  ltb_time_zero : (t : ℕ) (a : Time) → ltb_time (at t) a ≡ true → ltb_time (at 0) a ≡ true
  ltb_time_zero t (at a) h = ground arith
  ltb_time_zero t never h = refl

  -- With caching enabled by a valid cacheExpiry, room for an entry, and no key twice in the cache:
  -- the values of a fetch that succeeded, once stored, are served to a later call with the same
  -- options, whatever its fetch and its request, at every time up to the entry's expiry; nothing is
  -- fetched and nothing changes.
  pub process_cache_round_trip :
      IsMap s.cache
      → 0 < max_size_of o
      → (t : ℕ) (g : F) (q' : Q) → ltb_time (at t) capped ≡ true
      → let later = at_time t (refetch fetches o f q s).1 in
        process_cache fetches o g q' later ≡ (ok (v, some capped), later)
  process_cache_round_trip h big t g q' soon =
      rw (refetch_eq fetches o f q s v learns expiry fetched fresh enabled) (
        process_cache_hit fetches o g q' (at_time t (store_entry o f v capped folded))
          (stored o f v capped folded) enabled new_expiry_valid
          (get-store_entry o f v capped folded folded-IsMap big) refl refl
          (
            ltb_time_zero t capped soon,
            rw (effective_expiry-stored (configured o) t refl fresh) soon,
          ))
    where
      folded-IsMap : IsMap folded.cache
      folded-IsMap =
          rw (fold_learned-cache o expiry (after_fetch fetches o f q s learns))
            (learn_all-IsMap o learns (write_learned o none s) h)
