-- ===== src/Util/Cache/Frame.antt =====
-- packages/util/index.js: what the cache's helpers leave alone.
use middy.Prelude.{
  ℕ, ◌≡◌, refl, Option, some, List, [], ◌∷◌, arith, get, length, length-set, IsMap, set, set-IsMap,
  Option-cases, inl, inr, Assoc, Bool-cases, ◌⊎◌, ◌&&◌, ◌∙◌, true,
}
use middy.Util.Cache.{
  Time, Options, State, Entry, clear_timeout, schedule_refresh, write_learned, ltb_time, is_enabled,
  configured,
}
use middy.Util.Cache.Process.{
  set_cache_key_expiry, shorten_entry, clamp_expiry, finite, learn_all, fold_learned,
}

module _ {P F : Type 0} where
  pub clear_timeout-cache : (r : Option ℕ) (s : State P F) → (clear_timeout r s).cache ≡ s.cache
  unfolding clear_timeout
  clear_timeout-cache r s = ground arith

  pub clear_timeout-now : (r : Option ℕ) (s : State P F) → (clear_timeout r s).now ≡ s.now
  unfolding clear_timeout
  clear_timeout-now r s = ground arith

  pub schedule_refresh-cache :
      (t : Time) (o : Options) (f : F) (s : State P F)
      → (schedule_refresh t o f s).1.cache ≡ s.cache
  unfolding schedule_refresh
  schedule_refresh-cache t o f s = ground arith

  pub schedule_refresh-now :
      (t : Time) (o : Options) (f : F) (s : State P F) → (schedule_refresh t o f s).1.now ≡ s.now
  unfolding schedule_refresh
  schedule_refresh-now t o f s = ground arith

  pub schedule_refresh-learned :
      (t : Time) (o : Options) (f : F) (s : State P F)
      → (schedule_refresh t o f s).1.learned ≡ s.learned
  unfolding schedule_refresh
  schedule_refresh-learned t o f s = ground arith

  pub clear_timeout-learned :
      (r : Option ℕ) (s : State P F) → (clear_timeout r s).learned ≡ s.learned
  unfolding clear_timeout
  clear_timeout-learned r s = ground arith

  pub fold_learned-cache :
      (o : Options) (t : Time) (s : State P F) → (fold_learned o t s).1.cache ≡ s.cache
  unfolding fold_learned
  fold_learned-cache o t s = ground arith

  -- What `setCacheKeyExpiry` does to the entries: nothing, or it brings the expiry and the refresh
  -- of the key's entry forward.
  abbrev pub Shortens : Options → Time → Assoc (Entry P F) → Assoc (Entry P F) → Type 0
  Shortens o t m m' =
      (m' ≡ m)
      ⊎ ((e : Entry P F) × (r : Option ℕ) × (get o.cache_key m ≡ some e)
          × (ltb_time t e.expiry ≡ true)
          × (m' ≡ set o.cache_key (record e { expiry = t; refresh = r }) m))

  shorten_entry-Shortens :
      (o : Options) (t : Time) (s : State P F) → Shortens o t s.cache (shorten_entry o t s).cache
  unfolding shorten_entry
  shorten_entry-Shortens o t s = elim (Option-cases (get o.cache_key s.cache)) [
    | inl missing ↦ inl (ground arith)
    | inr (e, found) ↦ elim (Bool-cases (ltb_time t e.expiry && is_enabled (configured o))) [
      | inl shorter ↦ inr (
        e,
        (schedule_refresh t o e.fetcher (clear_timeout e.refresh s)).0,
        found,
        ground arith,
        ground (
          arith,
          schedule_refresh-cache t o e.fetcher (clear_timeout e.refresh s),
          clear_timeout-cache e.refresh s,
        ),
      )
      | inr longer ↦ inl (ground arith)
    ]
  ]

  pub set_cache_key_expiry-Shortens :
      (o : Options) (t : Option ℕ) (s : State P F)
      → Shortens o (clamp_expiry o t s) s.cache (set_cache_key_expiry o t s).cache
  unfolding set_cache_key_expiry
  set_cache_key_expiry-Shortens o t s =
      shorten_entry-Shortens o (clamp_expiry o t s)
        (write_learned o (finite (clamp_expiry o t s)) s)

  set_cache_key_expiry-IsMap :
      (o : Options) (t : Option ℕ) (s : State P F)
      → IsMap s.cache
      → IsMap (set_cache_key_expiry o t s).cache
  set_cache_key_expiry-IsMap o t s h = elim (set_cache_key_expiry-Shortens o t s) [
    | inl same ↦ rw same h
    | inr (e, r, found, shorter, same) ↦ rw same (set-IsMap o.cache_key _ s.cache h)
  ]

  length-set_cache_key_expiry :
      (o : Options) (t : Option ℕ) (s : State P F)
      → length (set_cache_key_expiry o t s).cache ≡ length s.cache
  length-set_cache_key_expiry o t s = elim (set_cache_key_expiry-Shortens o t s) [
    | inl same ↦ rw same
    | inr (e, r, found, shorter, same) ↦ rw same (rw length-set (ground arith))
  ]

  pub shorten_entry-now :
      (o : Options) (t : Time) (s : State P F) → (shorten_entry o t s).now ≡ s.now
  unfolding shorten_entry
  shorten_entry-now o t s = elim (Option-cases (get o.cache_key s.cache)) [
    | inl missing ↦ ground arith
    | inr (e, found) ↦ ground (
      arith,
      schedule_refresh-now t o e.fetcher (clear_timeout e.refresh s),
      clear_timeout-now e.refresh s,
    )
  ]

  pub learn_all-now :
      (o : Options) (ts : List (Option ℕ)) (s : State P F) → (learn_all o ts s).now ≡ s.now
  unfolding learn_all set_cache_key_expiry
  learn_all-now o [] s = refl
  learn_all-now o (t ∷ ts) s =
      learn_all-now o ts (set_cache_key_expiry o t s) ∙ shorten_entry-now o (clamp_expiry o t s) _

  pub learn_all-IsMap :
      (o : Options) (ts : List (Option ℕ)) (s : State P F)
      → IsMap s.cache
      → IsMap (learn_all o ts s).cache
  unfolding learn_all
  learn_all-IsMap o [] s h = h
  learn_all-IsMap o (t ∷ ts) s h =
      learn_all-IsMap o ts (set_cache_key_expiry o t s) (set_cache_key_expiry-IsMap o t s h)

  pub length-learn_all :
      (o : Options) (ts : List (Option ℕ)) (s : State P F)
      → length (learn_all o ts s).cache ≡ length s.cache
  unfolding learn_all
  length-learn_all o [] s = refl
  length-learn_all o (t ∷ ts) s =
      length-learn_all o ts (set_cache_key_expiry o t s) ∙ length-set_cache_key_expiry o t s

  pub shorten_entry-learned :
      (o : Options) (t : Time) (s : State P F) → (shorten_entry o t s).learned ≡ s.learned
  unfolding shorten_entry
  shorten_entry-learned o t s = elim (Option-cases (get o.cache_key s.cache)) [
    | inl missing ↦ ground arith
    | inr (e, found) ↦ ground (
      arith,
      schedule_refresh-learned t o e.fetcher (clear_timeout e.refresh s),
      clear_timeout-learned e.refresh s,
    )
  ]
