-- ===== src/Util/Cache/Expiry.antt =====
-- packages/util/index.js, `setCacheKeyExpiry`: a learned expiry only ever shortens.
use middy.Prelude.{
  ℕ, ◌≡◌, refl, String, false, inl, inr, Option, none, some, ltb, if◌then◌else◌, str_eq, eq_iff,
  get, get-set, arith, Bool-cases,
}
use middy.Util.Cache.{
  Time, at, never, ltb_time, min_time, Entry, State, Options, write_learned, learned_expiry,
}
use middy.Util.Cache.Process.{set_cache_key_expiry, shorten_entry, clamp_expiry, usable, finite}
use middy.Util.Cache.Frame.{set_cache_key_expiry-Shortens, shorten_entry-learned}
use middy.Util.Cache.Times.{ltb_time_asym, ltb_time_irrefl}

module _ {P F : Type 0} (o : Options) (t : Option ℕ) (s : State P F) where
  -- Every entry keeps its values, its fetch and its owner, and expires no later than before; no
  -- entry is lost.
  pub set_cache_key_expiry_only_shortens :
      (k : String) {e : Entry P F}
      → get k s.cache ≡ some e
      → (e' : Entry P F) × (get k (set_cache_key_expiry o t s).cache ≡ some e')
        × (ltb_time e.expiry e'.expiry ≡ false)
        × (e'.value ≡ e.value)
        × (e'.fetcher ≡ e.fetcher)
        × (e'.source ≡ e.source)
  set_cache_key_expiry_only_shortens k {e} found = elim (set_cache_key_expiry-Shortens o t s) [
    | inl same ↦ (e, rw same found, ltb_time_irrefl e.expiry, refl, refl, refl)
    | inr (d, r, there, shorter, same) ↦ elim (Bool-cases (str_eq o.cache_key k)) [
      | inl key ↦
          let d-eq-e : d ≡ e = ground (arith, eq_iff o.cache_key k) in
          (
            record d { expiry = clamp_expiry o t s; refresh = r },
            rw same (rw get-set (rw key)),
            rw (← d-eq-e) (ltb_time_asym (clamp_expiry o t s) d.expiry shorter),
            rw d-eq-e,
            rw d-eq-e,
            rw d-eq-e,
          )
      | inr other ↦
          (e, rw same (rw get-set (rw other found)), ltb_time_irrefl e.expiry, refl, refl, refl)
    ]
  ]

  finite_lem : (a : Time) → elim (finite a) [ none ↦ never | some u ↦ at u ] ≡ a
  finite_lem (at a) = refl
  finite_lem never = refl

  learned_expiry-write :
      (c : Time) (z : State P F)
      → learned_expiry o (shorten_entry o c (write_learned o (finite c) z)) ≡ c
  unfolding learned_expiry
  learned_expiry-write c z =
      rw (shorten_entry-learned o c (write_learned o (finite c) z))
        (ground (arith, eq_iff o.cache_key o.cache_key, finite_lem c))

  -- What is learned is the new expiry, if it is a unix timestamp above 24 hours, or an earlier one
  -- that was learned before and is still to come.
  pub learned_expiry-set_cache_key_expiry :
      learned_expiry o (set_cache_key_expiry o t s)
      ≡ min_time (usable t) (elim (s.learned o.id o.cache_key) [
        | none ↦ never
        | some u ↦ if ltb s.now u then at u else never
      ])
  unfolding set_cache_key_expiry clamp_expiry
  learned_expiry-set_cache_key_expiry = learned_expiry-write (clamp_expiry o t s) s
