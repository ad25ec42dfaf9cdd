-- ===== src/Util/Cache/Timers.antt =====
-- packages/util/index.js: the refresh timers, and one that mending an entry leaves behind.
use middy.Prelude.{
  ℕ, ◌<◌, ◌≡◌, ◌≢◌, refl, Bool, true, false, ◌||◌, Option, none, some, List, [], ◌∷◌, ◌==◌, eq_iff,
  get, set, get-set, arith, ok, ap, sym, String, Bool-cases, inl, inr, if◌then◌else◌, str_eq, ◌∙◌,
}
use middy.Util.Cache.{
  Time, Entry, State, Options, Values, Timer, schedule_refresh, clear_cache, clear_timeout,
  without_timer, refresh_of, assign, put_entry,
}
use middy.Util.Cache.Frame.{schedule_refresh-cache}
use middy.Util.Cache.Process.{Fetches, mend, run_fetch, learn_all, effective_expiry}

abbrev pub is_armed : {F : Type 0} → ℕ → List (Timer F) → Bool
is_armed i [] = false
is_armed i (t ∷ ts) = t.id == i || is_armed i ts

without_timer_other :
    {F : Type 0} (i j : ℕ) (ts : List (Timer F))
    → i ≢ j
    → is_armed i (without_timer j ts) ≡ is_armed i ts
without_timer_other i j [] ne = refl
without_timer_other i j (t ∷ ts) ne = ground (arith, without_timer_other i j ts ne)

module _ {P F : Type 0} (o : Options) (f : F) (t : Time) (s : State P F) (i : ℕ) where
  schedule_refresh-is_armed :
      is_armed i s.timers ≡ true → is_armed i (schedule_refresh t o f s).1.timers ≡ true
  unfolding schedule_refresh
  schedule_refresh-is_armed armed = ground arith

  schedule_refresh_new : i < s.next_timer → (schedule_refresh t o f s).0 ≢ some i
  unfolding schedule_refresh
  schedule_refresh_new old = ground arith

clear_timeout-is_armed :
    {P F : Type 0} (r : Option ℕ) (s : State P F) (i : ℕ)
    → r ≢ some i
    → is_armed i s.timers ≡ true
    → is_armed i (clear_timeout r s).timers ≡ true
unfolding clear_timeout
clear_timeout-is_armed none s i ne armed = armed
clear_timeout-is_armed (some j) s i ne armed =
    rw (without_timer_other i j s.timers (λ e. ne (ap some (sym e)))) armed

module _ {P F Q X : Type 0} (fetches : Fetches P F Q X) (o : Options) (f : F) (q : Q)
    (s : State P F) (e : Entry P F) (i : ℕ) (v : Values P) where
  abbrev mended : Entry P F
  mended = record {
    value = assign e.value v;
    expiry = effective_expiry o e s;
    refresh = (schedule_refresh (effective_expiry o e s) o f s).0;
    modified = false;
    fetcher = f;
    source = o.source;
  }

  abbrev rescheduled : State P F
  rescheduled = (schedule_refresh (effective_expiry o e s) o f s).1

  mend_lem :
      fetches.fetch f q (some e.value) s.now ≡ (ok v, [])
      → mend fetches o f q e s ≡ (
        ok (assign e.value v, some (effective_expiry o e s)),
        put_entry o.cache_key mended rescheduled,
      )
  unfolding mend run_fetch learn_all
  mend_lem fetched = ground arith

  get-mended : get o.cache_key (set o.cache_key mended rescheduled.cache) ≡ some mended
  get-mended = rw get-set (ground (arith, eq_iff o.cache_key o.cache_key))

  -- The entries under other keys are as they were.
  get-mended_other :
      (k : String)
      → str_eq o.cache_key k ≡ false
      → get k (set o.cache_key mended rescheduled.cache) ≡ get k s.cache
  get-mended_other k h =
      get-set o.cache_key k mended rescheduled.cache
      ∙ ap (λ b. if b then some mended else get k rescheduled.cache) h
      ∙ ap (get k) (schedule_refresh-cache (effective_expiry o e s) o f s)

  disowned :
      (k : String) (d : Entry P F)
      → i < s.next_timer
      → ((j : String) (c : Entry P F)
          → get j s.cache ≡ some c
          → c.refresh ≡ some i
          → j ≡ o.cache_key)
      → get k (set o.cache_key mended rescheduled.cache) ≡ some d
      → d.refresh ≢ some i
  disowned k d old only found r = elim (Bool-cases (str_eq o.cache_key k)) [
    | inl h ↦
        let g : some mended ≡ some d =
          sym (
            get-set o.cache_key k mended rescheduled.cache
            ∙ ap (λ b. if b then some mended else get k rescheduled.cache) h)
          ∙ found in
        let c : mended ≡ d = cc in
        schedule_refresh_new o f (effective_expiry o e s) s i old (ap (λ x. x.refresh) c ∙ r)
    | inr h ↦
        let own = only k d (sym (get-mended_other k h) ∙ found) r in
        absurd (ground (arith, h, own, eq_iff o.cache_key k))
  ]

  -- An entry is mended while its own refresh is armed (an expiry was learned after the entry was
  -- marked), and no entry under another key has that timer; the fetch succeeds and learns nothing.
  -- Then no entry of the cache, under any key, has the timer any more, but it stays armed, and
  -- clearing the entry's key does not stop it.
  pub mend_orphans_timer :
      (k : String) (d : Entry P F)
      → fetches.fetch f q (some e.value) s.now ≡ (ok v, [])
      → get o.cache_key s.cache ≡ some e
      → e.refresh ≡ some i
      → ((j : String) (c : Entry P F)
          → get j s.cache ≡ some c
          → c.refresh ≡ some i
          → j ≡ o.cache_key)
      → is_armed i s.timers ≡ true
      → i < s.next_timer
      → get k (mend fetches o f q e s).1.cache ≡ some d
      → (d.refresh ≢ some i)
        × (is_armed i (clear_cache (o.cache_key ∷ []) (mend fetches o f q e s).1).timers ≡ true)
  unfolding clear_cache
  mend_orphans_timer k d fetched own r only armed old found = (
    disowned k d old only (sym (ap (λ x. get k x.1.cache) (mend_lem fetched)) ∙ found),
    rw (mend_lem fetched) (
        clear_timeout-is_armed (refresh_of o.cache_key (put_entry o.cache_key mended rescheduled))
          (put_entry o.cache_key mended rescheduled) i
          (rw (get-mended, refresh_of) (schedule_refresh_new o f (effective_expiry o e s) s i old))
          (schedule_refresh-is_armed o f (effective_expiry o e s) s i armed)),
  )
