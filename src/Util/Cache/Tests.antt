-- ===== src/Util/Cache/Tests.antt =====
-- The cache at concrete states: a fetch named `n` returns the promise `n` under the key "k".
use middy.Prelude.{
  ℕ, ◌≡◌, ◌≢◌, refl, false, true, none, some, [], ◌∷◌, if◌then◌else◌, str_eq, get, IsMap, arith, ok,
  String, eq_iff,
}
use middy.Util.Cache.{
  Time, at, never, millis, Values, Options, Entry, State, configured, schedule_refresh,
  is_schedulable, clear_timeout, learned_expiry, clear_cache, modify_cache, evict_cache_on_failure,
  assign,
}
use middy.Util.Cache.Process.{
  Fetches, refetch, new_expiry, fold_learned, learn_all, process_cache, mend, set_cache_key_expiry,
  clamp_expiry, shorten_entry, run_fetch, effective_expiry,
}
use middy.Util.Cache.RoundTrip.{process_cache_round_trip, at_time}
use middy.Util.Cache.Timers.{mend_orphans_timer, is_armed}

abbrev values : ℕ → Values ℕ
values n k = if str_eq k "k" then some (some n) else none

abbrev fetches : Fetches ℕ ℕ ℕ ℕ
fetches = record { fetch = λ f q good now. (ok (values f), []); no_request = 0 }

abbrev hour : Options
hour = record {
  id = 1;
  source = 5;
  cache_key = "ssm";
  cache_key_expiry = λ k. none;
  cache_expiry = millis 3600000;
  cache_max_size = some 3;
  assumes_role = false;
  disable_prefetch = false;
}

abbrev start : State ℕ ℕ
start = record { now = 1000; cache = []; timers = []; next_timer = 0; learned = λ i k. none }

abbrev entry : ℕ → Time → Entry ℕ ℕ
entry n t = record {
  value = values n;
  expiry = t;
  refresh = none;
  modified = false;
  fetcher = n;
  source = 5;
}

abbrev full : State ℕ ℕ
full = record start {
  cache = ("a", entry 1 never) ∷ ("ssm", entry 2 (at 2000)) ∷ ("b", entry 3 (at 9000)) ∷ [];
}

full-IsMap : IsMap full.cache
full-IsMap = (refl, (refl, (refl, tt)))

process_cache_round_trip_example :
    let later = at_time 50000 (refetch fetches hour 4 0 start).1 in
    process_cache fetches hour 8 1 later ≡ (ok (values 4, some (at 3601000)), later)
unfolding configured new_expiry fold_learned learned_expiry learn_all
process_cache_round_trip_example =
    process_cache_round_trip fetches hour 4 0 start (values 4) [] {expiry = at 3601000} refl refl
      refl tt (omega arith) 50000 8 1 refl

-- A token that lives until 90 000 000 ms.
abbrev stocked : State ℕ ℕ
stocked = record full { now = 86400001; cache = ("ssm", entry 2 (at 90000001)) ∷ [] }

-- How a marked entry comes to have a timer: one key's fetch fails and another key then learns an
-- expiry.
abbrev marked : State ℕ ℕ
marked =
    set_cache_key_expiry hour (some 90000000)
      (evict_cache_on_failure (λ a b. true) "ssm" "k" none stocked)

marked_lem :
    (get "ssm" marked.cache
      ≡ some (record (entry 2 (at 90000000)) {
        value = λ j. if str_eq j "k" then some none else values 2 j;
        refresh = some 0;
        modified = true;
      }))
    × (is_armed 0 marked.timers ≡ true)
unfolding set_cache_key_expiry evict_cache_on_failure modify_cache clamp_expiry shorten_entry
    schedule_refresh is_schedulable configured clear_timeout
marked_lem = (refl, refl)

abbrev marked_entry : Entry ℕ ℕ
marked_entry = record (entry 2 (at 90000000)) {
  value = λ j. if str_eq j "k" then some none else values 2 j;
  refresh = some 0;
  modified = true;
}

abbrev mended_entry : Entry ℕ ℕ
mended_entry = record {
  value = assign marked_entry.value (values 4);
  expiry = at 90000000;
  refresh = some 1;
  modified = false;
  fetcher = 4;
  source = 5;
}

only_ssm :
    (j : String) (c : Entry ℕ ℕ) → get j marked.cache ≡ some c → c.refresh ≡ some 0 → j ≡ "ssm"
unfolding set_cache_key_expiry evict_cache_on_failure modify_cache clamp_expiry shorten_entry
    schedule_refresh is_schedulable configured clear_timeout
only_ssm j c g r = ground (arith, eq_iff "ssm" j)

mend_orphans_timer_example :
    (mended_entry.refresh ≢ some 0)
    × (is_armed 0 (clear_cache ("ssm" ∷ []) (mend fetches hour 4 0 marked_entry marked).1).timers
        ≡ true)
unfolding set_cache_key_expiry evict_cache_on_failure modify_cache clamp_expiry shorten_entry
    schedule_refresh is_schedulable configured clear_timeout mend run_fetch learn_all
    effective_expiry learned_expiry
mend_orphans_timer_example =
    mend_orphans_timer fetches hour 4 0 marked marked_entry 0 (values 4) "ssm" mended_entry refl
      refl refl only_ssm refl (omega arith) refl
