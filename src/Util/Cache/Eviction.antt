-- ===== src/Util/Cache/Eviction.antt =====
-- packages/util/index.js, `evictCache`: which entry goes, and how large the cache grows.
use middy.Util.Cache.Times.{ltb_time_trans, ltb_time_asym, ltb_time_irrefl}
use middy.Prelude.{
  ℕ, suc, ◌≤◌, ◌<◌, ◌≡◌, ◌≢◌, refl, String, true, false, not, ◌&&◌, ◌⊎◌, inl, inr, Option, none,
  some, [], ◌∷◌, leb, length, str_eq, eq_iff, Assoc, get, has, delete, IsMap, get-delete,
  delete-IsMap, length-delete, arith, Bool-cases, All,
}
use middy.Util.Cache.{Time, ltb_time, Entry, State, better, oldest, victim, evict_cache}

-- The second candidate is as good as the first.
abbrev Improves : Option (String × Time) → Option (String × Time) → Type 0
Improves none b = Unit
Improves (some (j, t)) none = ⊥
Improves (some (j, t)) (some (k, u)) = ltb_time t u ≡ false

Improves-trans : (a b c : Option (String × Time)) → Improves a b → Improves b c → Improves a c
Improves-trans none b c h k = tt
Improves-trans (some a) none c h k = absurd h
Improves-trans (some a) (some b) none h k = absurd k
Improves-trans (some (i, a)) (some (j, b)) (some (k, c)) h h' = ltb_time_trans c b a h' h

module _ {P F : Type 0} (inserted : String) where
  -- What is true of the candidate: it is an entry of the map, and not the inserted one.
  abbrev IsCandidate : Assoc (Entry P F) → Option (String × Time) → Type 0
  IsCandidate w none = Unit
  IsCandidate w (some (k, t)) =
      (k ≢ inserted) × (e : Entry P F) × (get k w ≡ some e) × (e.expiry ≡ t)

  better-IsCandidate :
      (w : Assoc (Entry P F)) (best : Option (String × Time)) (k : String) (e : Entry P F)
      → get k w ≡ some e
      → IsCandidate w best
      → IsCandidate w (better inserted best k e)
  unfolding better
  better-IsCandidate w none k e p h = elim (Bool-cases (str_eq k inserted)) [
    | inl same ↦ rw same tt
    | inr other ↦ rw other ((ground (arith, eq_iff k inserted)), e, p, refl)
  ]
  better-IsCandidate w (some (j, t)) k e p h =
      elim (Bool-cases (not (str_eq k inserted) && ltb_time e.expiry t)) [
        | inl earlier ↦ rw earlier ((ground (arith, eq_iff k inserted)), e, p, refl)
        | inr later ↦ rw later h
      ]

  get-cons : (k : String) (e : Entry P F) (m : Assoc (Entry P F)) → get k ((k, e) ∷ m) ≡ some e
  get-cons k e m = ground (arith, eq_iff k k)

  get-tail :
      (j k : String) (d e : Entry P F) (m : Assoc (Entry P F))
      → get k m ≡ none
      → get j m ≡ some d
      → get j ((k, e) ∷ m) ≡ some d
  get-tail j k d e m h p = ground (arith, eq_iff k j)

  oldest-IsCandidate :
      (w m : Assoc (Entry P F)) (best : Option (String × Time))
      → IsMap m
      → ((k : String) (e : Entry P F) → get k m ≡ some e → get k w ≡ some e)
      → IsCandidate w best
      → IsCandidate w (oldest inserted m best)
  unfolding oldest
  oldest-IsCandidate w [] best unique sub h = h
  oldest-IsCandidate w ((k, e) ∷ m) best (fresh, unique) sub h =
      oldest-IsCandidate w m (better inserted best k e) unique
        (λ j d p. sub j d (get-tail j k d e m fresh p))
        (better-IsCandidate w best k e (sub k e (get-cons k e m)) h)

  -- An entry that does not expire before the candidate, or the inserted one.
  abbrev pub NotBefore : Option (String × Time) → String × Entry P F → Type 0
  NotBefore none p = p.0 ≡ inserted
  NotBefore (some (k, t)) p = (p.0 ≡ inserted) ⊎ (ltb_time p.1.expiry t ≡ false)

  better-Improves :
      (best : Option (String × Time)) (k : String) (e : Entry P F)
      → Improves best (better inserted best k e)
  unfolding better
  better-Improves none k e = tt
  better-Improves (some (j, t)) k e = ground (arith, ltb_time_asym e.expiry t, ltb_time_irrefl t)

  oldest-Improves :
      (m : Assoc (Entry P F)) (best : Option (String × Time))
      → Improves best (oldest inserted m best)
  unfolding oldest
  oldest-Improves [] none = tt
  oldest-Improves [] (some (j, t)) = ltb_time_irrefl t
  oldest-Improves ((k, e) ∷ m) best =
      Improves-trans best (better inserted best k e) _ (better-Improves best k e)
        (oldest-Improves m (better inserted best k e))

  better-NotBefore :
      (best c : Option (String × Time)) (k : String) (e : Entry P F)
      → Improves (better inserted best k e) c
      → NotBefore c (k, e)
  unfolding better
  better-NotBefore none none k e h = ground (arith, eq_iff k inserted)
  better-NotBefore none (some (j, t)) k e h = ground (arith, eq_iff k inserted)
  better-NotBefore (some (b, u)) none k e h = ground (arith, eq_iff k inserted)
  better-NotBefore (some (b, u)) (some (j, t)) k e h =
      ground (arith, eq_iff k inserted, ltb_time_trans t u e.expiry)

  oldest-NotBefore :
      (m : Assoc (Entry P F)) (best : Option (String × Time))
      → All (NotBefore (oldest inserted m best)) m
  unfolding oldest
  oldest-NotBefore [] best = tt
  oldest-NotBefore ((k, e) ∷ m) best = (
    better-NotBefore best (oldest inserted m (better inserted best k e)) k e
        (oldest-Improves m (better inserted best k e)),
    oldest-NotBefore m (better inserted best k e),
  )

  alone : (m : Assoc (Entry P F)) → IsMap m → All (λ p. p.0 ≡ inserted) m → length m ≤ 1
  alone [] h a = omega arith
  alone (p ∷ []) h a = omega arith
  alone ((j, d) ∷ (k, e) ∷ m) h a = ground (arith, eq_iff k j)

  -- What `evictCache` picks in a map that is too large.
  abbrev pub IsVictim : Assoc (Entry P F) → String → Type 0
  IsVictim m k =
      (k ≢ inserted) × (e : Entry P F) × (get k m ≡ some e) × All (NotBefore (some (k, e.expiry))) m

  has-victim :
      (m : Assoc (Entry P F)) → IsMap m → has inserted m ≡ true → has (victim inserted m) m ≡ true
  has-victim m h found =
      go (oldest inserted m none) (oldest-IsCandidate m m none h (λ k e p. p) tt) refl
    where
      go :
          (c : Option (String × Time))
          → IsCandidate m c
          → oldest inserted m none ≡ c
          → has (victim inserted m) m ≡ true
      go none _ e = rw (e, victim) found
      go (some (k, t)) c e = rw (e, victim) (rw c.2)

  -- A map with two entries has an entry to evict.
  pub victim-IsVictim :
      (m : Assoc (Entry P F)) → IsMap m → 1 < length m → IsVictim m (victim inserted m)
  victim-IsVictim m h big =
      go (oldest inserted m none) (oldest-IsCandidate m m none h (λ k e p. p) tt)
        (oldest-NotBefore m none) refl
    where
      go :
          (c : Option (String × Time))
          → IsCandidate m c
          → All (NotBefore c) m
          → oldest inserted m none ≡ c
          → IsVictim m (victim inserted m)
      go none _ all e = absurd (omega (arith, alone m h all))
      go (some (k, t)) (ne, d, found, same) all e = rw (e, victim) (ne, d, found, rw same all)

module _ {P F : Type 0} (s : State P F) (inserted : String) (max_size : ℕ) where
  -- A cache over its size, with two or more entries and no key twice, loses the entry that expires
  -- first, the inserted one left aside, and no other.
  pub evict_cache-IsVictim :
      IsMap s.cache
      → 1 < length s.cache
      → max_size < length s.cache
      → IsVictim inserted s.cache (victim inserted s.cache)
        × ((evict_cache max_size inserted s).cache ≡ delete (victim inserted s.cache) s.cache)
  unfolding evict_cache
  evict_cache-IsVictim h big over = (victim-IsVictim inserted s.cache h big, ground arith)

  pub evict_cache-IsMap : IsMap s.cache → IsMap (evict_cache max_size inserted s).cache
  unfolding evict_cache
  evict_cache-IsMap h = ground (arith, delete-IsMap (victim inserted s.cache) s.cache h)

  pub evict_cache-keeps :
      {e : Entry P F}
      → IsMap s.cache
      → get inserted s.cache ≡ some e
      → 0 < max_size
      → get inserted (evict_cache max_size inserted s).cache ≡ some e
  unfolding evict_cache
  evict_cache-keeps {e} h found big = elim (Bool-cases (leb (length s.cache) max_size)) [
    | inl fits ↦ rw fits found
    | inr over ↦
        let ne = (victim-IsVictim inserted s.cache h (ground arith)).0 in
        rw over (
          rw (get-delete (victim inserted s.cache) inserted s.cache)
            (ground (arith, eq_iff (victim inserted s.cache) inserted)))
  ]

  pub length-evict_cache :
      {e : Entry P F}
      → IsMap s.cache
      → get inserted s.cache ≡ some e
      → length s.cache ≤ suc max_size
      → length (evict_cache max_size inserted s).cache ≤ max_size
  unfolding evict_cache
  length-evict_cache h found small = ground (
    arith,
    length-delete (victim inserted s.cache) s.cache h
        (has-victim inserted s.cache h (ground arith)),
  )
