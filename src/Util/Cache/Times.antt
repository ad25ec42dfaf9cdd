-- ===== src/Util/Cache/Times.antt =====
-- packages/util/index.js: the order of the cache's points in time.
use middy.Prelude.{◌≡◌, refl, true, false, arith}
use middy.Util.Cache.{Time, at, never, ltb_time, min_time}

pub ltb_time_trans :
    (a b c : Time) → ltb_time b a ≡ false → ltb_time c b ≡ false → ltb_time c a ≡ false
ltb_time_trans (at a) (at b) (at c) h k = ground arith
ltb_time_trans a never (at c) h k = cc
ltb_time_trans never (at b) (at c) h k = cc
ltb_time_trans a b never h k = refl

pub ltb_time_asym : (a b : Time) → ltb_time a b ≡ true → ltb_time b a ≡ false
ltb_time_asym (at a) (at b) h = ground arith
ltb_time_asym (at a) never h = refl
ltb_time_asym never b h = cc

pub ltb_time_irrefl : (a : Time) → ltb_time a a ≡ false
ltb_time_irrefl (at a) = ground arith
ltb_time_irrefl never = refl

pub min_time-le : (a b : Time) → ltb_time a (min_time a b) ≡ false
min_time-le (at a) (at b) = ground arith
min_time-le (at a) never = ground arith
min_time-le never b = refl

pub min_time_self : (a : Time) → min_time a a ≡ a
min_time_self (at a) = ground arith
min_time_self never = refl

pub min_time_assoc : (a b : Time) → min_time (min_time a b) b ≡ min_time a b
min_time_assoc (at a) (at b) = ground arith
min_time_assoc (at a) never = refl
min_time_assoc never (at b) = ground arith
min_time_assoc never never = refl

pub min_time-never : (a : Time) → min_time a never ≡ a
min_time-never (at a) = refl
min_time-never never = refl
