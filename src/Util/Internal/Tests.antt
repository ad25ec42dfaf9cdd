-- ===== src/Util/Internal/Tests.antt =====
-- packages/util/index.js: runs of `getInternal` and `sanitizeKey` at concrete inputs.
use middy.Prelude.{
  ℕ, ◌==◌, true, ◌≡◌, refl, none, some, [], ◌∷◌, ok, fulfilled, rejected, if◌then◌else◌,
}
use middy.Texts.{units, Table}
use middy.Util.Internal.{
  Values, sanitized, path_parts, get_pairs, get_async, read_async, read_sync, safe_get,
}
use middy.Util.Internal.Agreement.{get_pairs-eq-get_async}

-- The values are numbers: 7 is a promise of 70, 8 is rejected with 80, and 1 has a field `b` that
-- is 2.
abbrev sample : Values ℕ ℕ
sample = record {
  undefined = 0;
  is_nullish = λ a. a == 0;
  own_field = λ a k. if a == 1 then some 2 else none;
  thenable =
      λ a. if a == 7 then some (fulfilled 70) else if a == 8 then some (rejected 80) else none;
}

abbrev internal : Table ℕ
internal = (units "a", 1) ∷ (units "p", 7) ∷ (units "q", 8) ∷ []

sanitizes : sanitized (units "1/db.pass-word") ≡ units "_1_db_pass_word"
unfolding sanitized
sanitizes = refl

reads_paths :
    get_pairs sample true internal ((units "x", units "a.b") ∷ (units "y", units "p") ∷ [])
    ≡ ok ((units "x", 2) ∷ (units "y", 70) ∷ [])
unfolding get_pairs path_parts safe_get read_sync read_async
reads_paths = refl

get_pairs-eq-get_async_example :
    get_pairs sample true internal ((units "x", units "a.b") ∷ (units "y", units "a") ∷ [])
    ≡ get_async sample true internal ((units "x", units "a.b") ∷ (units "y", units "a") ∷ []) [] []
get_pairs-eq-get_async_example =
    get_pairs-eq-get_async sample true internal
      ((units "x", units "a.b") ∷ (units "y", units "a") ∷ [])
