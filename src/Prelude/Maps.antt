-- ===== src/Prelude/Maps.antt =====
-- A JavaScript `Map`, or an object's own properties, with string keys in insertion order.
use Prim.Native.Nat.{suc}
use Prim.Native.String.{String}
use mathlib.Core.Path.{◌≡◌, refl}
use mathlib.Core.Bool.{Bool, true}
use mathlib.Core.Option.{Option, none, some}
use mathlib.Core.List.{List, [], ◌∷◌}
use native.Mathlib.Omega.{arith}
use text.Mathlib.Text.{◌==◌}
use text.Mathlib.TextEquality.{eq_iff}
use middy.Prelude.Tests.{if◌then◌else◌, is_some}
use middy.Prelude.Lists.{length}

abbrev pub Assoc {ℓ} : Type ℓ → Type ℓ
Assoc V = List (String × V)

module _ {ℓ} {V : Type ℓ} where
  abbrev pub get : String → Assoc V → Option V
  get k [] = none
  get k ((j, v) ∷ m) = if j == k then some v else get k m

  abbrev pub has : String → Assoc V → Bool
  has k m = is_some (get k m)

  -- A new key goes to the end, and a known one keeps its place.
  abbrev pub set : String → V → Assoc V → Assoc V
  set k v [] = (k, v) ∷ []
  set k v ((j, w) ∷ m) = if j == k then (k, v) ∷ m else (j, w) ∷ set k v m

  abbrev pub delete : String → Assoc V → Assoc V
  delete k [] = []
  delete k ((j, w) ∷ m) = let rest = delete k m in if j == k then rest else (j, w) ∷ rest

  -- No key stands twice, as in every `Map`.
  abbrev pub IsMap : Assoc V → Type ℓ
  IsMap [] = Unit
  IsMap ((k, v) ∷ m) = (get k m ≡ none) × IsMap m

  pub get-set :
      (k j : String) (v : V) (m : Assoc V)
      → get j (set k v m) ≡ (if k == j then some v else get j m)
  get-set k j v [] = refl
  get-set k j v ((i, w) ∷ m) = ground (arith, eq_iff k j, eq_iff i k, eq_iff i j, get-set k j v m)

  pub get-delete :
      (k j : String) (m : Assoc V) → get j (delete k m) ≡ (if k == j then none else get j m)
  get-delete k j [] = ground arith
  get-delete k j ((i, w) ∷ m) = ground (arith, eq_iff k j, eq_iff i k, eq_iff i j, get-delete k j m)

  pub set-IsMap : (k : String) (v : V) (m : Assoc V) → IsMap m → IsMap (set k v m)
  set-IsMap k v [] h = (refl, tt)
  set-IsMap k v ((i, w) ∷ m) h =
      ground (arith, eq_iff i k, eq_iff k i, get-set k i v m, set-IsMap k v m h.1)

  pub delete-IsMap : (k : String) (m : Assoc V) → IsMap m → IsMap (delete k m)
  delete-IsMap k [] h = tt
  delete-IsMap k ((i, w) ∷ m) h =
      ground (arith, eq_iff i k, eq_iff k i, get-delete k i m, delete-IsMap k m h.1)

  pub delete_missing : (k : String) (m : Assoc V) → get k m ≡ none → delete k m ≡ m
  delete_missing k [] h = refl
  delete_missing k ((i, w) ∷ m) h = ground (arith, delete_missing k m)

  pub length-set :
      (k : String) (v : V) (m : Assoc V)
      → length (set k v m) ≡ (if has k m then length m else suc (length m))
  length-set k v [] = refl
  length-set k v ((i, w) ∷ m) = ground (arith, length-set k v m)

  pub length-delete :
      (k : String) (m : Assoc V) → IsMap m → has k m ≡ true → suc (length (delete k m)) ≡ length m
  length-delete k [] h e = cc
  length-delete k ((i, w) ∷ m) h e =
      ground (arith, eq_iff i k, delete_missing k m, length-delete k m h.1)
