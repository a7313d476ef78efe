-- ===== src/Base/Dict.antt =====
-- `std::unordered_map<std::string, V>` and `std::map<std::string, V>`, where only their `find`, `count`
-- and `operator[]` are used: entries in no particular order, with one entry for each key.
use Prim.Native.Nat.{ℕ}
use mathlib.Core.Path.{◌≡◌, refl}
use mathlib.Core.List.{List, [], ◌∷◌}
use mathlib.Core.Option.{Option, none, some}
use native.Mathlib.Omega.{arith}
use retro_park.Base.Tests.{if◌then◌else◌}
use retro_park.Base.Bytes.{bytes_eq, bytes_eq_iff}

abbrev pub Dict {ℓ} : Type ℓ → Type ℓ
Dict V = List (List ℕ × V)

module _ {ℓ} {V : Type ℓ} where
  unfoldable pub lookup : List ℕ → Dict V → Option V
  unfolding bytes_eq
  lookup k [] = none
  lookup k ((j, v) ∷ es) = if bytes_eq j k then some v else lookup k es

  -- `m[k] = v`
  unfoldable pub insert : List ℕ → V → Dict V → Dict V
  unfolding bytes_eq
  insert k v [] = (k, v) ∷ []
  insert k v ((j, w) ∷ es) = if bytes_eq j k then (k, v) ∷ es else (j, w) ∷ insert k v es

  pub lookup-insert :
      (k j : List ℕ) (v : V) (es : Dict V)
      → lookup j (insert k v es) ≡ (if bytes_eq k j then some v else lookup j es)
  unfolding lookup insert
  lookup-insert k j v [] = refl
  lookup-insert k j v ((i, w) ∷ es) =
      ground (arith, bytes_eq_iff k j, bytes_eq_iff i k, bytes_eq_iff i j, lookup-insert k j v es)
