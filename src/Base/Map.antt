-- ===== src/Base/Map.antt =====
-- `std::map<uint64_t, V>`: entries in ascending order of their keys, by the container's contract.
-- Clients use `find`, `insert`, `prune_below` and the laws; the order is kept by construction.
use Prim.Native.Nat.{ℕ, ◌≤◌, ◌<◌}
use mathlib.Core.Path.{◌≡◌, refl}
use mathlib.Core.List.{List, [], ◌∷◌}
use mathlib.Core.Option.{Option, none, some}
use native.Mathlib.Omega.{arith}
use retro_park.Base.Tests.{ltb, ◌==◌, if◌then◌else◌}

module _ {ℓ} {V : Type ℓ} where
  -- The keys ascend, from above `k`.
  abbrev pub Above : ℕ → List (ℕ × V) → Type 0
  Above k [] = Unit {0}
  Above k ((j, v) ∷ es) = (k < j) × Above j es

  abbrev pub IsAscending : List (ℕ × V) → Type 0
  IsAscending [] = Unit {0}
  IsAscending ((j, v) ∷ es) = Above j es

  lookup : ℕ → List (ℕ × V) → Option V
  lookup k [] = none
  lookup k ((j, v) ∷ es) = if j == k then some v else lookup k es

  pub put : ℕ → V → List (ℕ × V) → List (ℕ × V)
  put k v [] = (k, v) ∷ []
  put k v ((j, w) ∷ es) =
      if k == j then (k, v) ∷ es else if ltb k j then (k, v) ∷ (j, w) ∷ es else (j, w) ∷ put k v es

  -- `for (it = m.begin(); it != m.end() && it->first < floor; ) it = m.erase(it);`
  drop_below : ℕ → List (ℕ × V) → List (ℕ × V)
  drop_below floor [] = []
  drop_below floor ((j, v) ∷ es) =
      let rest = drop_below floor es in if ltb j floor then rest else (j, v) ∷ es

  Above-mono : (i j : ℕ) (es : List (ℕ × V)) → i ≤ j → Above j es → Above i es
  Above-mono i j [] h a = tt
  Above-mono i j ((k, v) ∷ es) h a = (omega arith, a.1)

  put-Above : (i k : ℕ) (v : V) (es : List (ℕ × V)) → i < k → Above i es → Above i (put k v es)
  unfolding put
  put-Above i k v [] h a = (h, tt)
  put-Above i k v ((j, w) ∷ es) h a = ground (arith, λ (p : j < k). put-Above j k v es p a.1)

  pub put-IsAscending :
      (k : ℕ) (v : V) (es : List (ℕ × V)) → IsAscending es → IsAscending (put k v es)
  unfolding put
  put-IsAscending k v [] a = tt
  put-IsAscending k v ((j, w) ∷ es) a = ground (arith, λ (p : j < k). put-Above j k v es p a)

  Above-IsAscending : (j : ℕ) (es : List (ℕ × V)) → Above j es → IsAscending es
  Above-IsAscending j [] a = tt
  Above-IsAscending j ((k, w) ∷ es) a = a.1

  drop_below-IsAscending :
      (floor : ℕ) (es : List (ℕ × V)) → IsAscending es → IsAscending (drop_below floor es)
  unfolding drop_below
  drop_below-IsAscending floor [] a = tt
  drop_below-IsAscending floor ((j, v) ∷ es) a =
      ground (arith, drop_below-IsAscending floor es (Above-IsAscending j es a))

  lookup-put :
      (k j : ℕ) (v : V) (es : List (ℕ × V))
      → lookup j (put k v es) ≡ (if k == j then some v else lookup j es)
  unfolding lookup put
  lookup-put k j v [] = refl
  lookup-put k j v ((i, w) ∷ es) = ground (arith, lookup-put k j v es)

  lookup-Above : (k j : ℕ) (es : List (ℕ × V)) → Above j es → k ≤ j → lookup k es ≡ none
  unfolding lookup
  lookup-Above k j [] a h = refl
  lookup-Above k j ((i, w) ∷ es) a h = ground (arith, lookup-Above k i es a.1)

  lookup-drop_below :
      (floor j : ℕ) (es : List (ℕ × V))
      → IsAscending es
      → lookup j (drop_below floor es) ≡ (if ltb j floor then none else lookup j es)
  unfolding lookup drop_below
  lookup-drop_below floor j [] a = ground arith
  lookup-drop_below floor j ((i, w) ∷ es) a =
      ground (arith, lookup-drop_below floor j es (Above-IsAscending i es a), lookup-Above j i es a)

pub record Map (V : Type 0) : Type 0 where
  items : List (ℕ × V)
  ascending : IsAscending items

module _ {V : Type 0} where
  unfoldable pub empty : Map V
  empty = record { items = []; ascending = tt }

  unfoldable pub entries : Map V → List (ℕ × V)
  entries m = m.items

  unfoldable pub find : ℕ → Map V → Option V
  unfolding lookup
  find k m = lookup k m.items

  -- `m[k] = v`
  unfoldable pub insert : ℕ → V → Map V → Map V
  unfolding put
  insert k v m = record {
    items = put k v m.items;
    ascending = put-IsAscending k v m.items m.ascending;
  }

  -- `rb_prune_below`, and the same loop where it is written out
  pub prune_below : ℕ → Map V → Map V
  unfolding drop_below
  prune_below floor m = record {
    items = drop_below floor m.items;
    ascending = drop_below-IsAscending floor m.items m.ascending;
  }

  pub find-empty : (k : ℕ) → find k empty ≡ none
  unfolding find empty
  find-empty k = refl

  pub find-insert :
      (k j : ℕ) (v : V) (m : Map V) → find j (insert k v m) ≡ (if k == j then some v else find j m)
  unfolding find insert
  find-insert k j v m = lookup-put k j v m.items

  pub find-prune_below :
      (floor j : ℕ) (m : Map V)
      → find j (prune_below floor m) ≡ (if ltb j floor then none else find j m)
  unfolding find prune_below
  find-prune_below floor j m = lookup-drop_below floor j m.items m.ascending

  -- `m[k]` as a value: a missing key gives `d`.
  unfoldable pub find_or : ℕ → V → Map V → V
  find_or k d m = elim (find k m) [ none ↦ d | some v ↦ v ]

  -- `m[k]` as an effect: a missing key is entered with `d`.
  unfoldable pub touch : ℕ → V → Map V → Map V
  touch k d m = elim (find k m) [ none ↦ insert k d m | some v ↦ m ]

  pub find_or-eq : (k : ℕ) (d v : V) (m : Map V) → find k m ≡ some v → find_or k d m ≡ v
  unfolding find_or
  find_or-eq k d v m e = rw (e, find_or)

  pub touch-eq : (k : ℕ) (d v : V) (m : Map V) → find k m ≡ some v → touch k d m ≡ m
  unfolding touch
  touch-eq k d v m e = rw (e, touch)
