-- ===== src/Base/Assoc.antt =====
-- Maps with number keys, as lists of their entries.
use Prim.Native.Nat.{ℕ}
use mathlib.Core.Path.{◌≡◌, refl}
use mathlib.Core.Bool.{Bool, false, ◌||◌}
use mathlib.Core.Option.{Option, none, some}
use mathlib.Core.List.{List, [], ◌∷◌}
use native.Mathlib.Omega.{arith}
use firmir.Base.Tests.{◌==◌, if◌then◌else◌}

module _ {ℓ} {V : Type ℓ} where
  unfoldable pub lookup : ℕ → List (ℕ × V) → Option V
  lookup k [] = none
  lookup k ((j, v) ∷ l) = if j == k then some v else lookup k l

  -- `m[k] = v`: in the place of the old entry, or behind the others.
  unfoldable pub put : ℕ → V → List (ℕ × V) → List (ℕ × V)
  put k v [] = (k, v) ∷ []
  put k v ((j, w) ∷ l) = let rest = put k v l in if j == k then (k, v) ∷ l else (j, w) ∷ rest

  unfoldable pub erase : ℕ → List (ℕ × V) → List (ℕ × V)
  erase k [] = []
  erase k ((j, v) ∷ l) = let rest = erase k l in if j == k then rest else (j, v) ∷ rest

  pub lookup-put :
      (k j : ℕ) (v : V) (l : List (ℕ × V))
      → lookup j (put k v l) ≡ (if k == j then some v else lookup j l)
  unfolding lookup put
  lookup-put k j v [] = refl
  lookup-put k j v ((i, w) ∷ l) = ground (arith, lookup-put k j v l)

  pub lookup-erase :
      (k j : ℕ) (l : List (ℕ × V)) → lookup j (erase k l) ≡ (if k == j then none else lookup j l)
  unfolding lookup erase
  lookup-erase k j [] = ground arith
  lookup-erase k j ((i, v) ∷ l) = ground (arith, lookup-erase k j l)

-- The same function on every value.
module _ {ℓ κ} {V : Type ℓ} {W : Type κ} where
  unfoldable pub map_values : (V → W) → List (ℕ × V) → List (ℕ × W)
  map_values f [] = []
  map_values f ((j, v) ∷ l) = (j, f v) ∷ map_values f l

  abbrev pub map_option : (V → W) → Option V → Option W
  map_option f none = none
  map_option f (some v) = some (f v)

  pub lookup-map_values :
      (f : V → W) (k : ℕ) (l : List (ℕ × V)) → lookup k (map_values f l) ≡ map_option f (lookup k l)
  unfolding lookup map_values
  lookup-map_values f k [] = refl
  lookup-map_values f k ((j, v) ∷ l) = ground (arith, lookup-map_values f k l)

-- Sets of numbers.
unfoldable pub member : ℕ → List ℕ → Bool
member k [] = false
member k (j ∷ l) = (j == k) || member k l

unfoldable pub insert : ℕ → List ℕ → List ℕ
unfolding member
insert k l = if member k l then l else k ∷ l

pub member-insert : (k j : ℕ) (l : List ℕ) → member j (insert k l) ≡ ((k == j) || member j l)
unfolding member insert
member-insert k j [] = refl
member-insert k j (i ∷ l) = ground (arith, member-insert k j l)
