-- ===== src/Collections/Map/Weight.antt =====
-- Sums over the values of a map, as `values().map(..).sum()` makes them.
use rustbond.Prelude.{ℕ, ◌+◌, ◌≡◌, refl, false, [], ◌∷◌, Option, none, some, arith}
use rustbond.Collections.Set.{contains, Distinct}
use rustbond.Collections.Map.{Map, keys, get, insert, remove}

module _ {K V : Type 0} (weight : V → ℕ) where
  -- `m.values().map(weight).sum()`
  unfoldable pub total : Map K V → ℕ
  total [] = 0
  total ((k, v) ∷ m) = weight v + total m

-- What a missing key adds to a sum is nothing.
abbrev pub weight_of : {V : Type 0} → (V → ℕ) → Option V → ℕ
weight_of weight none = 0
weight_of weight (some v) = weight v

module _ {K V : Type 0} (dec : Discrete K) where
  pub remove_absent : (k : K) (m : Map K V) → contains dec k (keys m) ≡ false → remove dec k m ≡ m
  unfolding remove contains
  remove_absent k [] h = refl
  remove_absent k (e ∷ m) h = ground (arith, remove_absent k m)

module _ {K V : Type 0} (dec : Discrete K) (weight : V → ℕ) where
  pub total-insert :
      (k : K) (v : V) (m : Map K V)
      → total weight (insert dec k v m) + weight_of weight (get dec k m) ≡ total weight m + weight v
  unfolding total insert get
  total-insert k v [] = ground arith
  total-insert k v (e ∷ m) = ground (arith, total-insert k v m)

  pub total-remove :
      (k : K) (m : Map K V)
      → Distinct dec (keys m)
      → total weight (remove dec k m) + weight_of weight (get dec k m) ≡ total weight m
  unfolding total remove get
  total-remove k [] d = refl
  total-remove k (e ∷ m) d = ground (arith, total-remove k m d.1, remove_absent dec k m)
