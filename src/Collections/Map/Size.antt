-- ===== src/Collections/Map/Size.antt =====
-- The number of entries of a map.
use rustbond.Prelude.{
  ◌+◌, ◌≡◌, refl, Bool, true, false, [], ◌∷◌, Option, none, some, arith, length, if◌then◌else◌,
}
use rustbond.Collections.Set.{Distinct}
use rustbond.Collections.Map.{Map, keys, get, insert, remove}
use rustbond.Collections.Map.Weight.{remove_absent}

-- `o.is_some()`
abbrev pub is_some : {A : Type 0} → Option A → Bool
is_some none = false
is_some (some a) = true

module _ {K V : Type 0} (dec : Discrete K) where
  pub length-insert :
      (k : K) (v : V) (m : Map K V)
      → length (insert dec k v m) ≡ length m + (if is_some (get dec k m) then 0 else 1)
  unfolding insert get
  length-insert k v [] = refl
  length-insert k v (e ∷ m) = ground (arith, length-insert k v m)

  pub length-remove :
      (k : K) (m : Map K V)
      → Distinct dec (keys m)
      → length (remove dec k m) + (if is_some (get dec k m) then 1 else 0) ≡ length m
  unfolding remove get
  length-remove k [] d = refl
  length-remove k (e ∷ m) d = ground (arith, length-remove k m d.1, remove_absent dec k m)
