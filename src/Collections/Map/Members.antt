-- ===== src/Collections/Map/Members.antt =====
-- Predicates on all values of a map.
use rustbond.Prelude.{◌≡◌, [], ◌∷◌, some, arith, All}
use rustbond.Collections.Map.{Map, get, insert, remove}

module _ {K V : Type 0} (P : V → Type 0) where
  -- Every value satisfies the predicate.
  abbrev pub AllValues : Map K V → Type 0
  AllValues = All (λ e. P e.1)

module _ {K V : Type 0} (dec : Discrete K) (P : V → Type 0) where
  pub get-AllValues : (k : K) (m : Map K V) (v : V) → AllValues P m → get dec k m ≡ some v → P v
  unfolding get
  get-AllValues k [] v a h = ground arith
  get-AllValues k (e ∷ m) v a h = ground (arith, get-AllValues k m v a.1)

  pub insert-AllValues :
      (k : K) (v : V) (m : Map K V) → AllValues P m → P v → AllValues P (insert dec k v m)
  unfolding insert
  insert-AllValues k v [] a p = (p, tt)
  insert-AllValues k v (e ∷ m) a p = ground (arith, insert-AllValues k v m a.1 p)

  pub remove-AllValues : (k : K) (m : Map K V) → AllValues P m → AllValues P (remove dec k m)
  unfolding remove
  remove-AllValues k [] a = tt
  remove-AllValues k (e ∷ m) a = ground (arith, remove-AllValues k m a.1)
