-- ===== src/Collections/Map/WriteBack.antt =====
-- A collection inside a map that is written through `get_mut` and then taken out of the map if it
-- is empty, as in `if v.is_empty() { m.remove(&k); }`.
use rustbond.Prelude.{ℕ, ◌+◌, ◌≡◌, ite, false, List, [], ◌∷◌, arith, if◌then◌else◌, is_empty}
use rustbond.Collections.Set.{Distinct}
use rustbond.Collections.Map.{
  Map, keys, get, insert, remove, or_default, get-insert, get-remove, insert-Distinct,
  remove-Distinct,
}
use rustbond.Collections.Map.Members.{AllValues, insert-AllValues, remove-AllValues}
use rustbond.Collections.Map.Weight.{total, weight_of, total-insert, total-remove}

module _ {K A : Type 0} (dec : Discrete K) where
  unfoldable pub write_back : K → List A → Map K (List A) → Map K (List A)
  write_back k v m = if is_empty v then remove dec k m else insert dec k v m

  -- Seen through a default, the write is a plain one.
  pub get-write_back :
      (k j : K) (v : List A) (m : Map K (List A))
      → or_default [] (get dec j (write_back k v m)) ≡ ite (dec k j) v (or_default [] (get dec j m))
  unfolding write_back
  get-write_back k j [] m = ground (arith, get-remove dec k j m)
  get-write_back k j (x ∷ v) m = ground (arith, get-insert dec k j (x ∷ v) m)

  pub write_back-Distinct :
      (k : K) (v : List A) (m : Map K (List A))
      → Distinct dec (keys m)
      → Distinct dec (keys (write_back k v m))
  unfolding write_back
  write_back-Distinct k [] m d = remove-Distinct dec k m d
  write_back-Distinct k (x ∷ v) m d = insert-Distinct dec k (x ∷ v) m d

  -- The predicate need not hold of the written value if that is empty.
  pub write_back-AllValues :
      (P : List A → Type 0) (k : K) (v : List A) (m : Map K (List A))
      → AllValues P m
      → (is_empty v ≡ false → P v)
      → AllValues P (write_back k v m)
  unfolding write_back
  write_back-AllValues P k [] m a p = remove-AllValues dec P k m a
  write_back-AllValues P k (x ∷ v) m a p = insert-AllValues dec P k (x ∷ v) m a (p (ground arith))

  pub total-write_back :
      (weight : List A → ℕ) (k : K) (v : List A) (m : Map K (List A))
      → weight [] ≡ 0
      → Distinct dec (keys m)
      → total weight (write_back k v m) + weight_of weight (get dec k m) ≡ total weight m + weight v
  unfolding write_back
  total-write_back weight k [] m z d = omega (arith, total-remove dec weight k m d)
  total-write_back weight k (x ∷ v) m z d = total-insert dec weight k (x ∷ v) m
